-- ===== src/Deliver/Applier/Prepared.antt =====
-- The object that `Apply` sends.
use dual_deployment_operator.Base.{
  ◌≡◌, refl, String, none, some, [], ◌∷◌, ◌==◌, Result-cases, Option-cases, inl, inr, Bool-cases,
  one_of, ◌≢◌, All, eq_iff, arith,
}
use dual_deployment_operator.Json.{Fields, StringMap, get_text-put_text, delete_text}
use dual_deployment_operator.Library.{Library, Documented, entries}
use dual_deployment_operator.Manifest.{
  Manifest, origin_annotation, strip_internal_annotations, set_owned_by_label, without_origin,
}
use dual_deployment_operator.Deliver.CaBundle.{
  prepare_for_apply, strip_ca_bundle_from_webhooks, strip_webhooks,
  strip_ca_bundle_from_crd_conversion, webhook_kinds,
}
use dual_deployment_operator.Deliver.Applier.{owner_of, prepare}

-- No entry has this key.
abbrev pub HasNo : String → StringMap → Type 0
HasNo key m = All (λ e. e.0 ≢ key) m

HasNo-delete_text : (key : String) (m : StringMap) → HasNo key (delete_text key m)
unfolding delete_text
HasNo-delete_text key [] = tt
HasNo-delete_text key ((j, v) ∷ m) = elim (Bool-cases (j == key)) [
  | inl e ↦ rw (e, delete_text) (HasNo-delete_text key m)
  | inr e ↦ rw (e, delete_text) (ground (arith, e, eq_iff j key), HasNo-delete_text key m)
]

module _ ⦃k : Library⦄ where
  -- An object as it may be sent for the owner `owned_by`.
  pub record IsPrepared (owned_by : String) (u : Fields) : Type 0 where
    pub owned : owner_of u ≡ owned_by
    pub no_origin : HasNo "dual-deployment-operator.cc.sap/origin" (entries (k.get_annotations u))

-- Two objects with the same labels and annotations.
module _ ⦃k : Library⦄ where
  record SameMarks (u v : Fields) : Type 0 where
    labels : k.get_labels u ≡ k.get_labels v
    annotations : k.get_annotations u ≡ k.get_annotations v

entries-without_origin : (m : StringMap) → entries (without_origin m) ≡ m
entries-without_origin [] = refl
entries-without_origin (x ∷ xs) = refl

module _ ⦃k : Library⦄ (doc : Documented) where
  strip_webhooks-SameMarks : (u : Fields) → SameMarks (strip_ca_bundle_from_webhooks u) u
  unfolding strip_ca_bundle_from_webhooks
  strip_webhooks-SameMarks u = elim (Result-cases (k.nested_slice u ("webhooks" ∷ []))) [
    | inl (e, h) ↦
        rw (h, strip_ca_bundle_from_webhooks) (record { labels = refl; annotations = refl })
    | inr (none, h) ↦
        rw (h, strip_ca_bundle_from_webhooks) (record { labels = refl; annotations = refl })
    | inr (some whs, h) ↦
        rw (h, strip_ca_bundle_from_webhooks)
          (elim (Result-cases (k.set_nested_slice u (strip_webhooks whs) ("webhooks" ∷ []))) [
            | inl (e, h') ↦
                rw (h', strip_ca_bundle_from_webhooks)
                  (record { labels = refl; annotations = refl })
            | inr (u', h') ↦
                rw (h', strip_ca_bundle_from_webhooks)
                  (record {
                    labels = doc.labels_of_slice u u' (strip_webhooks whs) "webhooks" refl h';
                    annotations =
                        doc.annotations_of_slice u u' (strip_webhooks whs) "webhooks" refl h';
                  })
          ])
  ]

  prepare_for_apply-SameMarks : (u : Fields) → SameMarks (prepare_for_apply u) u
  unfolding prepare_for_apply strip_ca_bundle_from_crd_conversion
  prepare_for_apply-SameMarks u = elim (Bool-cases (one_of webhook_kinds (k.get_kind u))) [
    | inl e ↦ rw (e, prepare_for_apply) (strip_webhooks-SameMarks u)
    | inr e ↦
        rw (e, prepare_for_apply)
          (elim (Bool-cases (k.get_kind u == "CustomResourceDefinition")) [
            | inl e' ↦
                rw (e', prepare_for_apply)
                  (record {
                    labels = doc.labels_of_removed u "spec" _ refl;
                    annotations = doc.annotations_of_removed u "spec" _ refl;
                  })
            | inr e' ↦ rw (e', prepare_for_apply) (record { labels = refl; annotations = refl })
          ])
  ]

  strip-no_origin :
      (m : Manifest)
      → HasNo origin_annotation
          (entries (k.get_annotations (strip_internal_annotations m).unstructured))
  unfolding strip_internal_annotations
  strip-no_origin m = elim (Option-cases (k.get_annotations m.unstructured)) [
    | inl e ↦ rw (e, strip_internal_annotations) (rw e tt)
    | inr (anns, e) ↦
        rw (e, strip_internal_annotations)
          (rw (doc.annotations_set, entries-without_origin) (HasNo-delete_text _ anns))
  ]

  -- If the library behaves as documented, whatever a manifest carries, the object that `Apply` has
  -- prepared for an owner has that owner's label and no origin annotation.
  pub prepare-IsPrepared :
      (m : Manifest) (owned_by : String) → IsPrepared owned_by (prepare m owned_by).unstructured
  unfolding prepare set_owned_by_label
  prepare-IsPrepared m owned_by =
      let stripped = strip_internal_annotations m in
      let labelled = set_owned_by_label stripped owned_by in
      let same = prepare_for_apply-SameMarks labelled.unstructured in
      record {
        owned = rw same.labels (simp (doc.labels_set, get_text-put_text));
        no_origin = rw same.annotations (rw doc.annotations_of_labelled (strip-no_origin m));
      }
