-- ===== src/Equivalence/Classify/Passes.antt =====
-- What one pass of the classification does (ClassifyGolden in golden_classify.go).
use dual_deployment_operator.Base.{
  ◌≡◌, refl, ◌⊎◌, inl, inr, subst, Bool, true, false, List, [], ◌∷◌, ◌++◌, ◌&&◌, not, arith,
  Bool-cases, Result, ok, err, if◌then◌else◌,
}
use dual_deployment_operator.Json.{Fields}
use dual_deployment_operator.Library.{Library}
use dual_deployment_operator.Equivalence.Objects.{put_object, key_of_object, put_all}
use dual_deployment_operator.Equivalence.Scope.{ExclusionEntry}
use dual_deployment_operator.Equivalence.Classify.{
  GoldenOpts, Classified, is_excluded, is_managed_resource, is_injector_config_map, decode_webhooks,
  add_webhooks, classify_doc,
}

module _ ⦃k : Library⦄ where
  abbrev pub is_included : List ExclusionEntry → Fields → Bool
  is_included ex d = not (is_excluded d ex)

  -- A document that may be compared, neither excluded nor a managed resource.
  abbrev pub is_candidate : GoldenOpts → Fields → Bool
  is_candidate opts d = is_included opts.exclusions d && not (is_managed_resource d)

  -- Whether a rendered object is compared with what the operator delivers to the seed.
  abbrev pub stays_on_seed : GoldenOpts → Fields → Bool
  stays_on_seed opts d = is_candidate opts d && not (is_injector_config_map d opts.chart_fullname)

  abbrev pub carries_webhooks : GoldenOpts → Fields → Bool
  carries_webhooks opts d = is_candidate opts d && is_injector_config_map d opts.chart_fullname

  -- The webhooks that the injectors' config maps among the documents carry, in order.
  pub data AreCarried (opts : GoldenOpts) : List Fields → List Fields → Type 0 where
    none_left : AreCarried opts [] []
    passed :
        {d : Fields} {docs whs : List Fields}
        → carries_webhooks opts d ≡ false
        → AreCarried opts docs whs
        → AreCarried opts (d ∷ docs) whs
    carried :
        {d : Fields} {docs here whs : List Fields}
        → carries_webhooks opts d ≡ true
        → decode_webhooks d ≡ ok here
        → AreCarried opts docs whs
        → AreCarried opts (d ∷ docs) (here ++ whs)

  abbrev pub on_seed : GoldenOpts → Fields → List Fields
  on_seed opts d = if stays_on_seed opts d then d ∷ [] else []

  -- What one pass does.
  pub record IsPass (opts : GoldenOpts) (a b : Classified) (d : Fields) : Type 0 where
    pub here : List Fields
    pub from :
        ((carries_webhooks opts d ≡ false) × (here ≡ []))
        ⊎ ((carries_webhooks opts d ≡ true) × (decode_webhooks d ≡ ok here))
    pub seed : b.seed ≡ put_all (on_seed opts d) a.seed
    pub shoot : b.shoot ≡ put_all here a.shoot

  IsPass-same :
      (opts : GoldenOpts) (d : Fields) (a b : Classified)
      → ok a ≡ ok b
      → carries_webhooks opts d ≡ false
      → stays_on_seed opts d ≡ false
      → IsPass opts a b d
  unfolding put_all
  IsPass-same opts d a b h no_webhooks off =
      let e : a ≡ b = cc in
      subst (λ b'. IsPass opts a b' d) e
        (record { here = []; from = inl (no_webhooks, refl); seed = rw off refl; shoot = refl })

  IsPass-webhooks :
      (opts : GoldenOpts) (d : Fields) (a b : Classified) (r : Result (List Fields))
      → decode_webhooks d ≡ r
      → add_webhooks d r a ≡ ok b
      → carries_webhooks opts d ≡ true
      → stays_on_seed opts d ≡ false
      → IsPass opts a b d
  unfolding put_all
  IsPass-webhooks opts d a b (err e) decoded h carries off = cc
  IsPass-webhooks opts d a b (ok whs) decoded h carries off =
      let after : Classified = record a { shoot = put_all whs a.shoot } in
      let e : after ≡ b = cc in
      subst (λ b'. IsPass opts a b' d) e
        (record { here = whs; from = inr (carries, decoded); seed = rw off refl; shoot = refl })

  IsPass-seed :
      (opts : GoldenOpts) (d : Fields) (a b : Classified)
      → ok (record a { seed = put_object (key_of_object d) d a.seed }) ≡ ok b
      → carries_webhooks opts d ≡ false
      → stays_on_seed opts d ≡ true
      → IsPass opts a b d
  unfolding put_all
  IsPass-seed opts d a b h no_webhooks on =
      let after : Classified = record a { seed = put_object (key_of_object d) d a.seed } in
      let e : after ≡ b = cc in
      subst (λ b'. IsPass opts a b' d) e
        (record { here = []; from = inl (no_webhooks, refl); seed = rw on refl; shoot = refl })

  pub classify_doc-IsPass :
      (opts : GoldenOpts) (d : Fields) (a b : Classified)
      → classify_doc opts d a ≡ ok b
      → IsPass opts a b d
  unfolding classify_doc
  classify_doc-IsPass opts d a b h = elim (Bool-cases (is_excluded d opts.exclusions)) [
    | inl x ↦ IsPass-same opts d a b (ground arith) (ground arith) (ground arith)
    | inr x ↦ elim (Bool-cases (is_managed_resource d)) [
      | inl y ↦ IsPass-same opts d a b (ground arith) (ground arith) (ground arith)
      | inr y ↦ elim (Bool-cases (is_injector_config_map d opts.chart_fullname)) [
        | inl z ↦
            IsPass-webhooks opts d a b (decode_webhooks d) refl (ground arith) (ground arith)
              (ground arith)
        | inr z ↦ IsPass-seed opts d a b (ground arith) (ground arith) (ground arith)
      ]
    ]
  ]
