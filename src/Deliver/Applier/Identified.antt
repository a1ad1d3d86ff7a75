-- ===== src/Deliver/Applier/Identified.antt =====
-- The identity under which `Apply` records a resource and leaves its manifest.
use dual_deployment_operator.Base.{
  ◌≡◌, refl, sym, ◌∙◌, subst, inl, inr, String, Bool, true, false, Option, none, some, List, [],
  ◌∷◌, All, Result, ok, err, Bool-cases, arith,
}
use dual_deployment_operator.Json.{Fields}
use dual_deployment_operator.Library.{Library, Documented, GroupVersion}
use dual_deployment_operator.Api.{ResourceStatus}
use dual_deployment_operator.Manifest.{Manifest, is_cluster_scoped}
use dual_deployment_operator.Deliver.Order.{status_identity_key, manifest_identity_key}
use dual_deployment_operator.Deliver.Identity.{recorded_identity}
use dual_deployment_operator.Deliver.Applier.{
  Applied, Applier, SsaApplier, prepare, initial_status, guard_failure, guard, read_back, graded,
  unless_refused, patch_and_read, ssa_apply, foreign_owner, as_applier, Owner,
}

module _ ⦃k : Library⦄ where
  -- The resource is recorded, and the manifest is left, under one identity key.
  pub record IsIdentified (key : String) (x : Applied) : Type 0 where
    pub recorded : status_identity_key x.status ≡ key
    pub left : manifest_identity_key x.manifest ≡ key

  some-IsIdentified :
      (key : String) (y x : Applied) → some y ≡ some x → IsIdentified key y → IsIdentified key x
  some-IsIdentified key y x h i =
      let same : y ≡ x = ground (arith, h) in subst (IsIdentified key) same i

  guard_failure-IsIdentified :
      (status : ResourceStatus) (m : Manifest) (found : Result Owner) (x : Applied)
      → status_identity_key status ≡ manifest_identity_key m
      → guard_failure status m found ≡ some x
      → IsIdentified (manifest_identity_key m) x
  unfolding guard_failure status_identity_key
  guard_failure-IsIdentified status m (err e) x same h =
      some-IsIdentified _ _ x h (record { recorded = same; left = refl })
  guard_failure-IsIdentified status m (ok found) x same h = judged found.conflict h
    where
      judged :
          (conflict : Bool)
          → guard_failure status m (ok (record found { conflict = conflict })) ≡ some x
          → IsIdentified (manifest_identity_key m) x
      judged true e = some-IsIdentified _ _ x e (record { recorded = same; left = refl })
      judged false e = absurd (ground (arith, e))

module _ {S : Type 0} ⦃k : Library⦄ (a : SsaApplier S) where
  -- What the server returns for a patch is the object that was sent, by its identity.
  abbrev pub ReturnsSame : Type 0
  ReturnsSame =
      (m : Manifest) (s : S) (u : Fields)
      → (a.client.patch m.unstructured a.field_manager s).0 ≡ ok u
      → manifest_identity_key (record m { unstructured = u }) ≡ manifest_identity_key m

  graded-IsIdentified :
      (status : ResourceStatus) (m : Manifest) (live : Result Fields)
      → status_identity_key status ≡ manifest_identity_key m
      → IsIdentified (manifest_identity_key m) (graded status m live)
  unfolding graded status_identity_key
  graded-IsIdentified status m (ok live) same = record { recorded = same; left = refl }
  graded-IsIdentified status m (err e) same = record { recorded = same; left = refl }

  read_back-IsIdentified :
      (status : ResourceStatus) (m : Manifest) (patched : Result Fields) (s : S)
      → status_identity_key status ≡ manifest_identity_key m
      → ((u : Fields)
          → patched ≡ ok u
          → manifest_identity_key (record m { unstructured = u }) ≡ manifest_identity_key m)
      → IsIdentified (manifest_identity_key m) (read_back a status m patched s).0
  unfolding read_back status_identity_key
  read_back-IsIdentified status m (err e) s same returns = record { recorded = same; left = refl }
  read_back-IsIdentified status m (ok u) s same returns =
      let equal = returns u refl in
      subst (λ key. IsIdentified key (read_back a status m (ok u) s).0) equal
        (graded-IsIdentified status (record m { unstructured = u }) _ (same ∙ sym equal))

  guarded-IsIdentified :
      (status : ResourceStatus) (m : Manifest) (refused : Option Applied) (s : S)
      → status_identity_key status ≡ manifest_identity_key m
      → ((x : Applied) → refused ≡ some x → IsIdentified (manifest_identity_key m) x)
      → ReturnsSame
      → IsIdentified (manifest_identity_key m) (unless_refused a status m refused s).0
  unfolding unless_refused patch_and_read
  guarded-IsIdentified status m (some x) s same guards returns = guards x refl
  guarded-IsIdentified status m none s same guards returns =
      read_back-IsIdentified status m _ _ same (returns m s)

  guard-IsIdentified :
      (status : ResourceStatus) (m : Manifest) (owned_by : String) (s : S) (x : Applied)
      → status_identity_key status ≡ manifest_identity_key m
      → (guard a status m owned_by s).0 ≡ some x
      → IsIdentified (manifest_identity_key m) x
  unfolding guard foreign_owner
  guard-IsIdentified status m owned_by s x same h =
      elim (Bool-cases (is_cluster_scoped (k.get_kind m.unstructured))) [
        | inl e ↦ guard_failure-IsIdentified status m _ x same (rw (e, guard) at h)
        | inr e ↦ absurd (ground (arith, rw (e, guard) at h))
      ]

  -- The apiVersion that is applied can be parsed.
  abbrev pub IsVersioned : String → Manifest → Type 0
  IsVersioned owned_by m =
      (gv : GroupVersion) × (k.parse_group_version
          (k.get_api_version (prepare m owned_by).unstructured)
        ≡ ok gv)

  pub ssa_apply-IsIdentified :
      (doc : Documented) (m : Manifest) (owned_by : String) (s : S)
      → ReturnsSame
      → IsVersioned owned_by m
      → IsIdentified (manifest_identity_key (prepare m owned_by)) (ssa_apply a m owned_by s).0
  unfolding ssa_apply
  ssa_apply-IsIdentified doc m owned_by s returns (gv, parsed) =
      let m' = prepare m owned_by in
      let status = initial_status m'.unstructured (a.client.now s).0 in
      let same = recorded_identity doc m' (a.client.now s).0 gv parsed in
      guarded-IsIdentified status m' _ _ same
        (λ x. guard-IsIdentified status m' owned_by (a.client.now s).1 x same) returns

-- An applier records and leaves each manifest under the identity that it is applied with.
abbrev pub Identifies : {S : Type 0} → ⦃k : Library⦄ → Applier S → String → List Manifest → Type 0
Identifies {S} applier owned_by = All (λ m.
    (s : S)
    → IsIdentified (manifest_identity_key (prepare m owned_by)) (applier.apply m owned_by s).0)

module _ {S : Type 0} ⦃k : Library⦄ (a : SsaApplier S) where
  pub as_applier-Identifies :
      (doc : Documented) (owned_by : String) (ms : List Manifest)
      → ReturnsSame a
      → All (IsVersioned a owned_by) ms
      → Identifies (as_applier a) owned_by ms
  unfolding as_applier
  as_applier-Identifies doc owned_by [] returns h = tt
  as_applier-Identifies doc owned_by (m ∷ ms) returns h = (
    λ s. ssa_apply-IsIdentified a doc m owned_by s returns h.0,
    as_applier-Identifies doc owned_by ms returns h.1,
  )
