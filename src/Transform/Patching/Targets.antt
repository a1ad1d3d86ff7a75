-- ===== src/Transform/Patching/Targets.antt =====
-- Which manifests a patch changes.
use dual_deployment_operator.Base.{
  ◌≡◌, refl, ◌≢◌, inl, inr, sym, subst, false, List, [], ◌∷◌, arith, All, ok, cons_ok-eq-ok,
  is_some, Result-cases,
}
use dual_deployment_operator.Library.{Library}
use dual_deployment_operator.Api.{PatchSpec}
use dual_deployment_operator.Manifest.{Manifest}
use dual_deployment_operator.Transform.Selection.{matches}
use dual_deployment_operator.Transform.Patching.{
  not_empty, patch_manifest, patch_manifests, apply_patch,
}

module _ ⦃k : Library⦄ (spec : PatchSpec) where
  -- Manifest by manifest: the origin stays, and so does all that the target does not name.
  abbrev pub PatchedInto : List Manifest → List Manifest → Type 0
  PatchedInto [] [] = Unit
  PatchedInto (m ∷ ms) (n ∷ ns) =
      (n.origin ≡ m.origin) × (matches m spec.target ≡ false → n ≡ m) × PatchedInto ms ns
  PatchedInto _ _ = ⊥

  patch_manifest-origin :
      (m n : Manifest)
      → patch_manifest spec m ≡ ok n
      → (n.origin ≡ m.origin) × (matches m spec.target ≡ false → n ≡ m)
  unfolding patch_manifest
  patch_manifest-origin m n h = ground arith

  patch_manifests-PatchedInto :
      (ms out : List Manifest) → patch_manifests spec ms ≡ ok out → PatchedInto ms out
  unfolding patch_manifests
  patch_manifests-PatchedInto [] [] h = tt
  patch_manifests-PatchedInto [] (n ∷ ns) h = cc
  patch_manifests-PatchedInto (m ∷ ms) out h =
      let others = λ (ns : List Manifest) (e : patch_manifests spec ms ≡ ok ns).
        patch_manifests-PatchedInto ms ns e in
      elim (Result-cases (patch_manifest spec m)) [
        | inl (e, failed) ↦ ground arith
        | inr (n, patched) ↦
            (let (ns, rest, shape) = cons_ok-eq-ok n (patch_manifests spec ms) out (ground arith) in
              let here = patch_manifest-origin m n patched in
              subst (PatchedInto (m ∷ ms)) (sym shape) (here.0, here.1, others ns rest))
      ]

  -- A patch that succeeds sets exactly one of its two forms. It gives a manifest for each manifest,
  -- in order and with the same origin, and leaves those that its target does not match.
  pub apply_patch-PatchedInto :
      (ms out : List Manifest)
      → apply_patch spec ms ≡ ok out
      → (is_some spec.strategic_merge ≢ not_empty spec.json_patch) × PatchedInto ms out
  unfolding apply_patch
  apply_patch-PatchedInto ms out h =
      (ground arith, patch_manifests-PatchedInto ms out (ground arith))

  patch_manifest_unmatched :
      (m : Manifest) → matches m spec.target ≡ false → patch_manifest spec m ≡ ok m
  unfolding patch_manifest
  patch_manifest_unmatched m h = ground arith

  patch_manifests_unmatched :
      (ms : List Manifest)
      → All (λ m. matches m spec.target ≡ false) ms
      → patch_manifests spec ms ≡ ok ms
  unfolding patch_manifests
  patch_manifests_unmatched [] h = refl
  patch_manifests_unmatched (m ∷ ms) h =
      ground (arith, patch_manifest_unmatched m h.0, patch_manifests_unmatched ms h.1)

  -- A well-formed patch that matches nothing succeeds and changes nothing.
  pub apply_patch_unmatched :
      (ms : List Manifest)
      → is_some spec.strategic_merge ≢ not_empty spec.json_patch
      → All (λ m. matches m spec.target ≡ false) ms
      → apply_patch spec ms ≡ ok ms
  unfolding apply_patch
  apply_patch_unmatched ms one h = ground (arith, patch_manifests_unmatched ms h)
