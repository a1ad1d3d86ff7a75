-- ===== src/Transform/FilterKinds/Survivors.antt =====
-- What a filter leaves.
use dual_deployment_operator.Base.{
  In-keep_iff, ◌≡◌, refl, ◌↔◌, ◌⊎◌, String, true, List, [], ◌∷◌, eq_iff, arith, not, one_of, keep,
  ok, In,
}
use dual_deployment_operator.Library.{Library}
use dual_deployment_operator.Api.{FilterKindsSpec}
use dual_deployment_operator.Manifest.{Manifest}
use dual_deployment_operator.Transform.FilterKinds.{is_dropped, filter_kinds}

one_of_iff : (ts : List String) (s : String) → (one_of ts s ≡ true) ↔ In s ts
one_of_iff [] s = ground arith
one_of_iff (t ∷ ts) s = ground (arith, eq_iff s t, one_of_iff ts s)

module _ ⦃k : Library⦄ where
  -- A filter never fails. A manifest is left if and only if it was there and either its kind is not
  -- listed, or an origin is asked for and the manifest has another one.
  pub filter_kinds-survivors :
      (spec : FilterKindsSpec) (ms : List Manifest) (m : Manifest)
      → (out : List Manifest) × (filter_kinds spec ms ≡ ok out)
        × (In m out ↔ (
            In m ms
            × ((In (k.get_kind m.unstructured) spec.kinds → ⊥)
                ⊎ ((spec.source ≡ "" → ⊥) × (m.origin ≡ spec.source → ⊥)))))
  unfolding filter_kinds is_dropped
  filter_kinds-survivors spec ms m = (
    keep (λ x. not (is_dropped spec x)) ms,
    refl,
    ground (
      arith,
      In-keep_iff (λ x. not (is_dropped spec x)) ms m,
      one_of_iff spec.kinds (k.get_kind m.unstructured),
      eq_iff spec.source "",
      eq_iff m.origin spec.source,
    ),
  )
