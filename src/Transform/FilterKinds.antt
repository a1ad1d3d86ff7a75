-- ===== src/Transform/FilterKinds.antt =====
-- internal/transform/filter_kinds.go
pub mod Survivors
use dual_deployment_operator.Base.{
  String, Bool, List, ◌==◌, ◌&&◌, ◌||◌, not, one_of, keep, Result, ok,
}
use dual_deployment_operator.Library.{Library}
use dual_deployment_operator.Api.{FilterKindsSpec}
use dual_deployment_operator.Manifest.{Manifest}

module _ ⦃k : Library⦄ where
  open k use {get_kind}

  -- The test of the loop: the kind is listed, and the origin is the one asked for, if any.
  unfoldable pub is_dropped : FilterKindsSpec → Manifest → Bool
  is_dropped spec m =
      one_of spec.kinds (get_kind m.unstructured) && (spec.source == "" || m.origin == spec.source)

  unfoldable pub filter_kinds : FilterKindsSpec → List Manifest → Result (List Manifest)
  unfolding is_dropped
  filter_kinds spec ms = ok (keep (λ m. not (is_dropped spec m)) ms)
