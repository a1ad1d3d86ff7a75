-- ===== src/Tests/Delivering.antt =====
-- The theorems on the order, the identity and the appliers of resources, at concrete inputs.
use dual_deployment_operator.Base.{
  ◌≡◌, ◌==◌, ◌++◌, refl, ◌≢◌, String, Bool, true, false, List, [], ◌∷◌, Keeps, is_some,
}
use dual_deployment_operator.Json.{Fields, lookup, insert, delete, get_text, put_text}
use dual_deployment_operator.Api.{healthy, degraded}
use dual_deployment_operator.Manifest.{
  Manifest, is_cluster_scoped, strip_internal_annotations, set_owned_by_label,
}
use dual_deployment_operator.Deliver.Order.{
  sort_for_apply, manifest_from_status, status_identity_key, manifest_identity_key,
}
use dual_deployment_operator.Deliver.Order.Sequence.{
  of_kinds, rbac, crd, webhook, plain_kind, sort_for_apply-of_kinds,
}
use dual_deployment_operator.Deliver.Identity.{manifest_from_status-identity}
use dual_deployment_operator.Deliver.CaBundle.{prepare_for_apply}
use dual_deployment_operator.Deliver.Applier.{get_live, prepare, ssa_apply}
use dual_deployment_operator.Deliver.Applier.Prepared.{IsPrepared, prepare-IsPrepared}
use dual_deployment_operator.Deliver.Applier.Guard.{ssa_apply-Keeps, ssa_apply-conflict}
use dual_deployment_operator.Tests.Machinery.{demo, documented}
use dual_deployment_operator.Tests.World.{
  World, owned, shoot_ssa, seed_ssa, status_of, manifest_of, world_of, patch_shoot, refuses,
}

abbrev render : List Manifest
render = manifest_of "Deployment" "app" ∷ manifest_of "Namespace" "ns" ∷ []

sort_for_apply-of_kinds_example :
    sort_for_apply render
    ≡ of_kinds (λ kind. kind == "Namespace") render
      ++ of_kinds crd render
      ++ of_kinds rbac render
      ++ of_kinds plain_kind render
      ++ of_kinds webhook render
sort_for_apply-of_kinds_example = sort_for_apply-of_kinds render

manifest_from_status-identity_example :
    manifest_identity_key (manifest_from_status (status_of "Deployment" "app" healthy))
    ≡ status_identity_key (status_of "Deployment" "app" healthy)
manifest_from_status-identity_example =
    manifest_from_status-identity documented (status_of "Deployment" "app" healthy)

prepare-IsPrepared_example :
    IsPrepared "me" (prepare (manifest_of "ClusterRole" "reader") "me").unstructured
prepare-IsPrepared_example = prepare-IsPrepared documented (manifest_of "ClusterRole" "reader") "me"

-- The seed cluster is as it was.
abbrev SameSeed : List Fields → World → Type 0
SameSeed us w = w.seed ≡ us

patch_shoot-SameSeed : (b : Bool) (u : Fields) → Keeps (SameSeed []) (patch_shoot b u)
patch_shoot-SameSeed true u = record { at = λ w h. h }
patch_shoot-SameSeed false u = record { at = λ w h. h }

ssa_apply-Keeps_example :
    Keeps (SameSeed []) (ssa_apply shoot_ssa (manifest_of "ClusterRole" "reader") "me")
ssa_apply-Keeps_example =
    ssa_apply-Keeps (SameSeed []) shoot_ssa
      (record { get = λ gvk ns name. record { at = λ w h. h }; now = record { at = λ w h. h } })
      documented (manifest_of "ClusterRole" "reader") "me"
      λ u prepared. patch_shoot-SameSeed (refuses u) u

abbrev taken : World
taken = world_of (owned "ClusterRole" "reader" "other" ∷ []) []

abbrev other : String
other = "other"

other-nonempty : other ≢ ""
other-nonempty = λ e. cc

other-me : other ≢ "me"
other-me = λ e. cc

ssa_apply-conflict_example :
    ((ssa_apply seed_ssa (manifest_of "ClusterRole" "reader") "me" taken).0.status.health
      ≡ degraded)
    × (is_some (ssa_apply seed_ssa (manifest_of "ClusterRole" "reader") "me" taken).0.error ≡ true)
    × ((ssa_apply seed_ssa (manifest_of "ClusterRole" "reader") "me" taken).1 ≡ taken)
unfolding demo lookup insert delete get_live is_cluster_scoped prepare strip_internal_annotations
    set_owned_by_label prepare_for_apply get_text put_text
ssa_apply-conflict_example =
    ssa_apply-conflict seed_ssa (manifest_of "ClusterRole" "reader") "me" taken
      (owned "ClusterRole" "reader" "other") refl refl other-nonempty other-me
