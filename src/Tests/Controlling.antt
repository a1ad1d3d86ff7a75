-- ===== src/Tests/Controlling.antt =====
-- The theorems on the reconciler, at concrete inputs.
use dual_deployment_operator.Base.{
  ◌≡◌, ◌↔◌, String, Bool, true, false, List, [], ◌∷◌, Keeps, none, ok, refl, ap, sym, arith,
}
use dual_deployment_operator.Json.{Fields}
use dual_deployment_operator.Api.{
  ResourceStatus, DualDeploymentOperator, healthy, degraded, condition_true,
}
use dual_deployment_operator.Manifest.{Manifest}
use dual_deployment_operator.Deliver.Order.{manifest_from_status, manifest_identity_key}
use dual_deployment_operator.Deliver.Applier.{Applier, as_applier, prepare, ssa_apply, ssa_delete}
use dual_deployment_operator.Controller.Conditions.{compute_conditions}
use dual_deployment_operator.Controller.Conditions.Ready.{AllHealthy, ready_iff}
use dual_deployment_operator.Controller.Prune.{prune, prune_loop}
use dual_deployment_operator.Controller.Delivery.{apply_all}
use dual_deployment_operator.Controller.Prune.Settled.{prune_unchanged}
use dual_deployment_operator.Deliver.Applier.Identified.{ReturnsSame}
use dual_deployment_operator.Controller.Prune.Safety.{
  IsAccounted, prune-Keeps, prune_loop-IsAccounted,
}
use dual_deployment_operator.Deliver.Applier.Guard.{ApplierKeeps}
use dual_deployment_operator.Deliver.Applier.Guard.{ReadsKeep, ssa_apply-Keeps, ssa_delete-Keeps}
use dual_deployment_operator.Tests.Machinery.{demo, documented}
use dual_deployment_operator.Tests.World.{
  World, owned, seed_ssa, shoot_ssa, shoot_client, status_of, manifest_of, world_of, patch_shoot,
  refuses, resource_with,
}

abbrev one_healthy : List ResourceStatus
one_healthy = status_of "Deployment" "app" healthy ∷ []

abbrev one_degraded : List ResourceStatus
one_degraded = status_of "Deployment" "broken" degraded ∷ []

ready_iff_example :
    ((compute_conditions one_healthy one_degraded).status ≡ condition_true)
    ↔ (AllHealthy one_healthy × AllHealthy one_degraded)
ready_iff_example = ready_iff one_healthy one_degraded

abbrev pub shoot_applier : Applier World
shoot_applier = as_applier shoot_ssa

-- The seed cluster is as it was.
abbrev pub SameSeed : List Fields → World → Type 0
SameSeed us w = w.seed ≡ us

patch_shoot-SameSeed :
    (us : List Fields) (b : Bool) (u : Fields) → Keeps (SameSeed us) (patch_shoot b u)
patch_shoot-SameSeed us true u = record { at = λ w h. h }
patch_shoot-SameSeed us false u = record { at = λ w h. h }

shoot_reads : (us : List Fields) → ReadsKeep (SameSeed us) shoot_client
shoot_reads us = record {
  get = λ gvk ns name. record { at = λ w h. h };
  now = record { at = λ w h. h };
}

shoot_applies :
    (us : List Fields) (m : Manifest) (owned_by : String)
    → Keeps (SameSeed us) (ssa_apply shoot_ssa m owned_by)
shoot_applies us m owned_by =
    ssa_apply-Keeps (SameSeed us) shoot_ssa (shoot_reads us) documented m owned_by
      λ u prepared. patch_shoot-SameSeed us (refuses u) u

pub shoot_deletes :
    (us : List Fields) (m : Manifest) (owned_by : String)
    → Keeps (SameSeed us) (ssa_delete shoot_ssa m owned_by)
shoot_deletes us m owned_by =
    ssa_delete-Keeps (SameSeed us) shoot_ssa (shoot_reads us) m owned_by (record { at = λ w h. h })

pub shoot_keeps :
    (us : List Fields) (owned_by : String) → ApplierKeeps (SameSeed us) owned_by shoot_applier
unfolding as_applier
shoot_keeps us owned_by = record {
  apply = λ m. shoot_applies us m owned_by;
  delete = λ m. shoot_deletes us m owned_by;
  get = λ m. record { at = λ w h. h };
}

abbrev installed : List ResourceStatus
installed = status_of "Deployment" "app" healthy ∷ status_of "ClusterRole" "reader" healthy ∷ []

abbrev resource : DualDeploymentOperator
resource = resource_with "ShootFirst" installed installed

prune-Keeps_example :
    Keeps
      (SameSeed [])
      (prune shoot_applier installed (manifest_of "Deployment" "app" ∷ []) resource "me")
prune-Keeps_example =
    prune-Keeps (SameSeed []) shoot_applier installed (manifest_of "Deployment" "app" ∷ []) resource
      "me"
      (
        (λ orphan. record {
          get =
              (shoot_keeps [] "me").get
                (manifest_from_status (status_of "Deployment" "app" healthy));
          delete =
              (shoot_keeps [] "me").delete
                (manifest_from_status (status_of "Deployment" "app" healthy));
        }),
        (
          (λ orphan. record {
            get =
                (shoot_keeps [] "me").get
                  (manifest_from_status (status_of "ClusterRole" "reader" healthy));
            delete =
                (shoot_keeps [] "me").delete
                  (manifest_from_status (status_of "ClusterRole" "reader" healthy));
          }),
          tt,
        ),
      )

prune_loop-IsAccounted_example :
    IsAccounted shoot_applier [] resource "me" installed
      (prune_loop shoot_applier [] resource "me" installed (world_of [] [])).0
prune_loop-IsAccounted_example =
    prune_loop-IsAccounted shoot_applier [] resource "me" installed (world_of [] [])

abbrev deployment : List Manifest
deployment = manifest_of "Deployment" "app" ∷ []

pub patched_same : ReturnsSame seed_ssa
patched_same m s u h =
    let same : m.unstructured ≡ u = ground (arith, h) in
    ap (λ u'. manifest_identity_key (record m { unstructured = u' })) (sym same)

-- Applied once to an empty seed, and once more to a seed that has other objects.
prune_unchanged_example :
    prune
      (as_applier seed_ssa)
      (apply_all (as_applier seed_ssa) deployment "me" (world_of [] [])).0.statuses
      (apply_all
        (as_applier seed_ssa)
        deployment
        "me"
        (world_of (owned "Job" "job" "you" ∷ []) [])).0.manifests
      resource
      "me"
      (world_of [] [])
    ≡ (record { retained = []; error = none }, world_of [] [])
unfolding demo
prune_unchanged_example =
    prune_unchanged seed_ssa documented patched_same "me" deployment resource (world_of [] [])
      (world_of (owned "Job" "job" "you" ∷ []) []) (world_of [] [])
      (
        (
          record {
            group = "";
            version =
                demo.get_api_version (prepare (manifest_of "Deployment" "app") "me").unstructured;
          },
          refl,
        ),
        tt,
      )

patched_shoot : (b : Bool) (u u' : Fields) (w : World) → (patch_shoot b u w).0 ≡ ok u' → u ≡ u'
patched_shoot true u u' w h = absurd (ground (arith, h))
patched_shoot false u u' w h = ground (arith, h)

pub patched_shoot_same : ReturnsSame shoot_ssa
patched_shoot_same m w u h =
    let same : m.unstructured ≡ u = patched_shoot (refuses m.unstructured) m.unstructured u w h in
    ap (λ u'. manifest_identity_key (record m { unstructured = u' })) (sym same)
