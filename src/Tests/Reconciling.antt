-- ===== src/Tests/Reconciling.antt =====
-- The theorems on reconciliation and deletion, at concrete inputs.
use dual_deployment_operator.Base.{
  String, ◌≡◌, refl, ◌⊎◌, inr, some, List, [], ◌∷◌, Error, ok, err, plain, Keeps, ◌↔◌, Option, none,
}
use dual_deployment_operator.Json.{lookup, insert, delete, get_text, put_text}
use dual_deployment_operator.Api.{ResourceStatus, DualDeploymentOperator, healthy}
use dual_deployment_operator.Manifest.{
  Manifest, is_cluster_scoped, strip_internal_annotations, set_owned_by_label,
}
use dual_deployment_operator.Deliver.CaBundle.{prepare_for_apply}
use dual_deployment_operator.Deliver.Health.{compute_health}
use dual_deployment_operator.Deliver.Applier.{
  Applier, as_applier, ssa_apply, get_live, prepare, initial_status, guard, unless_refused,
  patch_and_read, read_back, graded,
}
use dual_deployment_operator.Controller.Reconciler.{
  Reconciler, event, build_shoot_applier_or_default,
}
use dual_deployment_operator.Controller.Conditions.{any_failed, compute_conditions, any_progressing}
use dual_deployment_operator.Controller.Delivery.{apply_loop, apply_all}
use dual_deployment_operator.Controller.Deletion.{tear_down}
use dual_deployment_operator.Controller.Deletion.Finalizer.{OthersKeep}
use dual_deployment_operator.Controller.Deletion.Release.{IsReleased}
use dual_deployment_operator.Controller.Deletion.Outcomes.{
  IsCleared, tear_down-kept, tear_down-IsReleased,
}
use dual_deployment_operator.Controller.Reconcile.{
  deliver_with, deliver_shoot_first, deliver_without_shoot, render_and_deliver, write_status,
}
use dual_deployment_operator.Controller.Render.{render_both, with_source}
use dual_deployment_operator.Controller.Reconcile.Gating.{
  deliver_without_shoot-Keeps, deliver_shoot_first-Keeps, render_and_deliver-failed,
}
use dual_deployment_operator.Deliver.Applier.Guard.{ssa_delete-Keeps}
use dual_deployment_operator.Library.{find_condition}
use dual_deployment_operator.Controller.Reconcile.Results.{ready_condition, write_status_iff}
use dual_deployment_operator.Tests.Machinery.{demo, documented}
use dual_deployment_operator.Tests.World.{
  World, seed_ssa, shoot_ssa, status_of, manifest_of, world_of, reconciler_with, resource_with,
}
use dual_deployment_operator.Tests.Controlling.{
  SameSeed, shoot_keeps, shoot_applier, patched_same, patched_shoot_same,
}
use dual_deployment_operator.Library.{GroupVersion}
use dual_deployment_operator.Deliver.Applier.Identified.{as_applier-Identifies}
use dual_deployment_operator.Controller.Reconcile.Inventory.{IsRecorded, deliver_with-IsRecorded}

abbrev no_secret : Error
no_secret = plain "shoot API unreachable"

abbrev installed : List ResourceStatus
installed = status_of "Deployment" "app" healthy ∷ []

abbrev resource : DualDeploymentOperator
resource = resource_with "ShootFirst" installed installed

abbrev reachable : Reconciler World
reachable = reconciler_with (err (plain "no source")) (ok shoot_applier)

abbrev unreachable : Reconciler World
unreachable = reconciler_with (err (plain "no source")) (err no_secret)

abbrev render : List Manifest
render = manifest_of "ConfigMap" "settings" ∷ manifest_of "Deployment" "broken" ∷ []

abbrev seed_render : List Manifest
seed_render = manifest_of "Deployment" "app" ∷ []

deliver_shoot_first-Keeps_example :
    (deliver_shoot_first reachable shoot_applier resource "me" seed_render render
      (world_of [] [])).1.seed
    ≡ []
unfolding demo lookup insert delete get_live is_cluster_scoped prepare strip_internal_annotations
    set_owned_by_label prepare_for_apply get_text put_text any_failed apply_all apply_loop
    as_applier ssa_apply initial_status guard unless_refused patch_and_read read_back graded
    compute_health
deliver_shoot_first-Keeps_example =
    deliver_shoot_first-Keeps (SameSeed []) reachable resource shoot_applier "me" seed_render render
      (world_of [] []) refl (shoot_keeps [] "me")
      (record { now = record { at = λ w h. h }; write = λ cr same. record { at = λ w h. h } }) refl

deliver_without_shoot-Keeps_example :
    Keeps (SameSeed []) (deliver_without_shoot unreachable resource "me" seed_render no_secret)
deliver_without_shoot-Keeps_example =
    deliver_without_shoot-Keeps (SameSeed []) unreachable resource "me" seed_render no_secret refl
      (record { now = record { at = λ w h. h }; write = λ cr same. record { at = λ w h. h } })

render_and_deliver-failed_example :
    ((render_and_deliver unreachable resource (world_of [] [])).1.seed ≡ [])
    × ((render_and_deliver unreachable resource (world_of [] [])).0.error
        ≡ some (plain "no source"))
unfolding render_both with_source
render_and_deliver-failed_example =
    render_and_deliver-failed (SameSeed []) unreachable resource (world_of [] []) "InvalidSource"
      (plain "no source") refl (record { at = λ w h. h }) (record { at = λ w h. h })
      (λ cr same. record { at = λ w h. h }) refl

-- The custom resource was not updated.
abbrev NoUpdate : World → Type 0
NoUpdate w = w.updates ≡ []

others_keep : (owned_by : String) → OthersKeep NoUpdate unreachable owned_by
unfolding event build_shoot_applier_or_default as_applier
others_keep owned_by = record {
  status = λ cr. record { at = λ w h. h };
  event = λ reason note. record { at = λ w h. h };
  build = λ cr. record { at = λ w h. h };
  seed = λ m.
      ssa_delete-Keeps NoUpdate seed_ssa
        (record { get = λ gvk ns name. record { at = λ w h. h }; now = record { at = λ w h. h } }) m
        owned_by (record { at = λ w h. h });
  shoot = λ cr w a built m. cc;
}

tear_down-kept_example :
    NoUpdate (tear_down unreachable resource (world_of [] [])).1 ⊎ IsCleared unreachable resource
tear_down-kept_example =
    tear_down-kept unreachable NoUpdate resource (world_of [] []) (others_keep _) refl

-- Both clusters delete whatever they are asked to.
abbrev emptied : World → World
emptied w = record w { seed = []; shoot = [] }

abbrev obedient : Applier World
obedient = record shoot_applier { delete = λ m owned_by w. (none, emptied w) }

abbrev willing : Reconciler World
willing = record reachable {
  seed_applier = obedient;
  shoot_applier_for = some (λ cr w. (ok obedient, w));
}

tear_down-IsReleased_example :
    IsReleased documented willing "garden" "demo" (tear_down willing resource (world_of [] []))
unfolding build_shoot_applier_or_default
tear_down-IsReleased_example =
    tear_down-IsReleased willing documented resource (world_of [] []) (record {
      seed = (inr (λ w. refl), tt);
      shoot = inr (inr (obedient, (λ w. refl), (inr (λ w. refl), tt)));
    })

abbrev no_failure : Option Error
no_failure = none

abbrev no_errors : List Error
no_errors = []

write_status_iff_example :
    (stored : DualDeploymentOperator) × (stored.status.seed_resources ≡ installed)
    × (stored.status.shoot_resources ≡ [])
    × (stored.status.last_reconcile ≡ some 7)
    × (find_condition "Ready" stored.status.conditions
        ≡ some (ready_condition resource installed []))
    × ((write_status reachable resource installed [] [] [] (world_of [] [])).1
        ≡ record { seed = []; shoot = []; updates = []; recorded = stored ∷ [] })
    × (((write_status reachable resource installed [] [] [] (world_of [] [])).0.error ≡ none)
        ↔ ((no_failure ≡ none) × (no_errors ≡ []) × Unit {0}))
    × ((write_status reachable resource installed [] [] [] (world_of [] [])).0.error ≡ none
        → (write_status reachable resource installed [] [] [] (world_of [] [])).0.requeue_after
          ≡ 600)
unfolding compute_conditions any_failed any_progressing
write_status_iff_example =
    write_status_iff documented reachable resource installed [] [] [] (world_of [] [])

abbrev version : String → String → GroupVersion
version kind name = record {
  group = "";
  version = demo.get_api_version (prepare (manifest_of kind name) "me").unstructured;
}

-- The shoot refuses one object, and its whole render is in its inventory all the same.
deliver_with-IsRecorded_example :
    IsRecorded reachable shoot_applier resource "me" seed_render render
      (deliver_with reachable resource "me" seed_render render (ok shoot_applier) (world_of [] []))
unfolding demo
deliver_with-IsRecorded_example =
    deliver_with-IsRecorded reachable shoot_applier resource "me" seed_render render
      (world_of [] [])
      (as_applier-Identifies seed_ssa documented "me" seed_render patched_same
        ((version "Deployment" "app", refl), tt))
      (as_applier-Identifies shoot_ssa documented "me" render patched_shoot_same
        ((version "ConfigMap" "settings", refl), ((version "Deployment" "broken", refl), tt)))
