-- ===== src/Tests/Completing.antt =====
-- The theorem on complete deliveries, at a concrete input. The world is a list of what was patched.
use dual_deployment_operator.Base.{
  ◌≡◌, ◌⊎◌, refl, String, true, none, some, List, [], ◌∷◌, ok, err, not_found, plain, one_of,
  concat, arith, subst, eq_refl,
}
use dual_deployment_operator.Json.{Fields}
use dual_deployment_operator.Api.{DualDeploymentOperator}
use dual_deployment_operator.Manifest.{
  Manifest, is_cluster_scoped, set_owned_by_label, strip_internal_annotations,
}
use dual_deployment_operator.Deliver.CaBundle.{prepare_for_apply}
use dual_deployment_operator.Deliver.Applier.{
  Applier, Client, SsaApplier, prepare, as_applier, ssa_get, get_live,
}
use dual_deployment_operator.Deliver.Applier.Guard.{
  ApplierKeeps, ReadsKeep, ssa_apply-Keeps, ssa_delete-Keeps,
}
use dual_deployment_operator.Controller.Reconciler.{
  Reconciler, event, build_shoot_applier_or_default,
}
use dual_deployment_operator.Controller.Conditions.{any_failed}
use dual_deployment_operator.Controller.Delivery.{apply_all}
use dual_deployment_operator.Controller.Delivery.Complete.{as_applier-Applies}
use dual_deployment_operator.Controller.Prune.{prune}
use dual_deployment_operator.Deliver.Order.{sort_status_for_delete}
use dual_deployment_operator.Controller.Render.{render_both, with_source}
use dual_deployment_operator.Controller.Reconcile.{is_shoot_first, deliver_with}
use dual_deployment_operator.Controller.Reconcile.Calls.{CallsKeep}
use dual_deployment_operator.Controller.Reconcile.Complete.{
  Delivers, BothApplied, deliver_with-BothApplied,
}
use dual_deployment_operator.Tests.Machinery.{demo, documented}
use dual_deployment_operator.Tests.World.{resource_with, manifest_of}

abbrev Patched : Type 0
Patched = List String

abbrev place : String → Fields → String
place cluster u = concat (cluster ∷ "/" ∷ demo.get_name u ∷ [])

abbrev client_of : String → Client Patched
client_of cluster = record {
  get = λ gvk ns name w. (err (record { kind = not_found; message = "no object" }), w);
  patch = λ u manager w. (ok u, place cluster u ∷ w);
  delete = λ u w. (none, w);
  now = λ w. (7, w);
}

abbrev ssa_of : String → SsaApplier Patched
ssa_of cluster = record { client = client_of cluster; field_manager = "manager"; cluster = cluster }

abbrev reconciler : Reconciler Patched
reconciler = record {
  get_cr = λ ns name w. (err (plain "no object"), w);
  get_secret = λ ns name w. (err (plain "no secret"), w);
  update = λ cr w. (none, w);
  update_status = λ cr w. (none, w);
  new_client = λ config w. (ok (client_of "shoot"), w);
  eventf = none;
  seed_applier = as_applier (ssa_of "seed");
  source_from = λ spec ns. err (plain "no source");
  shoot_applier_for = some (λ cr w. (ok (as_applier (ssa_of "shoot")), w));
  now = λ w. (7, w);
}

abbrev IsPatched : String → Patched → Type 0
IsPatched at w = one_of w at ≡ true

abbrev On : String → Manifest → Patched → Type 0
On cluster m = IsPatched (place cluster (prepare m "me").unstructured)

stays : (at other : String) (w : Patched) → IsPatched at w → IsPatched at (other ∷ w)
stays at other w p = ground (arith, p)

own : (at : String) (w : Patched) → IsPatched at (at ∷ w)
own at w = ground (arith, eq_refl at)

reads : (at cluster : String) → ReadsKeep (IsPatched at) (client_of cluster)
reads at cluster = record {
  get = λ gvk ns name. record { at = λ w p. p };
  now = record { at = λ w p. p };
}

kept_by : (at cluster : String) → ApplierKeeps (IsPatched at) "me" (as_applier (ssa_of cluster))
unfolding as_applier ssa_get get_live
kept_by at cluster = record {
  apply = λ m.
      ssa_apply-Keeps (IsPatched at) (ssa_of cluster) (reads at cluster) documented m "me"
        λ u prepared. record { at = λ w p. stays at (place cluster u) w p };
  delete = λ m.
      ssa_delete-Keeps (IsPatched at) (ssa_of cluster) (reads at cluster) m "me"
        (record { at = λ w p. p });
  get = λ m. record { at = λ w p. p };
}

calls_keep : (at : String) → CallsKeep (IsPatched at) reconciler "me"
unfolding event build_shoot_applier_or_default render_both with_source
calls_keep at = record {
  update = λ cr. record { at = λ w p. p };
  status = λ cr. record { at = λ w p. p };
  now = record { at = λ w p. p };
  event = λ reason note. record { at = λ w p. p };
  build = λ cr. record { at = λ w p. p };
  render = λ cr. record { at = λ w p. p };
  seed = kept_by at "seed";
  shoot =
      λ cr w a built. subst (ApplierKeeps (IsPatched at) "me") (same a built) (kept_by at "shoot");
}
  where
    same :
        (a : Applier Patched)
        → ok (as_applier (ssa_of "shoot")) ≡ ok a
        → as_applier (ssa_of "shoot") ≡ a
    same a h = ground (arith, h)

abbrev cr : DualDeploymentOperator
cr = resource_with "SeedFirst" [] []

abbrev role : List Manifest
role = manifest_of "ClusterRole" "reader" ∷ manifest_of "Role" "writer" ∷ []

abbrev app : List Manifest
app = manifest_of "Deployment" "app" ∷ []

shown :
    (cluster : String) (u : Fields) (w : Patched) (v : Fields)
    → ok u ≡ ok v
    → IsPatched (place cluster u) (place cluster u ∷ w)
shown cluster u w v h = own (place cluster u) w

delivers : Delivers reconciler (as_applier (ssa_of "shoot")) "me" (On "seed") (On "shoot")
delivers = record {
  seed_applies =
      as_applier-Applies (λ u. IsPatched (place "seed" u)) (ssa_of "seed")
        (λ u. reads (place "seed" u) "seed") (shown "seed") "me";
  shoot_applies =
      as_applier-Applies (λ u. IsPatched (place "shoot" u)) (ssa_of "shoot")
        (λ u. reads (place "shoot" u) "shoot") (shown "shoot") "me";
  seed_kept = λ m. calls_keep (place "seed" (prepare m "me").unstructured);
  shoot_kept = λ m. calls_keep (place "shoot" (prepare m "me").unstructured);
  seed_by_shoot = λ m. kept_by (place "seed" (prepare m "me").unstructured) "shoot";
  shoot_by_shoot = λ m. kept_by (place "shoot" (prepare m "me").unstructured) "shoot";
}

deliver_with-BothApplied_example :
    BothApplied
      (On "seed")
      (On "shoot")
      role
      app
      (deliver_with reconciler cr "me" role app (ok (as_applier (ssa_of "shoot"))) []).1
    ⊎ ((is_shoot_first cr ≡ true)
        × (any_failed (apply_all (as_applier (ssa_of "shoot")) app "me" []).0.statuses ≡ true))
unfolding deliver_with demo apply_all as_applier is_cluster_scoped prepare_for_apply
    set_owned_by_label strip_internal_annotations prune sort_status_for_delete
deliver_with-BothApplied_example =
    deliver_with-BothApplied documented reconciler (as_applier (ssa_of "shoot")) cr "me" (On "seed")
      (On "shoot") delivers role app [] refl
