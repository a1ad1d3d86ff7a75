-- ===== src/Tests/Operating.antt =====
-- The operator that main makes over two clusters, and the theorem on its runs.
use dual_deployment_operator.Base.{◌≡◌, refl, sym, String, none, some, [], ◌∷◌, ok, err, plain}
use dual_deployment_operator.Json.{Fields, lookup}
use dual_deployment_operator.Api.{DualDeploymentOperator, HelmSource}
use dual_deployment_operator.Deliver.Applier.{owner_of}
use dual_deployment_operator.Controller.Reconciler.{Reconciler}
use dual_deployment_operator.Controller.Reconcile.{reconcile}
use dual_deployment_operator.Controller.Runs.{reconciled, Reach, here, next}
use dual_deployment_operator.Source.Cache.{render_cache_or_none}
use dual_deployment_operator.Source.Select.{Calls}
use dual_deployment_operator.Startup.Options.{default_flags}
use dual_deployment_operator.Startup.{Host, Manager, reconciler_of}
use dual_deployment_operator.Startup.Operator.{IsAt, IsHosted, reconciler_of-Holds}
use dual_deployment_operator.Tests.Machinery.{demo}
use dual_deployment_operator.Tests.Calls.{Url, calls_over, calls_over-LibrariesKeep}
use dual_deployment_operator.Tests.Clusters.{
  find, key, client_of, stores, scoped_of, named, made, asked_for, apps, start, foreign, claimed,
}

-- The libraries leave the clusters alone.
abbrev quiet : Calls Fields String String String String Url String String String String
quiet = calls_over (λ call w. w)

abbrev chart : HelmSource
chart = record {
  repo = "oci://registry";
  name = "app";
  version = "1.0.0";
  values = none;
  seed_values = none;
  shoot_values = none;
  auth_secret_ref = none;
}

abbrev deployed_as : String → String → DualDeploymentOperator
deployed_as ns name = record (named ns name) {
  spec = record ((named ns name).spec) { source = record { helm = some chart; kustomize = none } };
}

abbrev host : Host Fields String
host = record {
  getenv = λ name. "";
  get_config = λ w. (ok "in-cluster", w);
  new_manager = λ config o w. (err (plain "no manager"), w);
  new_client = λ config w. (ok (client_of "s" "t"), w);
  new_lru = λ size. ok (record { get = λ key w. (none, w); add = λ key ms w. (tt, w) });
  now = λ w. (7, w);
}

abbrev manager : Manager Fields
manager = record {
  client = record {
    get_cr = λ ns name w. (ok (deployed_as ns name), w);
    get_secret = λ ns name w. (ok (("token", "secret") ∷ ("bundle.crt", "ca") ∷ []), w);
    update = λ cr w. (none, w);
    update_status = λ cr w. (none, w);
    objects = client_of "c" "n";
  };
  event_recorder = λ name reason note w. (tt, w);
  complete_controller = λ name r w. (none, w);
  complete_webhook = λ v w. (none, w);
  add_healthz_check = λ name w. (none, w);
  add_readyz_check = λ name w. (none, w);
  start = λ w. (none, w);
}

abbrev operator : Reconciler Fields
operator = reconciler_of ⦃k = demo⦄ host quiet default_flags manager

unfoldable hosted : IsHosted ⦃k = demo⦄ find key host quiet manager
unfolding render_cache_or_none
hosted = record {
  seed_stores = stores "c" "n";
  shoot_stores = λ config w c same. (made c same).0;
  asked = λ ns name w cr got. asked_for (deployed_as ns name) cr got;
  get_cr = λ ns name w. refl;
  get_secret = λ ns name w. refl;
  update = λ cr w. refl;
  update_status = λ cr w. refl;
  new_client = λ config w. refl;
  recorded = λ name reason note w. refl;
  now = λ w. refl;
  libraries = λ v. calls_over-LibrariesKeep (λ call w. w) (IsAt find key v) (λ call w other p. p);
  cache = λ v. (λ stored. record { at = λ w p. p }, λ stored ms. record { at = λ w p. p });
}

abbrev after : Fields → Fields
after w = (reconcile ⦃k = demo⦄ operator "garden" "demo" w).1

twice : Reach ⦃k = demo⦄ operator find key (owner_of ⦃k = demo⦄ apps) start (after (after start))
twice =
    next (next here (reconciled "garden" "demo" start (λ e. foreign (sym e))))
      (reconciled "garden" "demo" (after start) (λ e. foreign (sym e)))

reconciler_of-Holds_example : find (after (after start)) key ≡ some apps
unfolding hosted lookup
reconciler_of-Holds_example =
    reconciler_of-Holds ⦃k = demo⦄ find key host quiet manager default_flags hosted apps claimed
      (scoped_of "c" "n" refl) (λ config w c same. (made c same).1) twice refl
