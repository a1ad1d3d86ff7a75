-- ===== src/Tests/Running.antt =====
-- An operator over two clusters, and the theorems on its runs.
use dual_deployment_operator.Base.{
  ◌≡◌, ◌⊎◌, refl, sym, ◌∙◌, String, none, some, [], ◌∷◌, ok, Keeps, subst, arith,
}
use dual_deployment_operator.Json.{Fields, lookup}
use dual_deployment_operator.Api.{DualDeploymentOperator}
use dual_deployment_operator.Manifest.{owned_by_value}
use dual_deployment_operator.Deliver.Applier.{SsaApplier, as_applier, owner_of}
use dual_deployment_operator.Deliver.Applier.Store.{Holds}
use dual_deployment_operator.Controller.Reconciler.{Reconciler, Mode, Source, event}
use dual_deployment_operator.Controller.Deletion.{reconcile_delete}
use dual_deployment_operator.Controller.Reconcile.{reconcile}
use dual_deployment_operator.Controller.Runs.{reconciled, Reach, here, next}
use dual_deployment_operator.Controller.Runs.Foreign.{IsDeployed, IsScoped, calls-Holds}
use dual_deployment_operator.Controller.Reconcile.Guarded.{IsGuarded, reconcile-IsGuarded}
use dual_deployment_operator.Controller.Reconcile.Whole.{CallsKeepFor, reconcile-Keeps}
use dual_deployment_operator.Controller.Runs.Untouched.{reconcile_delete-Holds, Reach-Holds}
use dual_deployment_operator.Tests.Machinery.{demo, documented}
use dual_deployment_operator.Tests.World.{manifest_of}
use dual_deployment_operator.Tests.Clusters.{
  find, key, client_of, stores, scoped_of, named, made, asked_for, apps, start, foreign, claimed,
}

abbrev seed_ssa : SsaApplier Fields
seed_ssa = record { client = client_of "c" "n"; field_manager = "manager"; cluster = "seed" }

-- Each render has a namespace that another custom resource owns, and a Deployment.
abbrev source : Source Fields
source = record {
  render =
      λ mode ns w. (ok (manifest_of "Namespace" "apps" ∷ manifest_of "Deployment" "app" ∷ []), w);
}

abbrev operator : Reconciler Fields
operator = record {
  get_cr = λ ns name w. (ok (named ns name), w);
  get_secret = λ ns name w. (ok (("token", "secret") ∷ ("bundle.crt", "ca") ∷ []), w);
  update = λ cr w. (none, w);
  update_status = λ cr w. (none, w);
  new_client = λ config w. (ok (client_of "s" "t"), w);
  eventf = none;
  seed_applier = as_applier seed_ssa;
  source_from = λ spec ns. ok source;
  shoot_applier_for = none;
  now = λ w. (7, w);
}

renders :
    (src : Source Fields)
    → ok source ≡ ok src
    → (mode : Mode) (ns : String) (w : Fields) → find (src.render mode ns w).1 key ≡ find w key
renders src same mode ns w =
    let same_source : source ≡ src = ground (arith, same) in
    subst (λ (src' : Source Fields). find (src'.render mode ns w).1 key ≡ find w key) same_source
      refl

unfoldable deployed : IsDeployed ⦃k = demo⦄ find key operator
unfolding event
deployed = record {
  seed = seed_ssa;
  is_seed = refl;
  from_secret = refl;
  seed_stores = stores "c" "n";
  shoot_stores = λ config w c same. (made c same).0;
  asked = λ ns name w cr got. asked_for (named ns name) cr got;
  get_cr = λ ns name w. refl;
  get_secret = λ ns name w. refl;
  update = λ cr w. refl;
  update_status = λ cr w. refl;
  new_client = λ config w. refl;
  recorded = λ reason note w. refl;
  render = λ spec ns src same mode to. renders src same mode to;
  now = λ w. refl;
}

scoped : IsScoped ⦃k = demo⦄ find key operator deployed
unfolding deployed
scoped = record { seed = scoped_of "c" "n" refl; shoot = λ config w c same. (made c same).1 }

abbrev after : Fields → Fields
after w = (reconcile ⦃k = demo⦄ operator "garden" "demo" w).1

reconcile_delete-Holds_example :
    Keeps
      (Holds ⦃k = demo⦄ find key apps)
      (reconcile_delete ⦃k = demo⦄ operator (named "garden" "demo"))
reconcile_delete-Holds_example =
    reconcile_delete-Holds ⦃k = demo⦄ find key operator deployed apps (named "garden" "demo")
      foreign

twice : Reach ⦃k = demo⦄ operator find key (owner_of ⦃k = demo⦄ apps) start (after (after start))
twice =
    next (next here (reconciled "garden" "demo" start (λ e. foreign (sym e))))
      (reconciled "garden" "demo" (after start) (λ e. foreign (sym e)))

Reach-Holds_example : find (after (after start)) key ≡ some apps
unfolding lookup
Reach-Holds_example =
    Reach-Holds ⦃k = demo⦄ find key operator deployed apps claimed scoped twice refl

calls_for :
    (cr : DualDeploymentOperator)
    → owned_by_value ⦃k = demo⦄ cr.namespace cr.name ≡ owned_by_value ⦃k = demo⦄ "garden" "demo"
    → CallsKeepFor ⦃k = demo⦄ (Holds ⦃k = demo⦄ find key apps) operator cr
calls_for cr same =
    calls-Holds ⦃k = demo⦄ find key operator deployed apps _ (λ e. foreign (e ∙ same)) claimed
      scoped

reconcile-Keeps_example :
    Keeps (Holds ⦃k = demo⦄ find key apps) (reconcile ⦃k = demo⦄ operator "garden" "demo")
reconcile-Keeps_example =
    reconcile-Keeps ⦃k = demo⦄ (Holds ⦃k = demo⦄ find key apps) operator "garden" "demo"
      (record { at = λ w p. p })
      (λ w cr got. calls_for cr (asked_for (named "garden" "demo") cr got))

-- The custom resource has no finalizer yet.
abbrev fresh : Reconciler Fields
fresh = record operator {
  get_cr = λ ns name w. (ok (record (named ns name) { finalizers = [] }), w);
}

reconcile-IsGuarded_example :
    (find (reconcile ⦃k = demo⦄ fresh "garden" "demo" start).1 key ≡ some apps)
    ⊎ IsGuarded ⦃k = demo⦄ documented (Holds ⦃k = demo⦄ find key apps) fresh "garden" "demo" start
unfolding lookup
reconcile-IsGuarded_example =
    reconcile-IsGuarded ⦃k = demo⦄ documented (Holds ⦃k = demo⦄ find key apps) fresh "garden" "demo"
      start (record { at = λ w p. p }) (λ cr added. record { at = λ w p. p }) refl
