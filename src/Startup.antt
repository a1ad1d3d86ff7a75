-- ===== src/Startup.antt =====
-- cmd/main.go: the process is set up and started. The constructors of the fetchers and the set-up of
-- the controller, which main calls, are here too. `S` is the world that all calls act on.
pub mod Options
pub mod Serving
pub mod Started
pub mod Operator
use dual_deployment_operator.Base.{
  ℕ, ℤ, String, Option, none, some, ◌==◌, if◌then◌else◌, Error, Result, ok, err, M, pure, ◌>>=◌,
}
use dual_deployment_operator.Json.{StringMap}
use dual_deployment_operator.Library.{Library}
use dual_deployment_operator.Api.{DualDeploymentOperator, SourceSpec}
use dual_deployment_operator.Clients.{RestConfig}
use dual_deployment_operator.Deliver.Applier.{Client, as_applier}
use dual_deployment_operator.Controller.Reconciler.{Reconciler, Source, field_manager_name}
use dual_deployment_operator.Source.Cache.{Lru, render_cache_or_none}
use dual_deployment_operator.Source.Url.{Resolve}
use dual_deployment_operator.Source.Loader.{HelmLoader}
use dual_deployment_operator.Source.Select.{
  ChartLoader, helm_loader, RootResolver, git_resolver, Deps, Calls, source_from,
}
use dual_deployment_operator.Webhook.{Validator, setup_webhook_with_manager}
use dual_deployment_operator.Startup.Options.{Flags, ManagerOptions, manager_options}

-- How the process ends: main returns, or os.Exit.
pub data Exit : Type 0 where
  returned : Exit
  exited : ℕ → Exit

-- The manager's API client: the calls on custom resources and Secrets, and those on any objects.
pub record ApiClient (S : Type 0) : Type 0 where
  pub get_cr : String → String → M S (Result DualDeploymentOperator)
  pub get_secret : String → String → M S (Result StringMap)
  pub update : DualDeploymentOperator → M S (Option Error)
  pub update_status : DualDeploymentOperator → M S (Option Error)
  pub objects : Client S

-- A manager. `complete_controller` is its builder of controllers for the custom resources under a
-- name, and `complete_webhook` that of their webhooks, up to Complete. The checks are `healthz.Ping`.
pub record Manager (S : Type 0) : Type 0 where
  pub client : ApiClient S
  pub event_recorder : String → String → String → M S (Unit {0})
  pub complete_controller : String → Reconciler S → M S (Option Error)
  pub complete_webhook : Validator S → M S (Option Error)
  pub add_healthz_check : String → M S (Option Error)
  pub add_readyz_check : String → M S (Option Error)
  pub start : M S (Option Error)

-- What main takes from outside: the environment, the REST configuration, the manager, the clients of
-- shoots, the LRU cache and the clock.
pub record Host (S Config : Type 0) : Type 0 where
  pub getenv : String → String
  pub get_config : M S (Result Config)
  pub new_manager : Config → ManagerOptions → M S (Result (Manager S))
  pub new_client : RestConfig → M S (Result (Client S))
  pub new_lru : ℤ → Result (Lru S)
  pub now : M S ℕ

module _ {S H : Type 0} where
  -- newHelmLoader; the settings are the environment's.
  abbrev pub loader_with : Resolve S → HelmLoader S H
  loader_with resolve = record { resolve = resolve; http_client = none; scratch_dir = "" }

module _ {S H Chart : Type 0} where
  unfoldable pub new_helm_loader : String → ChartLoader S H Chart
  new_helm_loader scratch_dir =
      helm_loader (record (loader_with none) { scratch_dir = scratch_dir })

module _ {S : Type 0} where
  abbrev pub new_git_resolver : RootResolver S
  new_git_resolver = git_resolver none

  -- SetupWithManager
  unfoldable pub setup_with_manager : Reconciler S → Manager S → M S (Option Error)
  setup_with_manager r mgr = mgr.complete_controller "dualdeploymentoperator" r

  -- What follows a step, unless that has failed.
  unfoldable pub or_exit : Option Error → M S Exit → M S Exit
  or_exit none rest = rest
  or_exit (some e) rest = pure (exited 1)

module _ {S Config H Client File Chart Url Repo Remote Worktree Tree : Type 0} ⦃k : Library⦄
    (host : Host S Config) (calls : Calls S H Client File Chart Url Repo Remote Worktree Tree)
    (flags : Flags) where
  unfoldable pub source_deps : Deps S H Chart
  unfolding new_helm_loader render_cache_or_none
  source_deps = record {
    chart_loader = some (new_helm_loader flags.source_scratch_dir);
    root_resolver = some new_git_resolver;
    credential_resolver = none;
    render_cache = render_cache_or_none host.new_lru;
  }

  -- The sources that Reconcile makes of these: with the credentials of a namespace.
  unfoldable pub source_for : ApiClient S → SourceSpec → String → Result (Source S)
  unfolding source_deps
  source_for client spec cr_namespace = source_from calls spec (record source_deps {
    credential_resolver =
        some (record { get_secret = client.get_secret; namespace = cr_namespace });
  })

  -- The reconciler that main makes, whose calls are those of the manager's client.
  unfoldable pub reconciler_of : Manager S → Reconciler S
  unfolding source_for as_applier
  reconciler_of mgr = record {
    get_cr = mgr.client.get_cr;
    get_secret = mgr.client.get_secret;
    update = mgr.client.update;
    update_status = mgr.client.update_status;
    new_client = host.new_client;
    eventf = some (mgr.event_recorder "dual-deployment-operator");
    seed_applier = as_applier (record {
      client = mgr.client.objects;
      field_manager = field_manager_name;
      cluster = "seed";
    });
    source_from = source_for mgr.client;
    shoot_applier_for = none;
    now = host.now;
  }

  unfoldable pub start : Manager S → M S Exit
  start mgr = do failure ← mgr.start; or_exit failure (pure returned)

  unfoldable pub add_checks : Manager S → M S Exit
  unfolding start or_exit
  add_checks mgr = do
    unhealthy ← mgr.add_healthz_check "healthz"
    or_exit unhealthy do unready ← mgr.add_readyz_check "readyz"; or_exit unready (start mgr)

  -- The webhook is set up unless the environment says false.
  unfoldable pub setup_webhook : Manager S → M S (Option Error)
  unfolding setup_webhook_with_manager
  setup_webhook mgr =
      if host.getenv "ENABLE_WEBHOOKS" == "false"
      then pure none
      else setup_webhook_with_manager mgr.complete_webhook

  unfoldable pub with_manager : Result (Manager S) → M S Exit
  unfolding reconciler_of setup_with_manager setup_webhook add_checks or_exit
  with_manager (err e) = pure (exited 1)
  with_manager (ok mgr) = do
    uncontrolled ← setup_with_manager (reconciler_of mgr) mgr
    or_exit uncontrolled do unguarded ← setup_webhook mgr; or_exit unguarded (add_checks mgr)

  -- GetConfigOrDie exits when there is no configuration.
  unfoldable pub with_config : Result Config → M S Exit
  unfolding with_manager manager_options
  with_config (err e) = pure (exited 1)
  with_config (ok config) = do
    made ← host.new_manager config (manager_options flags (host.getenv "POD_NAMESPACE"))
    with_manager made

  -- main, after the flags are parsed.
  unfoldable pub main : M S Exit
  unfolding with_config
  main = do config ← host.get_config; with_config config
