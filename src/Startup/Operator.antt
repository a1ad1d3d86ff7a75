-- ===== src/Startup/Operator.antt =====
-- The operator that main makes, in runs of many reconciliations.
use dual_deployment_operator.Base.{◌≡◌, ◌≢◌, ◌∙◌, refl, String, Option, ok}
use dual_deployment_operator.Json.{Fields}
use dual_deployment_operator.Library.{Library}
use dual_deployment_operator.Api.{DualDeploymentOperator, SourceSpec}
use dual_deployment_operator.Manifest.{owned_by_value}
use dual_deployment_operator.Clients.{RestConfig}
use dual_deployment_operator.Deliver.Applier.{Client, owner_of}
use dual_deployment_operator.Deliver.Applier.Store.{Stores, Holds, IsClusterScoped}
use dual_deployment_operator.Controller.Reconciler.{Source, Mode, event}
use dual_deployment_operator.Controller.Runs.{Reach}
use dual_deployment_operator.Controller.Runs.Foreign.{Leaves, IsDeployed}
use dual_deployment_operator.Controller.Runs.Untouched.{Reach-Holds}
use dual_deployment_operator.Source.Cache.{render_cache_or_none}
use dual_deployment_operator.Source.Select.{Calls}
use dual_deployment_operator.Source.Select.Renders.{LruKeeps}
use dual_deployment_operator.Source.Select.Confined.{LibrariesKeep, source_from-RenderKeeps}
use dual_deployment_operator.Startup.Options.{Flags}
use dual_deployment_operator.Startup.{
  Manager, Host, new_helm_loader, source_deps, source_for, reconciler_of,
}

-- The value of the object `key`, which may be absent.
abbrev pub IsAt : {S : Type 0} → (S → String → Option Fields) → String → Option Fields → S → Type 0
IsAt find key v s = find s key ≡ v

module _ {S Config H Chart File Url Repo Remote Worktree Tree HelmClient : Type 0} ⦃k : Library⦄
    (find : S → String → Option Fields) (key : String) (host : Host S Config)
    (calls : Calls S H HelmClient File Chart Url Repo Remote Worktree Tree) (mgr : Manager S) where
  -- The clients of the seed and of the shoots are views of one store, and all other calls that the
  -- operator makes leave the object `key` as it is.
  pub record IsHosted : Type 0 where
    pub seed_stores : Stores find mgr.client.objects
    pub shoot_stores :
        (config : RestConfig) (s : S) (c : Client S)
        → (host.new_client config s).0 ≡ ok c
        → Stores find c
    pub asked :
        (namespace name : String) (s : S) (cr : DualDeploymentOperator)
        → (mgr.client.get_cr namespace name s).0 ≡ ok cr
        → owned_by_value cr.namespace cr.name ≡ owned_by_value namespace name
    pub get_cr : (namespace name : String) → Leaves find key (mgr.client.get_cr namespace name)
    pub get_secret :
        (namespace name : String) → Leaves find key (mgr.client.get_secret namespace name)
    pub update : (cr : DualDeploymentOperator) → Leaves find key (mgr.client.update cr)
    pub update_status :
        (cr : DualDeploymentOperator) → Leaves find key (mgr.client.update_status cr)
    pub new_client : (config : RestConfig) → Leaves find key (host.new_client config)
    pub recorded :
        (source reason note : String) → Leaves find key (mgr.event_recorder source reason note)
    pub now : Leaves find key host.now
    pub libraries : (v : Option Fields) → LibrariesKeep (IsAt find key v) calls
    pub cache : (v : Option Fields) → LruKeeps (IsAt find key v) (render_cache_or_none host.new_lru)

  module _ (flags : Flags) (hosted : IsHosted) where
    source_for-Leaves :
        (spec : SourceSpec) (cr_namespace : String) (src : Source S)
        → source_for host calls flags mgr.client spec cr_namespace ≡ ok src
        → (mode : Mode) (namespace : String) → Leaves find key (src.render mode namespace)
    unfolding source_for source_deps new_helm_loader
    source_for-Leaves spec cr_namespace src made mode namespace s =
        (source_from-RenderKeeps (IsAt find key (find s key)) calls (hosted.libraries (find s key))
            spec _ src
            (record {
              loader = tt;
              root = tt;
              secrets = λ ns name. record { at = λ s' p. hosted.get_secret ns name s' ∙ p };
              cache = hosted.cache (find s key);
            })
            made mode namespace).at
          s refl

    unfoldable reconciler_of-IsDeployed : IsDeployed find key (reconciler_of host calls flags mgr)
    unfolding reconciler_of event
    reconciler_of-IsDeployed = record {
      seed = record {
        client = mgr.client.objects;
        field_manager = "dual-deployment-operator";
        cluster = "seed";
      };
      is_seed = refl;
      from_secret = refl;
      seed_stores = hosted.seed_stores;
      shoot_stores = hosted.shoot_stores;
      asked = hosted.asked;
      get_cr = hosted.get_cr;
      get_secret = hosted.get_secret;
      update = hosted.update;
      update_status = hosted.update_status;
      new_client = hosted.new_client;
      recorded = hosted.recorded "dual-deployment-operator";
      render = source_for-Leaves;
      now = hosted.now;
    }

    -- The reconciler that main makes, over every source: an object of a cluster-scoped kind that is
    -- labelled for one custom resource stays as it is in every world that reconciliations of other
    -- custom resources can reach, in any order and number, with anything between them that leaves the
    -- object as it is. The clients of the seed and of the shoots are views of one store, in which no
    -- manifest of another kind names the object; all other calls that the operator makes leave the
    -- object as it is, and the custom resource that is read is the one that was asked for.
    pub reconciler_of-Holds :
        {s t : S} (live : Fields)
        → owner_of live ≢ ""
        → IsClusterScoped find hosted.seed_stores key
        → ((config : RestConfig) (at : S) (c : Client S)
              (made : (host.new_client config at).0 ≡ ok c)
            → IsClusterScoped find (hosted.shoot_stores config at c made) key)
        → Reach (reconciler_of host calls flags mgr) find key (owner_of live) s t
        → Holds find key live s
        → Holds find key live t
    unfolding reconciler_of-IsDeployed reconciler_of
    reconciler_of-Holds live claimed seed shoot =
        Reach-Holds find key (reconciler_of host calls flags mgr) reconciler_of-IsDeployed live
          claimed (record { seed = seed; shoot = shoot })
