-- ===== src/Tests/World.antt =====
-- Two clusters in memory, and what a reconciler writes of its custom resource.
use dual_deployment_operator.Base.{
  String, Bool, true, false, none, some, List, [], ◌∷◌, ◌==◌, if◌then◌else◌, not_found, Result, ok,
  err, plain, keep, not,
}
use dual_deployment_operator.Json.{Fields, end, field, text, object}
use dual_deployment_operator.Api.{
  DualDeploymentOperator, ResourceStatus, Spec, SourceSpec, TransformationSpec, HealthState,
}
use dual_deployment_operator.Manifest.{Manifest, owned_by_label}
use dual_deployment_operator.Deliver.Applier.{Applier, Client, SsaApplier, as_applier}
use dual_deployment_operator.Controller.Reconciler.{Reconciler, Source}
use dual_deployment_operator.Tests.Machinery.{demo}

pub record World : Type 0 where
  pub seed : List Fields
  pub shoot : List Fields
  pub updates : List DualDeploymentOperator
  pub recorded : List DualDeploymentOperator

abbrev pub owned : String → String → String → Fields
owned kind name owner = field "kind" (text kind) (
    field "apiVersion" (text "v1") (
      field "metadata"
        (object (
          field "name" (text name)
            (field "labels" (object (field owned_by_label (text owner) end)) end)))
        end))

abbrev find_named : String → List Fields → Result Fields
find_named name [] = err (record { kind = not_found; message = "not found" })
find_named name (u ∷ us) = if demo.get_name u == name then ok u else find_named name us

abbrev remove_named : String → List Fields → List Fields
remove_named name us = keep (λ u. not (demo.get_name u == name)) us

abbrev pub seed_client : Client World
seed_client = record {
  get = λ gvk ns name w. (find_named name w.seed, w);
  patch = λ u manager w. (ok u, record w { seed = u ∷ remove_named (demo.get_name u) w.seed });
  delete = λ u w. (none, record w { seed = remove_named (demo.get_name u) w.seed });
  now = λ w. (7, w);
}

-- A cluster that refuses every write of an object named "broken".
abbrev pub refuses : Fields → Bool
refuses u = demo.get_name u == "broken"

abbrev pub patch_shoot : Bool → Fields → World → Result Fields × World
patch_shoot true u w = (err (plain "refused"), w)
patch_shoot false u w = (ok u, record w { shoot = u ∷ remove_named (demo.get_name u) w.shoot })

abbrev pub shoot_client : Client World
shoot_client = record {
  get = λ gvk ns name w. (find_named name w.shoot, w);
  patch = λ u manager w. patch_shoot (refuses u) u w;
  delete = λ u w. (none, record w { shoot = remove_named (demo.get_name u) w.shoot });
  now = λ w. (7, w);
}

abbrev pub seed_ssa : SsaApplier World
seed_ssa = record { client = seed_client; field_manager = "manager"; cluster = "seed" }

abbrev pub shoot_ssa : SsaApplier World
shoot_ssa = record { client = shoot_client; field_manager = "manager"; cluster = "shoot" }

abbrev pub reconciler_with : Result (Source World) → Result (Applier World) → Reconciler World
reconciler_with source shoot = record {
  get_cr = λ ns name w. (err (plain "no object"), w);
  get_secret = λ ns name w. (err (plain "no secret"), w);
  update = λ cr w. (none, record w { updates = cr ∷ w.updates });
  update_status = λ cr w. (none, record w { recorded = cr ∷ w.recorded });
  new_client = λ config w. (ok shoot_client, w);
  eventf = none;
  seed_applier = as_applier seed_ssa;
  source_from = λ spec ns. source;
  shoot_applier_for = some (λ cr w. (shoot, w));
  now = λ w. (7, w);
}

abbrev pub no_source : SourceSpec
no_source = record { helm = none; kustomize = none }

abbrev pub spec_with : String → List TransformationSpec → Spec
spec_with order transformations = record {
  source = no_source;
  shoot_access = record {
    secret_name = "access";
    server = "https://shoot";
    token_key = "";
    ca_key = "";
  };
  shoot_namespace = "kube-system";
  transformations = transformations;
  retention_policy = record { crds = "" };
  apply_order = order;
}

abbrev pub status_of : String → String → HealthState → ResourceStatus
status_of kind name health = record {
  kind = kind;
  api_version = "v1";
  namespace = "";
  name = name;
  health = health;
  last_applied = none;
  message = "";
}

abbrev pub resource_with :
    String → List ResourceStatus → List ResourceStatus → DualDeploymentOperator
resource_with order seed shoot = record {
  namespace = "garden";
  name = "demo";
  generation = 3;
  annotations = [];
  finalizers = [];
  deletion_timestamp = none;
  spec = spec_with order [];
  status = record {
    seed_resources = seed;
    shoot_resources = shoot;
    conditions = [];
    last_reconcile = none;
  };
}

abbrev pub manifest_of : String → String → Manifest
manifest_of kind name = record { unstructured = owned kind name "me"; origin = "upstream" }

abbrev pub world_of : List Fields → List Fields → World
world_of seed shoot = record { seed = seed; shoot = shoot; updates = []; recorded = [] }
