-- ===== src/Controller/Reconciler.antt =====
-- The reconciler: what it is made of, the applier of the shoot, the conditions that it writes, and
-- the two ways to end a reconciliation early. `S` is the world that all calls act on.
use dual_deployment_operator.Base.{
  ℕ, String, Option, none, some, [], ◌∷◌, if◌then◌else◌, Error, Result, ok, err, plain, concat, M,
  pure, ◌>>=◌, shoot_credentials_not_ready, nat_eq, Bool, true, false, List,
}
use dual_deployment_operator.Json.{StringMap}
use dual_deployment_operator.Library.{Library}
use dual_deployment_operator.Api.{
  DualDeploymentOperator, SourceSpec, ShootAccessRef, ResourceStatus, Status, condition_false,
  Condition,
}
use dual_deployment_operator.Clients.{
  RestConfig, shoot_rest_config, err_shoot_credentials_not_ready,
}
use dual_deployment_operator.Manifest.{Manifest}
use dual_deployment_operator.Deliver.Applier.{Applier, Client, as_applier}

abbrev pub finalizer_name : String
finalizer_name = "dual-deployment-operator.cc.sap/finalizer"

abbrev pub field_manager_name : String
field_manager_name = "dual-deployment-operator"

-- Ten minutes, in seconds.
abbrev pub requeue_interval : ℕ
requeue_interval = 600

abbrev pub force_delete_annotation : String
force_delete_annotation = "dual-deployment-operator.cc.sap/force-delete"

abbrev pub reason_deleting : String
reason_deleting = "Deleting"

pub data Mode : Type 0 where
  mode_seed mode_shoot : Mode

-- The interface `source.Source`.
pub record Source (S : Type 0) : Type 0 where
  pub render : Mode → String → M S (Result (List Manifest))

-- The reconciler's fields: the calls of its API client (`get_secret` gives the data of a Secret),
-- the client constructor, the event recorder, the applier of the seed, the sources, and the clock.
-- `update` and `update_status` leave the object that they are given as it was.
pub record Reconciler (S : Type 0) : Type 0 where
  pub get_cr : String → String → M S (Result DualDeploymentOperator)
  pub get_secret : String → String → M S (Result StringMap)
  pub update : DualDeploymentOperator → M S (Option Error)
  pub update_status : DualDeploymentOperator → M S (Option Error)
  pub new_client : RestConfig → M S (Result (Client S))
  pub eventf : Option (String → String → M S (Unit {0}))
  pub seed_applier : Applier S
  pub source_from : SourceSpec → String → Result (Source S)
  pub shoot_applier_for : Option (DualDeploymentOperator → M S (Result (Applier S)))
  pub now : M S ℕ

-- ctrl.Result and the error; 0 is no fixed requeue.
pub record Outcome : Type 0 where
  pub requeue_after : ℕ
  pub error : Option Error

abbrev pub is_credentials_not_ready : Error → Bool
is_credentials_not_ready e = elim e.kind [ shoot_credentials_not_ready ↦ true | _ ↦ false ]

abbrev pub with_status : DualDeploymentOperator → Status → DualDeploymentOperator
with_status cr s = record cr { status = s }

abbrev pub with_conditions : DualDeploymentOperator → List Condition → DualDeploymentOperator
with_conditions cr conds = with_status cr (record (cr.status) { conditions = conds })

module _ ⦃k : Library⦄ where
  open k use {set_status_condition}

  unfoldable pub set_condition : DualDeploymentOperator → String → String → DualDeploymentOperator
  set_condition cr reason message = with_conditions cr (
      set_status_condition cr.status.conditions (record {
        type = "Ready";
        status = condition_false;
        reason = reason;
        message = message;
        observed_generation = cr.generation;
      }))

abbrev not_ready_outcome : ℕ → Option Error → Outcome
not_ready_outcome backoff (some e) = record { requeue_after = 0; error = some e }
not_ready_outcome backoff none =
    if nat_eq backoff 0
    then record { requeue_after = 0; error = some (plain "shoot render unavailable; requeuing") }
    else record { requeue_after = backoff; error = none }

module _ {S : Type 0} ⦃k : Library⦄ where
  unfoldable pub event : Reconciler S → String → String → M S (Unit {0})
  event r reason note = elim r.eventf [ none ↦ pure tt | some f ↦ f reason note ]

  -- The applier over a client of the shoot.
  abbrev pub shoot_applier : Client S → Applier S
  shoot_applier c =
      as_applier (record { client = c; field_manager = field_manager_name; cluster = "shoot" })

  abbrev from_client : Result (Client S) → Result (Applier S)
  from_client (ok c) = ok (shoot_applier c)
  from_client (err e) = err e

  unfoldable pub applier_of_config : Reconciler S → Result RestConfig → M S (Result (Applier S))
  applier_of_config r (err e) =
      pure (if is_credentials_not_ready e then err err_shoot_credentials_not_ready else err e)
  applier_of_config r (ok config) = do made ← r.new_client config; pure (from_client made)

  unfoldable pub applier_of_secret :
      Reconciler S → ShootAccessRef → Result StringMap → M S (Result (Applier S))
  unfolding applier_of_config
  applier_of_secret r ref (err e) =
      pure (
        err
          (record e { message = concat ("failed to get shoot access secret: " ∷ e.message ∷ []) }))
  applier_of_secret r ref (ok secret) =
      applier_of_config r (shoot_rest_config secret ref.token_key ref.ca_key ref.server)

  unfoldable pub build_shoot_applier :
      Reconciler S → DualDeploymentOperator → M S (Result (Applier S))
  unfolding applier_of_secret
  build_shoot_applier r cr = do
    secret ← r.get_secret cr.namespace cr.spec.shoot_access.secret_name
    applier_of_secret r cr.spec.shoot_access secret

  unfoldable pub build_shoot_applier_or_default :
      Reconciler S → DualDeploymentOperator → M S (Result (Applier S))
  unfolding build_shoot_applier
  build_shoot_applier_or_default r cr = elim r.shoot_applier_for [
    | some build ↦ build cr
    | none ↦ build_shoot_applier r cr
  ]

  -- The status write may fail; the error that is returned is `e` all the same.
  unfoldable pub err_status : Reconciler S → DualDeploymentOperator → String → Error → M S Outcome
  unfolding set_condition
  err_status r cr reason e = do
    now ← r.now
    let cr' = set_condition cr reason e.message
    _ ← r.update_status (with_status cr' (record (cr'.status) { last_reconcile = some now }))
    pure (record { requeue_after = 0; error = some e })

  unfoldable pub finish_not_ready :
      Reconciler S
      → DualDeploymentOperator
      → List ResourceStatus
      → List ResourceStatus
      → ℕ
      → M S Outcome
  finish_not_ready r cr seed shoot backoff = do
    now ← r.now
    let status = record (cr.status) {
      seed_resources = seed;
      shoot_resources = shoot;
      last_reconcile = some now;
    }
    failure ← r.update_status (with_status cr status)
    pure (not_ready_outcome backoff failure)
