-- ===== src/Controller/Cleanup.antt =====
-- What a deletion records of a shoot that was not cleaned up: a condition and an event.
use dual_deployment_operator.Base.{
  String, Option, none, some, [], ◌∷◌, Error, M, pure, ◌>>=◌, concat,
}
use dual_deployment_operator.Library.{Library}
use dual_deployment_operator.Api.{DualDeploymentOperator, condition_false}
use dual_deployment_operator.Controller.Reconciler.{
  Reconciler, force_delete_annotation, with_conditions, set_condition, event,
}

abbrev message_of : Option Error → String
message_of none = "<nil>"
message_of (some e) = e.message

abbrev abandoned : Option Error → String
abandoned none = "shoot cleanup abandoned by operator force-delete; shoot resources may be orphaned"
abandoned (some e) = concat (
    "shoot cleanup abandoned by operator force-delete; shoot resources may be orphaned"
    ∷ " (last error: " ∷ e.message ∷ ")" ∷ [])

module _ ⦃k : Library⦄ where
  open k use {set_status_condition}

  abbrev set_cleanup_condition : DualDeploymentOperator → String → String → DualDeploymentOperator
  set_cleanup_condition cr reason message = with_conditions cr (
      set_status_condition cr.status.conditions (record {
        type = "ShootCleanup";
        status = condition_false;
        reason = reason;
        message = message;
        observed_generation = 0;
      }))

module _ {S : Type 0} ⦃k : Library⦄ where
  unfoldable pub record_shoot_unreachable :
      Reconciler S → DualDeploymentOperator → Error → M S DualDeploymentOperator
  unfolding event set_condition
  record_shoot_unreachable r cr e = do
    _ ←
        event r "ShootUnreachable"
          "Shoot API server unreachable during deletion; proceeding with seed cleanup and retaining finalizer"
    pure (
        set_condition cr "ShootUnreachable"
          (concat ("shoot unreachable during deletion: " ∷ e.message ∷ [])))

  unfoldable pub record_shoot_cleanup_blocked :
      Reconciler S → DualDeploymentOperator → Option Error → M S DualDeploymentOperator
  unfolding event
  record_shoot_cleanup_blocked r cr cause = do
    _ ← event r "ShootCleanupBlocked" (
        concat (
          "Shoot cleanup incomplete; retaining finalizer. Set annotation " ∷ force_delete_annotation
          ∷ "=true to force deletion (orphans remaining shoot resources)" ∷ []))
    pure (
        set_cleanup_condition cr "Blocked" (
          concat (
            "waiting on shoot cleanup; set "
            ∷ force_delete_annotation
            ∷ "=true to force: "
            ∷ message_of cause
            ∷ [])))

  unfoldable pub record_shoot_cleanup_force_deleted :
      Reconciler S → DualDeploymentOperator → Option Error → M S DualDeploymentOperator
  unfolding event
  record_shoot_cleanup_force_deleted r cr cause = do
    _ ←
        event r "ShootCleanupForceDeleted"
          "Finalizer removed via force-delete annotation; remaining shoot resources may be orphaned"
    pure (set_cleanup_condition cr "ForceDeleted" (abandoned cause))
