-- ===== src/Controller/Conditions.antt =====
-- anyFailed, allFailed, anyProgressing and computeConditions.
pub mod Ready
use dual_deployment_operator.Base.{
  Bool, true, false, List, [], ◌∷◌, if◌then◌else◌, ◌||◌, ◌&&◌, any, all,
}
use dual_deployment_operator.Api.{
  HealthState, healthy, progressing, degraded, unknown, ResourceStatus, Condition, condition_true,
  condition_false,
}

abbrev pub is_degraded : HealthState → Bool
is_degraded degraded = true
is_degraded _ = false

abbrev pub is_progressing : HealthState → Bool
is_progressing progressing = true
is_progressing unknown = true
is_progressing _ = false

unfoldable pub any_failed : List ResourceStatus → Bool
any_failed = any (λ s. is_degraded s.health)

-- An empty render has not failed.
unfoldable pub all_failed : List ResourceStatus → Bool
all_failed [] = false
all_failed (s ∷ statuses) = all (λ t. is_degraded t.health) (s ∷ statuses)

unfoldable pub any_progressing : List ResourceStatus → Bool
any_progressing = any (λ s. is_progressing s.health)

-- The generation is set by the caller.
unfoldable pub compute_conditions : List ResourceStatus → List ResourceStatus → Condition
unfolding any_failed any_progressing
compute_conditions seed shoot =
    if any_failed seed || any_failed shoot
    then record {
      type = "Ready";
      status = condition_false;
      reason = "ResourcesDegraded";
      message = "one or more managed resources are in a Degraded state";
      observed_generation = 0;
    }
    else if any_progressing seed || any_progressing shoot
    then record {
      type = "Ready";
      status = condition_false;
      reason = "Progressing";
      message = "one or more managed resources are still Progressing or Unknown";
      observed_generation = 0;
    }
    else record {
      type = "Ready";
      status = condition_true;
      reason = "ReconcileSuccess";
      message = "all managed resources applied successfully";
      observed_generation = 0;
    }
