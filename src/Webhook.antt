-- ===== src/Webhook.antt =====
-- internal/webhook/v1alpha1/dualdeploymentoperator_webhook.go: the validating webhook, and its
-- registration.
use dual_deployment_operator.Base.{String, Option, none, List, [], Error, M}
use dual_deployment_operator.Api.{DualDeploymentOperator}

-- What a validation returns: warnings, and the error that refuses the request.
pub record Admission : Type 0 where
  pub warnings : List String
  pub error : Option Error

-- The interface `admission.Validator`.
pub record Validator (S : Type 0) : Type 0 where
  pub validate_create : DualDeploymentOperator → M S Admission
  pub validate_update : DualDeploymentOperator → DualDeploymentOperator → M S Admission
  pub validate_delete : DualDeploymentOperator → M S Admission

-- DualDeploymentOperatorCustomValidator
unfoldable pub custom_validator : {S : Type 0} → Validator S
custom_validator = record {
  validate_create = λ cr s. (record { warnings = []; error = none }, s);
  validate_update = λ old new s. (record { warnings = []; error = none }, s);
  validate_delete = λ cr s. (record { warnings = []; error = none }, s);
}

-- `complete` is the builder of webhooks of a manager, up to its `Complete`.
unfoldable pub setup_webhook_with_manager :
    {S : Type 0} → (Validator S → M S (Option Error)) → M S (Option Error)
unfolding custom_validator
setup_webhook_with_manager complete = complete custom_validator
