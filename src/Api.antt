-- ===== src/Api.antt =====
-- api/v1alpha1/dualdeploymentoperator_types.go: the custom resource, its spec and its status.
-- A pointer field is an `Option`; a field with `omitempty` is "" or [] when it is not set.
use dual_deployment_operator.Base.{ℕ, String, Option, List}
use dual_deployment_operator.Json.{StringMap}

-- apiextensionsv1.JSON
pub record RawJson : Type 0 where
  pub raw : String

pub record SecretReference : Type 0 where
  pub name : String

pub record HelmSource : Type 0 where
  pub repo : String
  pub name : String
  pub version : String
  pub values : Option RawJson
  pub seed_values : Option RawJson
  pub shoot_values : Option RawJson
  pub auth_secret_ref : Option SecretReference

pub record KustomizeSource : Type 0 where
  pub url : String
  pub seed_path : String
  pub shoot_path : String
  pub auth_secret_ref : Option SecretReference

-- Source
pub record SourceSpec : Type 0 where
  pub helm : Option HelmSource
  pub kustomize : Option KustomizeSource

pub record ShootAccessRef : Type 0 where
  pub secret_name : String
  pub server : String
  pub token_key : String
  pub ca_key : String

pub record Selector : Type 0 where
  pub kind : String
  pub name : String
  pub origin : String

pub record JsonPatchOp : Type 0 where
  pub op : String
  pub path : String
  pub «from» : String
  pub value : Option RawJson

pub record PatchSpec : Type 0 where
  pub target : Selector
  pub strategic_merge : Option RawJson
  pub json_patch : List JsonPatchOp

pub record RewriteWebhookUrlSpec : Type 0 where
  pub url_prefix : String

pub record FilterKindsSpec : Type 0 where
  pub kinds : List String
  pub source : String

-- Transformation
pub record TransformationSpec : Type 0 where
  pub patch : Option PatchSpec
  pub rewrite_webhook_url : Option RewriteWebhookUrlSpec
  pub filter_kinds : Option FilterKindsSpec

pub record RetentionPolicy : Type 0 where
  pub crds : String

pub record Spec : Type 0 where
  pub source : SourceSpec
  pub shoot_access : ShootAccessRef
  pub shoot_namespace : String
  pub transformations : List TransformationSpec
  pub retention_policy : RetentionPolicy
  pub apply_order : String

-- The values that the CRD's enum admits.
pub data HealthState : Type 0 where
  healthy progressing degraded unknown : HealthState

pub record ResourceStatus : Type 0 where
  pub kind : String
  pub api_version : String
  pub namespace : String
  pub name : String
  pub health : HealthState
  pub last_applied : Option ℕ
  pub message : String

-- metav1.ConditionStatus
pub data ConditionStatus : Type 0 where
  condition_true condition_false : ConditionStatus

-- metav1.Condition, less the transition time that `meta.SetStatusCondition` keeps.
pub record Condition : Type 0 where
  pub type : String
  pub status : ConditionStatus
  pub reason : String
  pub message : String
  pub observed_generation : ℕ

pub record Status : Type 0 where
  pub seed_resources : List ResourceStatus
  pub shoot_resources : List ResourceStatus
  pub conditions : List Condition
  pub last_reconcile : Option ℕ

pub record DualDeploymentOperator : Type 0 where
  pub namespace : String
  pub name : String
  pub generation : ℕ
  pub annotations : StringMap
  pub finalizers : List String
  pub deletion_timestamp : Option ℕ
  pub spec : Spec
  pub status : Status
