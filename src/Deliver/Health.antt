-- ===== src/Deliver/Health.antt =====
-- internal/deliver/health.go
pub mod Replicas
use dual_deployment_operator.Base.{
  String, Bool, true, false, Option, none, some, [], ◌∷◌, ◌==◌, if◌then◌else◌, Result, ok, err,
  one_of, ℤ, pos, leb_ℤ, ◌&&◌,
}
use dual_deployment_operator.Json.{Value, Items, Fields, text, object, done, item, lookup}
use dual_deployment_operator.Library.{Library}
use dual_deployment_operator.Api.{HealthState, healthy, progressing, degraded, unknown}

-- cm[key] == want, for a text `want`
unfoldable pub has_text : String → String → Fields → Bool
has_text key want cm = elim (lookup key cm) [ some (text s) ↦ s == want | _ ↦ false ]

-- The test on one condition: a map with type Established and status True.
unfoldable pub is_established : Value → Bool
is_established (object cm) = has_text "type" "Established" cm && has_text "status" "True" cm
is_established v = false

unfoldable pub any_established : Items → Bool
any_established done = false
any_established (item c cs) = if is_established c then true else any_established cs

-- The number that `NestedInt64` returns for a field that is not set is 0.
abbrev pub or_zero : Option ℤ → ℤ
or_zero none = pos 0
or_zero (some n) = n

abbrev pub replica_state : Result (Option ℤ) → Result (Option ℤ) → HealthState
replica_state (ok replicas) (ok available) =
    if leb_ℤ (or_zero replicas) (or_zero available) then healthy else progressing
replica_state (ok replicas) (err e) = progressing
replica_state (err e) available = progressing

module _ ⦃k : Library⦄ where
  open k use {get_kind, nested_slice, nested_int64}

  unfoldable pub replica_health : Fields → HealthState
  replica_health u =
      replica_state (nested_int64 u ("spec" ∷ "replicas" ∷ []))
        (nested_int64 u ("status" ∷ "availableReplicas" ∷ []))

  unfoldable pub crd_health : Fields → HealthState
  crd_health u = elim (nested_slice u ("status" ∷ "conditions" ∷ [])) [
    | err e ↦ progressing
    | ok none ↦ progressing
    | ok (some conds) ↦ if any_established conds then healthy else progressing
  ]

  unfoldable pub compute_health : Option Fields → HealthState
  compute_health none = unknown
  compute_health (some u) =
      if one_of ("Deployment" ∷ "StatefulSet" ∷ []) (get_kind u)
      then replica_health u
      else if get_kind u == "CustomResourceDefinition"
      then crd_health u
      else healthy
