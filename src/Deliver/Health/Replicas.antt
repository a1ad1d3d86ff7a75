-- ===== src/Deliver/Health/Replicas.antt =====
-- When a delivered object counts as healthy.
use dual_deployment_operator.Base.{
  ◌≡◌, refl, ◌↔◌, Option, arith, Result, ok, err, ℤ, ◌≤ℤ◌, leb_ℤ_iff,
}
use dual_deployment_operator.Api.{healthy}
use dual_deployment_operator.Deliver.Health.{or_zero, replica_state}

-- Replicas are healthy exactly when both counts can be read and at least as many are available as
-- are asked for; a count that is not set is 0.
pub replica_state_iff :
    (replicas available : Result (Option ℤ))
    → (replica_state replicas available ≡ healthy) ↔ (
        (n : Option ℤ) × (a : Option ℤ) × (replicas ≡ ok n)
        × (available ≡ ok a)
        × (or_zero n ≤ℤ or_zero a))
replica_state_iff (err e) available = (λ h. cc, λ (n, a, p, q, le). cc)
replica_state_iff (ok n) (err e) = (λ h. cc, λ (n', a, p, q, le). cc)
replica_state_iff (ok n) (ok a) = (
  λ h. (n, a, refl, refl, (leb_ℤ_iff (or_zero n) (or_zero a)).0 (ground arith)),
  λ (n', a', p, q, le).
      ground (arith, leb_ℤ_iff (or_zero n) (or_zero a), leb_ℤ_iff (or_zero n') (or_zero a')),
)
