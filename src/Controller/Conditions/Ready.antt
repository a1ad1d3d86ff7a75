-- ===== src/Controller/Conditions/Ready.antt =====
-- When the Ready condition is true, and which reason it has otherwise.
use dual_deployment_operator.Base.{◌≡◌, refl, ◌↔◌, ◌≢◌, true, false, List, [], ◌∷◌, arith, All, all}
use dual_deployment_operator.Api.{HealthState, healthy, degraded, ResourceStatus, condition_true}
use dual_deployment_operator.Controller.Conditions.{
  is_degraded, is_progressing, any_failed, all_failed, any_progressing, compute_conditions,
}

abbrev pub AllHealthy : List ResourceStatus → Type 0
AllHealthy = All (λ s. s.health ≡ healthy)

healthy_of_neither :
    (h : HealthState) → is_degraded h ≡ false → is_progressing h ≡ false → h ≡ healthy
healthy_of_neither healthy d p = refl
healthy_of_neither degraded d p = cc
healthy_of_neither _ d p = cc

any_failed-AllHealthy : (ss : List ResourceStatus) → AllHealthy ss → any_failed ss ≡ false
unfolding any_failed
any_failed-AllHealthy [] h = refl
any_failed-AllHealthy (s ∷ ss) h = rw (h.0, any_failed-AllHealthy ss h.1)

any_progressing-AllHealthy : (ss : List ResourceStatus) → AllHealthy ss → any_progressing ss ≡ false
unfolding any_progressing
any_progressing-AllHealthy [] h = refl
any_progressing-AllHealthy (s ∷ ss) h = rw (h.0, any_progressing-AllHealthy ss h.1)

AllHealthy-neither :
    (ss : List ResourceStatus) → any_failed ss ≡ false → any_progressing ss ≡ false → AllHealthy ss
unfolding any_failed any_progressing
AllHealthy-neither [] f p = tt
AllHealthy-neither (s ∷ ss) f p = (
  healthy_of_neither s.health (ground arith) (ground arith),
  AllHealthy-neither ss (ground arith) (ground arith),
)

-- Ready is true exactly when every resource of both clusters is Healthy.
pub ready_iff :
    (seed shoot : List ResourceStatus)
    → ((compute_conditions seed shoot).status ≡ condition_true)
      ↔ (AllHealthy seed × AllHealthy shoot)
unfolding compute_conditions
ready_iff seed shoot = (
  λ h. (
    AllHealthy-neither seed (ground arith) (ground arith),
    AllHealthy-neither shoot (ground arith) (ground arith),
  ),
  λ h. rw (
    any_failed-AllHealthy seed h.0,
    any_failed-AllHealthy shoot h.1,
    any_progressing-AllHealthy seed h.0,
    any_progressing-AllHealthy shoot h.1,
  ),
)

-- A render has failed as a whole exactly when it is not empty and each of its resources is
-- Degraded.
pub all_failed_iff :
    (ss : List ResourceStatus)
    → (all_failed ss ≡ true) ↔ ((ss ≢ []) × All (λ s. s.health ≡ degraded) ss)
unfolding all_failed
all_failed_iff [] = (λ h. cc, λ h. absurd (h.0 refl))
all_failed_iff (s ∷ ss) = (λ h. (λ e. cc, each (s ∷ ss) h), λ h. back (s ∷ ss) h.1)
  where
    is_degraded_iff : (h : HealthState) → (is_degraded h ≡ true) ↔ (h ≡ degraded)
    is_degraded_iff degraded = (λ e. refl, λ e. refl)
    is_degraded_iff _ = (λ e. cc, λ e. cc)

    each :
        (ts : List ResourceStatus)
        → all (λ t. is_degraded t.health) ts ≡ true
        → All (λ t. t.health ≡ degraded) ts
    each [] h = tt
    each (t ∷ ts) h = ((is_degraded_iff t.health).0 (ground arith), each ts (ground arith))

    back :
        (ts : List ResourceStatus)
        → All (λ t. t.health ≡ degraded) ts
        → all (λ t. is_degraded t.health) ts ≡ true
    back [] h = refl
    back (t ∷ ts) h = rw h.0 (back ts h.1)
