-- ===== src/Controller/Runs.antt =====
-- Runs of the operator: reconciliations of any custom resources, in any order, and what others do to
-- the world between them.
pub mod Foreign
pub mod Untouched
use dual_deployment_operator.Base.{String, Option, ◌≡◌, ◌≢◌}
use dual_deployment_operator.Json.{Fields}
use dual_deployment_operator.Library.{Library}
use dual_deployment_operator.Manifest.{owned_by_value}
use dual_deployment_operator.Controller.Reconciler.{Reconciler}
use dual_deployment_operator.Controller.Reconcile.{reconcile}

module _ {S : Type 0} ⦃k : Library⦄ (r : Reconciler S) (find : S → String → Option Fields)
    (key owner : String) where
  -- One step: a reconciliation of a custom resource that is not the owner, or anything else that
  -- leaves the object `key` as it is.
  pub data Step : S → S → Type 0 where
    reconciled :
        (namespace name : String) (s : S)
        → owned_by_value namespace name ≢ owner
        → Step s (reconcile r namespace name s).1
    outside : {s t : S} → find t key ≡ find s key → Step s t

  -- The worlds that a run can reach.
  pub data Reach (s : S) : S → Type 0 where
    here : Reach s s
    next : {t u : S} → Reach s t → Step t u → Reach s u
