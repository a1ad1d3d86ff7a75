-- ===== src/Controller/Reconcile/Written.antt =====
-- The inventories of the status that a delivery writes last.
use dual_deployment_operator.Base.{◌≡◌, refl, ℕ, String, Option, some, List, Error, if◌then◌else◌}
use dual_deployment_operator.Library.{Library}
use dual_deployment_operator.Api.{ResourceStatus, DualDeploymentOperator}
use dual_deployment_operator.Deliver.Applier.{Applier}
use dual_deployment_operator.Controller.Reconciler.{
  Reconciler, Outcome, with_status, set_condition, finish_not_ready,
}
use dual_deployment_operator.Controller.Conditions.{all_failed}
use dual_deployment_operator.Controller.Delivery.{AllApplied}
use dual_deployment_operator.Controller.Reconcile.Results.{ready_condition}
use dual_deployment_operator.Controller.Reconcile.{prune_applied, write_status, defer_seed}

module _ {S : Type 0} ⦃k : Library⦄ (r : Reconciler S) where
  -- The last call wrote a status with these inventories.
  pub record Wrote (seed shoot : List ResourceStatus) (x : Outcome × S) : Type 0 where
    pub written : DualDeploymentOperator
    pub before : S
    pub last : x.1 ≡ (r.update_status written before).1
    pub seed_written : written.status.seed_resources ≡ seed
    pub shoot_written : written.status.shoot_resources ≡ shoot

  finish_not_ready-Wrote :
      (cr : DualDeploymentOperator) (seed shoot : List ResourceStatus) (backoff : ℕ) (s : S)
      → Wrote seed shoot (finish_not_ready r cr seed shoot backoff s)
  unfolding finish_not_ready
  finish_not_ready-Wrote cr seed shoot backoff s = record {
    written = with_status cr (record (cr.status) {
      seed_resources = seed;
      shoot_resources = shoot;
      last_reconcile = some (r.now s).0;
    });
    before = (r.now s).1;
    last = refl;
    seed_written = refl;
    shoot_written = refl;
  }

  pub write_status-Wrote :
      (cr : DualDeploymentOperator) (seed shoot : List ResourceStatus) (apply_errs : List Error)
      (prune_errs : List (Option Error)) (s : S)
      → Wrote seed shoot (write_status r cr seed shoot apply_errs prune_errs s)
  unfolding write_status
  write_status-Wrote cr seed shoot apply_errs prune_errs s = record {
    written = with_status cr (record (cr.status) {
      seed_resources = seed;
      shoot_resources = shoot;
      conditions = k.set_status_condition cr.status.conditions (ready_condition cr seed shoot);
      last_reconcile = some (r.now s).0;
    });
    before = (r.now s).1;
    last = refl;
    seed_written = refl;
    shoot_written = refl;
  }

  -- The outcome after the seed was deferred has one more error.
  pub defer_seed-Wrote :
      (a : Applier S) (cr : DualDeploymentOperator) (owned_by : String) (applied : AllApplied)
      (s : S)
      → Wrote cr.status.seed_resources
          (prune_applied a cr owned_by cr.status.shoot_resources applied s).0.statuses
          (defer_seed r a cr owned_by applied s)
  unfolding defer_seed
  defer_seed-Wrote a cr owned_by applied s =
      let (d, s') = prune_applied a cr owned_by cr.status.shoot_resources applied s in
      let cr' =
        if all_failed applied.statuses
        then set_condition cr "ShootApplyFailed"
            "every resource in the shoot render failed to apply"
        else set_condition cr "ResourcesDegraded"
            "some shoot resources failed to apply; seed render deferred until shoot converges" in
      let w = finish_not_ready-Wrote cr' cr.status.seed_resources d.statuses 0 s' in
      record {
        written = w.written;
        before = w.before;
        last = w.last;
        seed_written = w.seed_written;
        shoot_written = w.shoot_written;
      }
