-- ===== src/Controller/Reconcile.antt =====
-- The rest of Reconcile: deliver to both clusters in the order that the spec asks for,
-- prune, and write the status.
pub mod Calls
pub mod Complete
pub mod Gating
pub mod Results
pub mod Written
pub mod Inventory
pub mod Guarded
pub mod Whole
use dual_deployment_operator.Base.{
  ℕ, String, Bool, Option, none, some, List, [], ◌∷◌, ◌++◌, ◌==◌, not, if◌then◌else◌, Error, Result,
  ok, err, M, pure, ◌>>=◌, map, is_some, concat,
}
use dual_deployment_operator.Library.{Library}
use dual_deployment_operator.Api.{ResourceStatus, DualDeploymentOperator, Condition}
use dual_deployment_operator.Manifest.{Manifest, owned_by_value}
use dual_deployment_operator.Deliver.Order.{sort_for_apply}
use dual_deployment_operator.Deliver.Applier.{Applier, unless_not_found}
use dual_deployment_operator.Transform.Build.{Transformation, build, transform}
use dual_deployment_operator.Controller.Reconciler.{
  Reconciler, Source, Outcome, mode_seed, mode_shoot, finalizer_name, requeue_interval,
  is_credentials_not_ready, with_status, set_condition, build_shoot_applier_or_default, err_status,
  finish_not_ready,
}
use dual_deployment_operator.Controller.Conditions.{any_failed, all_failed, compute_conditions}
use dual_deployment_operator.Controller.Delivery.{AllApplied, apply_all, add_error}
use dual_deployment_operator.Controller.Prune.{PruneResult, prune}
use dual_deployment_operator.Controller.Render.{Rendered, rendered, failed, render_both}
use dual_deployment_operator.Controller.Deletion.{reconcile_delete}

abbrev pub is_shoot_first : DualDeploymentOperator → Bool
is_shoot_first cr = not (cr.spec.apply_order == "SeedFirst")

-- One cluster after its render was applied and its orphans were pruned.
pub record Delivery : Type 0 where
  pub statuses : List ResourceStatus
  pub apply_error : Option Error
  pub prune_error : Option Error

abbrev ready_outcome : Option Error → Option Error → Outcome
ready_outcome (some e) reconcile_error = record { requeue_after = 0; error = some e }
ready_outcome none (some e) = record { requeue_after = 0; error = some e }
ready_outcome none none = record { requeue_after = requeue_interval; error = none }

module _ {S : Type 0} ⦃k : Library⦄ where
  open k use {set_status_condition, new_aggregate, contains_finalizer, add_finalizer}

  -- The orphans that stay are kept in the inventory.
  unfoldable pub prune_applied :
      Applier S → DualDeploymentOperator → String → List ResourceStatus → AllApplied → M S Delivery
  prune_applied applier cr owned_by prev a = do
    pruned ← prune applier prev a.manifests cr owned_by
    pure (record {
      statuses = a.statuses ++ pruned.retained;
      apply_error = a.error;
      prune_error = pruned.error;
    })

  unfoldable pub apply_and_prune :
      Applier S
      → DualDeploymentOperator
      → String
      → List ResourceStatus
      → List Manifest
      → M S Delivery
  unfolding prune_applied
  apply_and_prune applier cr owned_by prev ms = do
    a ← apply_all applier ms owned_by
    prune_applied applier cr owned_by prev a

  -- The inventory of the seed when the shoot cannot be reached: only SeedFirst goes on.
  unfoldable pub seed_without_shoot :
      Reconciler S → DualDeploymentOperator → String → List Manifest → M S (List ResourceStatus)
  unfolding apply_and_prune
  seed_without_shoot r cr owned_by seed =
      let prev = cr.status.seed_resources in
      if is_shoot_first cr
      then pure prev
      else do d ← apply_and_prune r.seed_applier cr owned_by prev seed; pure d.statuses

  -- The condition of a shoot without credentials, which is waited for, or of one that failed.
  unfoldable pub finish_without_shoot :
      Reconciler S → DualDeploymentOperator → List ResourceStatus → Error → M S Outcome
  unfolding set_condition finish_not_ready
  finish_without_shoot r cr seed_out shoot_err =
      if is_credentials_not_ready shoot_err
      then finish_not_ready r
          (set_condition cr "WaitingForShootCredentials"
            "shoot token/CA not yet populated by Gardener; shoot render deferred")
          seed_out cr.status.shoot_resources 30
      else finish_not_ready r
          (set_condition cr "ShootApplyFailed"
            (concat ("shoot render could not be applied: " ∷ shoot_err.message ∷ [])))
          seed_out cr.status.shoot_resources 0

  -- The phases "credsNotReady" and "clientFailed".
  unfoldable pub deliver_without_shoot :
      Reconciler S → DualDeploymentOperator → String → List Manifest → Error → M S Outcome
  unfolding seed_without_shoot finish_without_shoot
  deliver_without_shoot r cr owned_by seed shoot_err = do
    seed_out ← seed_without_shoot r cr owned_by seed
    finish_without_shoot r cr seed_out shoot_err

  -- The shoot render was applied and has failed in part: the seed is deferred.
  unfoldable pub defer_seed :
      Reconciler S → Applier S → DualDeploymentOperator → String → AllApplied → M S Outcome
  unfolding prune_applied set_condition finish_not_ready
  defer_seed r shoot_applier cr owned_by a = do
    d ← prune_applied shoot_applier cr owned_by cr.status.shoot_resources a
    let cr' =
        (if all_failed a.statuses
          then set_condition cr "ShootApplyFailed"
              "every resource in the shoot render failed to apply"
          else set_condition cr "ResourcesDegraded"
              "some shoot resources failed to apply; seed render deferred until shoot converges")
    o ← finish_not_ready r cr' cr.status.seed_resources d.statuses 0
    pure (record {
      requeue_after = o.requeue_after;
      error = new_aggregate (o.error ∷ d.prune_error ∷ []);
    })

  -- The status of both clusters is written; the errors come in the order of the applies and prunes.
  unfoldable pub write_status :
      Reconciler S
      → DualDeploymentOperator
      → List ResourceStatus
      → List ResourceStatus
      → List Error
      → List (Option Error)
      → M S Outcome
  write_status r cr seed shoot apply_errs prune_errs = do
    now ← r.now
    let cond = record (compute_conditions seed shoot) { observed_generation = cr.generation }
    let status = record (cr.status) {
      seed_resources = seed;
      shoot_resources = shoot;
      conditions = set_status_condition cr.status.conditions cond;
      last_reconcile = some now;
    }
    failure ← r.update_status (with_status cr status)
    pure (
        ready_outcome failure
          (new_aggregate (map some apply_errs ++ new_aggregate prune_errs ∷ [])))

  -- The seed follows a shoot render with no failure, and is pruned first.
  unfoldable pub continue_with_seed :
      Reconciler S
      → Applier S
      → DualDeploymentOperator
      → String
      → List Manifest
      → AllApplied
      → M S Outcome
  unfolding defer_seed prune_applied write_status
  continue_with_seed r shoot_applier cr owned_by seed a =
      if any_failed a.statuses then defer_seed r shoot_applier cr owned_by a else do
        b ← apply_all r.seed_applier seed owned_by
        ds ← prune_applied r.seed_applier cr owned_by cr.status.seed_resources b
        dt ← prune_applied shoot_applier cr owned_by cr.status.shoot_resources a
        write_status r cr ds.statuses dt.statuses (add_error a.error (add_error b.error []))
            (ds.prune_error ∷ dt.prune_error ∷ [])

  -- ShootFirst
  unfoldable pub deliver_shoot_first :
      Reconciler S
      → Applier S
      → DualDeploymentOperator
      → String
      → List Manifest
      → List Manifest
      → M S Outcome
  unfolding continue_with_seed
  deliver_shoot_first r shoot_applier cr owned_by seed shoot = do
    a ← apply_all shoot_applier shoot owned_by
    continue_with_seed r shoot_applier cr owned_by seed a

  -- SeedFirst: the seed, then the shoot; the shoot is pruned first.
  unfoldable pub deliver_seed_first :
      Reconciler S
      → Applier S
      → DualDeploymentOperator
      → String
      → List Manifest
      → List Manifest
      → M S Outcome
  unfolding prune_applied write_status
  deliver_seed_first r shoot_applier cr owned_by seed shoot = do
    b ← apply_all r.seed_applier seed owned_by
    a ← apply_all shoot_applier shoot owned_by
    dt ← prune_applied shoot_applier cr owned_by cr.status.shoot_resources a
    ds ← prune_applied r.seed_applier cr owned_by cr.status.seed_resources b
    write_status r cr ds.statuses dt.statuses (add_error b.error (add_error a.error []))
        (dt.prune_error ∷ ds.prune_error ∷ [])

  -- Both renders are sorted, and the state of the shoot decides.
  unfoldable pub deliver_with :
      Reconciler S
      → DualDeploymentOperator
      → String
      → List Manifest
      → List Manifest
      → Result (Applier S)
      → M S Outcome
  unfolding deliver_without_shoot deliver_shoot_first deliver_seed_first
  deliver_with r cr owned_by seed shoot (err e) = deliver_without_shoot r cr owned_by seed e
  deliver_with r cr owned_by seed shoot (ok applier) =
      if is_shoot_first cr
      then deliver_shoot_first r applier cr owned_by seed shoot
      else deliver_seed_first r applier cr owned_by seed shoot

  unfoldable pub deliver :
      Reconciler S → DualDeploymentOperator → List Manifest → List Manifest → M S Outcome
  unfolding deliver_with
  deliver r cr seed shoot = do
    built ← build_shoot_applier_or_default r cr
    deliver_with r cr (owned_by_value cr.namespace cr.name) (sort_for_apply seed)
        (sort_for_apply shoot) built

  unfoldable pub deliver_rendered : Reconciler S → DualDeploymentOperator → Rendered → M S Outcome
  unfolding deliver
  deliver_rendered r cr (failed reason e) = err_status r cr reason e
  deliver_rendered r cr (rendered seed shoot) = deliver r cr seed shoot

  unfoldable pub render_and_deliver : Reconciler S → DualDeploymentOperator → M S Outcome
  unfolding render_both deliver_rendered
  render_and_deliver r cr = do both ← render_both r cr; deliver_rendered r cr both

  unfoldable pub reconcile_found : Reconciler S → DualDeploymentOperator → M S Outcome
  unfolding render_and_deliver
  reconcile_found r cr =
      if is_some cr.deletion_timestamp
      then reconcile_delete r cr
      else if not (contains_finalizer cr.finalizers finalizer_name)
      then (do
        failure ← r.update (record cr { finalizers = add_finalizer cr.finalizers finalizer_name })
        pure (record { requeue_after = 0; error = failure }))
      else render_and_deliver r cr

  unfoldable pub reconcile_got : Reconciler S → Result DualDeploymentOperator → M S Outcome
  unfolding reconcile_found
  reconcile_got r (err e) = pure (record { requeue_after = 0; error = unless_not_found (some e) })
  reconcile_got r (ok cr) = reconcile_found r cr

  unfoldable pub reconcile : Reconciler S → String → String → M S Outcome
  unfolding reconcile_got
  reconcile r namespace name = do got ← r.get_cr namespace name; reconcile_got r got
