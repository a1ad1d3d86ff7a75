-- ===== src/Controller/Deletion.antt =====
-- reconcileDelete and what it records: both renders are torn down, and the finalizer goes when that
-- is done, or by explicit consent.
pub mod Calls
pub mod Cleared
pub mod Finalizer
pub mod Release
pub mod Parts
pub mod Outcomes
use dual_deployment_operator.Base.{
  ℕ, zero, suc, String, Bool, true, false, Option, none, some, List, [], ◌∷◌, ◌==◌, ◌&&◌, ◌||◌,
  if◌then◌else◌, Error, Result, ok, err, M, pure, ◌>>=◌, ◌>>◌, map, is_not_found, is_none, concat,
  length, nat_eq, ltb,
}
use dual_deployment_operator.Json.{get_text}
use dual_deployment_operator.Library.{Library}
use dual_deployment_operator.Api.{ResourceStatus, DualDeploymentOperator, condition_false}
use dual_deployment_operator.Manifest.{owned_by_value}
use dual_deployment_operator.Deliver.Order.{sort_status_for_delete, manifest_from_status}
use dual_deployment_operator.Deliver.Applier.{Applier}
use dual_deployment_operator.Controller.Reconciler.{
  Reconciler, Outcome, finalizer_name, force_delete_annotation, reason_deleting, with_conditions,
  set_condition, event, build_shoot_applier_or_default,
}
use dual_deployment_operator.Controller.Prune.{is_retained_crd}
use dual_deployment_operator.Controller.Delivery.{add_error}
use dual_deployment_operator.Controller.Cleanup.{
  record_shoot_unreachable, record_shoot_cleanup_blocked, record_shoot_cleanup_force_deleted,
}

abbrev count_deletable : Bool → ℕ → ℕ
count_deletable true n = n
count_deletable false n = suc n

-- How many of the resources a deletion has to remove.
unfoldable pub deletable : DualDeploymentOperator → List ResourceStatus → ℕ
deletable cr [] = 0
deletable cr (rs ∷ statuses) = count_deletable (is_retained_crd cr rs) (deletable cr statuses)

-- The shoot applier, or why there is none; neither if nothing on the shoot has to go.
pub record Shoot (S : Type 0) : Type 0 where
  pub applier : Option (Applier S)
  pub build_error : Option Error

abbrev pub shoot_done : ℕ → Option Error → List Error → Bool
shoot_done pending build_error errs =
    nat_eq pending 0 || is_none build_error && nat_eq (length errs) 0

abbrev pub force_delete : DualDeploymentOperator → Bool
force_delete cr = get_text force_delete_annotation cr.annotations == "true"

abbrev blocked_outcome : Option Error → Outcome
blocked_outcome none = record { requeue_after = 30; error = none }
blocked_outcome (some e) = record { requeue_after = 0; error = some e }

module _ {S : Type 0} ⦃k : Library⦄ where
  open k use {remove_finalizer, new_aggregate}

  -- The loop of `deleteRender`; CRDs stay under a retention policy that does not say Delete.
  unfoldable pub delete_loop :
      Applier S → DualDeploymentOperator → String → List ResourceStatus → M S (List Error)
  delete_loop applier cr owned_by [] = pure []
  delete_loop applier cr owned_by (rs ∷ statuses) = do
    failure ←
        (if is_retained_crd cr rs
          then pure none
          else applier.delete (manifest_from_status rs) owned_by)
    errs ← delete_loop applier cr owned_by statuses
    pure (add_error failure errs)

  unfoldable pub delete_render :
      Option (Applier S) → DualDeploymentOperator → String → List ResourceStatus → M S (List Error)
  unfolding delete_loop
  delete_render none cr owned_by statuses = pure []
  delete_render (some applier) cr owned_by statuses =
      delete_loop applier cr owned_by (sort_status_for_delete statuses)

  -- What building the shoot applier gave; a failure is recorded.
  unfoldable pub shoot_of :
      Reconciler S
      → DualDeploymentOperator
      → Result (Applier S)
      → M S (Shoot S × DualDeploymentOperator)
  unfolding record_shoot_unreachable
  shoot_of r cr (ok applier) = pure (record { applier = some applier; build_error = none }, cr)
  shoot_of r cr (err e) = do
    cr' ← record_shoot_unreachable r cr e
    pure (record { applier = none; build_error = some e }, cr')

  unfoldable pub shoot_for_deletion :
      Reconciler S → DualDeploymentOperator → ℕ → M S (Shoot S × DualDeploymentOperator)
  unfolding shoot_of build_shoot_applier_or_default
  shoot_for_deletion r cr pending =
      if ltb 0 pending
      then (do built ← build_shoot_applier_or_default r cr; shoot_of r cr built)
      else pure (record { applier = none; build_error = none }, cr)

  -- The deletes in the reverse of the apply order: the errors of the seed, and of the shoot.
  unfoldable pub delete_both :
      Reconciler S
      → DualDeploymentOperator
      → Option (Applier S)
      → String
      → M S (List Error × List Error)
  unfolding delete_render
  delete_both r cr shoot owned_by =
      let st = cr.status in
      if cr.spec.apply_order == "SeedFirst"
      then (do
        shoot_errs ← delete_render shoot cr owned_by st.shoot_resources
        seed_errs ← delete_render (some r.seed_applier) cr owned_by st.seed_resources
        pure (seed_errs, shoot_errs))
      else (do
        seed_errs ← delete_render (some r.seed_applier) cr owned_by st.seed_resources
        shoot_errs ← delete_render shoot cr owned_by st.shoot_resources
        pure (seed_errs, shoot_errs))

  unfoldable pub remove_finalizer_and_update : Reconciler S → DualDeploymentOperator → M S Outcome
  remove_finalizer_and_update r cr = do
    failure ← r.update (record cr { finalizers = remove_finalizer cr.finalizers finalizer_name })
    pure (record { requeue_after = 0; error = failure })

  -- The last switch when the shoot is not cleaned up: forced, or blocked.
  unfoldable pub conclude_incomplete :
      Reconciler S → DualDeploymentOperator → Option Error → M S Outcome
  unfolding remove_finalizer_and_update record_shoot_cleanup_force_deleted
      record_shoot_cleanup_blocked
  conclude_incomplete r cr cause =
      if force_delete cr
      then (do
        cr' ← record_shoot_cleanup_force_deleted r cr cause
        _ ← r.update_status cr'
        remove_finalizer_and_update r cr')
      else do
        cr' ← record_shoot_cleanup_blocked r cr cause
        failure ← r.update_status cr'
        pure (blocked_outcome failure)

  -- After the deletes: an error of the seed ends the attempt.
  unfoldable pub conclude :
      Reconciler S
      → DualDeploymentOperator
      → ℕ
      → Option Error
      → List Error × List Error
      → M S Outcome
  unfolding conclude_incomplete
  conclude r cr pending build_error (e ∷ seed_errs, shoot_errs) =
      pure (record { requeue_after = 0; error = new_aggregate (map some (e ∷ seed_errs)) })
  conclude r cr pending build_error ([], shoot_errs) =
      if shoot_done pending build_error shoot_errs
      then remove_finalizer_and_update r cr
      else conclude_incomplete r cr (new_aggregate (map some shoot_errs))

  unfoldable pub delete_and_conclude :
      Reconciler S → ℕ → Shoot S × DualDeploymentOperator → M S Outcome
  unfolding delete_both conclude
  delete_and_conclude r pending (shoot, cr) = do
    errs ← delete_both r cr shoot.applier (owned_by_value cr.namespace cr.name)
    conclude r cr pending shoot.build_error errs

  -- The part after the Deleting condition is written.
  unfoldable pub tear_down : Reconciler S → DualDeploymentOperator → M S Outcome
  unfolding shoot_for_deletion delete_and_conclude
  tear_down r cr = do
    let pending = deletable cr cr.status.shoot_resources
    shoot ← shoot_for_deletion r cr pending
    delete_and_conclude r pending shoot

  -- A status write that finds no object any more is no obstacle.
  unfoldable pub tear_down_after :
      Reconciler S → DualDeploymentOperator → Option Error → M S Outcome
  unfolding tear_down
  tear_down_after r cr none = tear_down r cr
  tear_down_after r cr (some e) =
      if is_not_found e then tear_down r cr else pure (record { requeue_after = 0; error = some e })

  unfoldable pub reconcile_delete : Reconciler S → DualDeploymentOperator → M S Outcome
  unfolding tear_down_after set_condition
  reconcile_delete r cr = do
    let cr' = set_condition cr reason_deleting "CR deletion in progress"
    failure ← r.update_status cr'
    tear_down_after r cr' failure
