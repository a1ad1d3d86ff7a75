-- ===== src/Controller/Reconcile/Results.antt =====
-- What a reconciliation that has delivered to both clusters writes and returns.
use dual_deployment_operator.Base.{
  ◌≡◌, refl, ◌↔◌, Option, none, some, List, [], ◌∷◌, ◌++◌, Error, All, map,
}
use dual_deployment_operator.Library.{Library, Documented, find_condition}
use dual_deployment_operator.Api.{ResourceStatus, DualDeploymentOperator, Condition}
use dual_deployment_operator.Controller.Reconciler.{Reconciler, requeue_interval, with_status}
use dual_deployment_operator.Controller.Conditions.{compute_conditions}
use dual_deployment_operator.Controller.Reconcile.{ready_outcome, write_status}

abbrev AllNone : List (Option Error) → Type 0
AllNone = All (λ e. e ≡ none)

AllNone-append_iff :
    (errs : List Error) (last : Option Error)
    → AllNone (map some errs ++ last ∷ []) ↔ ((errs ≡ []) × (last ≡ none))
AllNone-append_iff [] last = (λ h. (refl, h.0), λ h. (h.1, tt))
AllNone-append_iff (e ∷ errs) last = (λ h. cc, λ h. cc)

ready_outcome_iff :
    (failure reconcile_error : Option Error)
    → ((ready_outcome failure reconcile_error).error ≡ none)
      ↔ ((failure ≡ none) × (reconcile_error ≡ none))
ready_outcome_iff (some e) reconcile_error = (λ h. cc, λ h. cc)
ready_outcome_iff none (some e) = (λ h. cc, λ h. cc)
ready_outcome_iff none none = (λ h. (refl, refl), λ h. refl)

ready_outcome-requeue :
    (failure reconcile_error : Option Error)
    → (ready_outcome failure reconcile_error).error ≡ none
    → (ready_outcome failure reconcile_error).requeue_after ≡ requeue_interval
ready_outcome-requeue (some e) reconcile_error h = cc
ready_outcome-requeue none (some e) h = cc
ready_outcome-requeue none none h = refl

module _ (cr : DualDeploymentOperator) (seed shoot : List ResourceStatus) where
  -- The Ready condition of both inventories, for the generation that was reconciled.
  abbrev pub ready_condition : Condition
  ready_condition = record (compute_conditions seed shoot) { observed_generation = cr.generation }

module _ {S : Type 0} ⦃k : Library⦄ (doc : Documented) (r : Reconciler S)
    (cr : DualDeploymentOperator) (seed shoot : List ResourceStatus) where
  -- If the library behaves as documented, the last call writes a status with both inventories, the
  -- time, and the Ready condition of these inventories. There is no error if and only if this
  -- write, every apply and every prune has succeeded, and then the next run is due after ten
  -- minutes.
  pub write_status_iff :
      (apply_errs : List Error) (prune_errs : List (Option Error)) (s : S)
      → (cr' : DualDeploymentOperator) × (cr'.status.seed_resources ≡ seed)
        × (cr'.status.shoot_resources ≡ shoot)
        × (cr'.status.last_reconcile ≡ some (r.now s).0)
        × (find_condition (ready_condition cr seed shoot).type cr'.status.conditions
            ≡ some (ready_condition cr seed shoot))
        × ((write_status r cr seed shoot apply_errs prune_errs s).1
            ≡ (r.update_status cr' (r.now s).1).1)
        × (((write_status r cr seed shoot apply_errs prune_errs s).0.error ≡ none) ↔ (
            ((r.update_status cr' (r.now s).1).0 ≡ none)
            × (apply_errs ≡ [])
            × All (λ e. e ≡ none) prune_errs))
        × ((write_status r cr seed shoot apply_errs prune_errs s).0.error ≡ none
            → (write_status r cr seed shoot apply_errs prune_errs s).0.requeue_after ≡ 600)
  unfolding write_status
  write_status_iff apply_errs prune_errs s = (
    cr',
    refl,
    refl,
    refl,
    doc.condition_set cr.status.conditions (ready_condition cr seed shoot),
    refl,
    (
      λ h.
          let split = (ready_outcome_iff failure total).0 h in
          let parts =
            (AllNone-append_iff apply_errs (k.new_aggregate prune_errs)).0
              ((doc.aggregate_none _).0 split.1) in
          (split.0, parts.0, (doc.aggregate_none prune_errs).0 parts.1),
      λ h. (ready_outcome_iff failure total).1 (
        h.0,
        (doc.aggregate_none _).1 (
            (AllNone-append_iff apply_errs (k.new_aggregate prune_errs)).1
              (h.1, (doc.aggregate_none prune_errs).1 h.2)),
      ),
    ),
    ready_outcome-requeue failure total,
  )
    where
      cr' : DualDeploymentOperator
      cr' = with_status cr (record (cr.status) {
        seed_resources = seed;
        shoot_resources = shoot;
        conditions = k.set_status_condition cr.status.conditions (ready_condition cr seed shoot);
        last_reconcile = some (r.now s).0;
      })

      failure : Option Error
      failure = (r.update_status cr' (r.now s).1).0

      total : Option Error
      total = k.new_aggregate (map some apply_errs ++ k.new_aggregate prune_errs ∷ [])
