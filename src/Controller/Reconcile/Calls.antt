-- ===== src/Controller/Reconcile/Calls.antt =====
-- The calls that a delivery makes, on every path through it.
use dual_deployment_operator.Base.{
  ◌≡◌, refl, inl, inr, ℕ, String, false, Option, List, [], ◌∷◌, Error, Result, ok, err, Keeps,
  Keeps-bind, Bool-cases,
}
use dual_deployment_operator.Library.{Library}
use dual_deployment_operator.Api.{ResourceStatus, DualDeploymentOperator}
use dual_deployment_operator.Manifest.{Manifest}
use dual_deployment_operator.Deliver.Applier.{Applier}
use dual_deployment_operator.Deliver.Applier.Guard.{ApplierKeeps}
use dual_deployment_operator.Controller.Reconciler.{
  Reconciler, event, build_shoot_applier_or_default, err_status, finish_not_ready,
  is_credentials_not_ready,
}
use dual_deployment_operator.Controller.Conditions.{any_failed}
use dual_deployment_operator.Controller.Delivery.{AllApplied, apply_all, add_error}
use dual_deployment_operator.Controller.Delivery.Accounting.{apply_all-Keeps}
use dual_deployment_operator.Controller.Render.{render_both}
use dual_deployment_operator.Controller.Deletion.Finalizer.{OthersKeep}
use dual_deployment_operator.Controller.Reconcile.Gating.{
  SeedKept, All-const, prune_applied-Keeps, defer_seed-Keeps,
}
use dual_deployment_operator.Controller.Reconcile.{
  is_shoot_first, prune_applied, apply_and_prune, seed_without_shoot, finish_without_shoot,
  deliver_without_shoot, write_status, continue_with_seed, deliver_shoot_first, deliver_seed_first,
  deliver_with,
}

-- Every call that a reconciliation of a custom resource with the owner value `owned_by` may make
-- keeps `P`.
pub record CallsKeep {S : Type 0} ⦃k : Library⦄ (P : S → Type 0) (r : Reconciler S)
    (owned_by : String) : Type 0 where
  pub update : (cr : DualDeploymentOperator) → Keeps P (r.update cr)
  pub status : (cr : DualDeploymentOperator) → Keeps P (r.update_status cr)
  pub now : Keeps P r.now
  pub event : (reason note : String) → Keeps P (event r reason note)
  pub build : (cr : DualDeploymentOperator) → Keeps P (build_shoot_applier_or_default r cr)
  pub render : (cr : DualDeploymentOperator) → Keeps P (render_both r cr)
  pub seed : ApplierKeeps P owned_by r.seed_applier
  pub shoot :
      (cr : DualDeploymentOperator) (s : S) (a : Applier S)
      → (build_shoot_applier_or_default r cr s).0 ≡ ok a
      → ApplierKeeps P owned_by a

module _ {S : Type 0} ⦃k : Library⦄ (P : S → Type 0) (r : Reconciler S) (owned_by : String)
    (calls : CallsKeep P r owned_by) where
  pub others_keep : OthersKeep P r owned_by
  others_keep = record {
    status = calls.status;
    event = calls.event;
    build = calls.build;
    seed = calls.seed.delete;
    shoot = λ cr s a built. (calls.shoot cr s a built).delete;
  }

  seed_kept : (cr : DualDeploymentOperator) → SeedKept P r cr
  seed_kept cr = record { now = calls.now; write = λ cr' same. calls.status cr' }

  finish_not_ready-Keeps :
      (cr : DualDeploymentOperator) (seed shoot : List ResourceStatus) (backoff : ℕ)
      → Keeps P (finish_not_ready r cr seed shoot backoff)
  unfolding finish_not_ready
  finish_not_ready-Keeps cr seed shoot backoff = record {
    at = λ s p. (calls.status _).at _ (calls.now.at s p);
  }

  pub err_status-Keeps :
      (cr : DualDeploymentOperator) (reason : String) (e : Error)
      → Keeps P (err_status r cr reason e)
  unfolding err_status
  err_status-Keeps cr reason e = record { at = λ s p. (calls.status _).at _ (calls.now.at s p) }

  pub write_status-Keeps :
      (cr : DualDeploymentOperator) (seed shoot : List ResourceStatus) (apply_errs : List Error)
      (prune_errs : List (Option Error))
      → Keeps P (write_status r cr seed shoot apply_errs prune_errs)
  unfolding write_status
  write_status-Keeps cr seed shoot apply_errs prune_errs = record {
    at = λ s p. (calls.status _).at _ (calls.now.at s p);
  }

  pub all_applied :
      (a : Applier S) (ms : List Manifest)
      → ApplierKeeps P owned_by a
      → Keeps P (apply_all a ms owned_by)
  all_applied a ms keeps = apply_all-Keeps P a ms owned_by (All-const _ ms keeps.apply)

  pub pruned :
      (a : Applier S) (cr : DualDeploymentOperator) (prev : List ResourceStatus)
      (applied : AllApplied)
      → ApplierKeeps P owned_by a
      → Keeps P (prune_applied a cr owned_by prev applied)
  pruned a cr prev applied keeps = prune_applied-Keeps P r cr a owned_by prev applied keeps

  finish_without_shoot-Keeps :
      (cr : DualDeploymentOperator) (seed_out : List ResourceStatus) (shoot_err : Error)
      → Keeps P (finish_without_shoot r cr seed_out shoot_err)
  unfolding finish_without_shoot
  finish_without_shoot-Keeps cr seed_out shoot_err =
      elim (Bool-cases (is_credentials_not_ready shoot_err)) [
        | inl e ↦
            rw (e, finish_without_shoot)
              (record { at = λ s p. (calls.status _).at _ (calls.now.at s p) })
        | inr e ↦
            rw (e, finish_without_shoot)
              (record { at = λ s p. (calls.status _).at _ (calls.now.at s p) })
      ]

  apply_and_prune-Keeps :
      (a : Applier S) (cr : DualDeploymentOperator) (prev : List ResourceStatus)
      (ms : List Manifest)
      → ApplierKeeps P owned_by a
      → Keeps P (apply_and_prune a cr owned_by prev ms)
  unfolding apply_and_prune
  apply_and_prune-Keeps a cr prev ms keeps =
      Keeps-bind _ _ (all_applied a ms keeps) λ applied. pruned a cr prev applied keeps

  seed_without_shoot-Keeps :
      (cr : DualDeploymentOperator) (seed : List Manifest)
      → Keeps P (seed_without_shoot r cr owned_by seed)
  unfolding seed_without_shoot
  seed_without_shoot-Keeps cr seed = record {
    at = λ s p. elim (Bool-cases (is_shoot_first cr)) [
      | inl e ↦ rw (e, seed_without_shoot) p
      | inr e ↦
          rw (e, seed_without_shoot)
            ((apply_and_prune-Keeps r.seed_applier cr cr.status.seed_resources seed calls.seed).at s
              p)
    ];
  }

  deliver_without_shoot_all :
      (cr : DualDeploymentOperator) (seed : List Manifest) (shoot_err : Error)
      → Keeps P (deliver_without_shoot r cr owned_by seed shoot_err)
  unfolding deliver_without_shoot
  deliver_without_shoot_all cr seed shoot_err = record {
    at = λ s p.
        (finish_without_shoot-Keeps cr _ shoot_err).at _
          ((seed_without_shoot-Keeps cr seed).at s p);
  }

  -- The seed is applied, and both clusters are pruned.
  seed_continued-Keeps :
      (a : Applier S) (cr : DualDeploymentOperator) (seed : List Manifest) (applied : AllApplied)
      (s : S)
      → ApplierKeeps P owned_by a
      → any_failed applied.statuses ≡ false
      → P s
      → P (continue_with_seed r a cr owned_by seed applied s).1
  unfolding continue_with_seed
  seed_continued-Keeps a cr seed applied s keeps e p =
      let (b, s1) = apply_all r.seed_applier seed owned_by s in
      let (ds, s2) = prune_applied r.seed_applier cr owned_by cr.status.seed_resources b s1 in
      let (dt, s3) = prune_applied a cr owned_by cr.status.shoot_resources applied s2 in
      let p1 = (all_applied r.seed_applier seed calls.seed).at s p in
      let p2 = (pruned r.seed_applier cr cr.status.seed_resources b calls.seed).at s1 p1 in
      let p3 = (pruned a cr cr.status.shoot_resources applied keeps).at s2 p2 in
      rw (e, continue_with_seed)
        ((write_status-Keeps cr ds.statuses dt.statuses
            (add_error applied.error (add_error b.error []))
            (ds.prune_error ∷ dt.prune_error ∷ [])).at
          s3 p3)

  continue_with_seed-Keeps :
      (a : Applier S) (cr : DualDeploymentOperator) (seed : List Manifest) (applied : AllApplied)
      → ApplierKeeps P owned_by a
      → Keeps P (continue_with_seed r a cr owned_by seed applied)
  unfolding continue_with_seed
  continue_with_seed-Keeps a cr seed applied keeps = record {
    at = λ s p. elim (Bool-cases (any_failed applied.statuses)) [
      | inl e ↦
          rw (e, continue_with_seed)
            ((defer_seed-Keeps P r cr a owned_by applied keeps (seed_kept cr)).at s p)
      | inr e ↦ seed_continued-Keeps a cr seed applied s keeps e p
    ];
  }

  deliver_shoot_first_all :
      (a : Applier S) (cr : DualDeploymentOperator) (seed shoot : List Manifest)
      → ApplierKeeps P owned_by a
      → Keeps P (deliver_shoot_first r a cr owned_by seed shoot)
  unfolding deliver_shoot_first
  deliver_shoot_first_all a cr seed shoot keeps = record {
    at = λ s p.
        (continue_with_seed-Keeps a cr seed _ keeps).at _ ((all_applied a shoot keeps).at s p);
  }

  deliver_seed_first-Keeps :
      (a : Applier S) (cr : DualDeploymentOperator) (seed shoot : List Manifest)
      → ApplierKeeps P owned_by a
      → Keeps P (deliver_seed_first r a cr owned_by seed shoot)
  unfolding deliver_seed_first
  deliver_seed_first-Keeps a cr seed shoot keeps =
      Keeps-bind _ _ (all_applied r.seed_applier seed calls.seed) λ b.
        Keeps-bind _ _ (all_applied a shoot keeps) λ applied.
          Keeps-bind _ _ (pruned a cr cr.status.shoot_resources applied keeps) λ dt.
            Keeps-bind _ _ (pruned r.seed_applier cr cr.status.seed_resources b calls.seed) λ ds.
              write_status-Keeps cr ds.statuses dt.statuses
                (add_error b.error (add_error applied.error []))
                (dt.prune_error ∷ ds.prune_error ∷ [])

  pub deliver_with-Keeps :
      (cr : DualDeploymentOperator) (seed shoot : List Manifest) (built : Result (Applier S))
      → ((a : Applier S) → built ≡ ok a → ApplierKeeps P owned_by a)
      → Keeps P (deliver_with r cr owned_by seed shoot built)
  unfolding deliver_with
  deliver_with-Keeps cr seed shoot (err e) h = record {
    at = (deliver_without_shoot_all cr seed e).at;
  }
  deliver_with-Keeps cr seed shoot (ok a) h = record {
    at = λ s p. elim (Bool-cases (is_shoot_first cr)) [
      | inl e ↦ rw (e, deliver_with) ((deliver_shoot_first_all a cr seed shoot (h a refl)).at s p)
      | inr e ↦ rw (e, deliver_with) ((deliver_seed_first-Keeps a cr seed shoot (h a refl)).at s p)
    ];
  }
