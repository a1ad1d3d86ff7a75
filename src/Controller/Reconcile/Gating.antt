-- ===== src/Controller/Reconcile/Gating.antt =====
-- What a reconciliation may touch: the seed waits for the shoot under ShootFirst, and no cluster is
-- touched when a render fails.
use dual_deployment_operator.Base.{
  ◌≡◌, refl, inl, inr, String, true, some, List, [], ◌∷◌, arith, Error, Keeps, Bool-cases, All,
}
use dual_deployment_operator.Library.{Library}
use dual_deployment_operator.Api.{ResourceStatus, DualDeploymentOperator, Status}
use dual_deployment_operator.Manifest.{Manifest}
use dual_deployment_operator.Deliver.Order.{manifest_from_status}
use dual_deployment_operator.Deliver.Applier.{Applier}
use dual_deployment_operator.Deliver.Applier.Guard.{ApplierKeeps}
use dual_deployment_operator.Controller.Reconciler.{
  Reconciler, err_status, is_credentials_not_ready,
}
use dual_deployment_operator.Controller.Conditions.{any_failed}
use dual_deployment_operator.Controller.Delivery.{AllApplied, apply_all}
use dual_deployment_operator.Controller.Delivery.Accounting.{apply_all-Keeps}
use dual_deployment_operator.Controller.Prune.Safety.{prune-Keeps}
use dual_deployment_operator.Controller.Reconcile.{
  is_shoot_first, prune_applied, finish_without_shoot, continue_with_seed, deliver_without_shoot,
  defer_seed, deliver_shoot_first, deliver_rendered, render_and_deliver,
}
use dual_deployment_operator.Controller.Render.{Rendered, rendered, failed, render_both}

-- The inventories of two statuses are the same.
pub record SameInventory (s t : Status) : Type 0 where
  pub seed : s.seed_resources ≡ t.seed_resources
  pub shoot : s.shoot_resources ≡ t.shoot_resources

-- The clock keeps `P`, and so does a status write that leaves the inventory of the seed.
pub record SeedKept {S : Type 0} (P : S → Type 0) (r : Reconciler S) (cr : DualDeploymentOperator)
    : Type 0 where
  pub now : Keeps P r.now
  pub write :
      (cr' : DualDeploymentOperator)
      → cr'.status.seed_resources ≡ cr.status.seed_resources
      → Keeps P (r.update_status cr')

pub All-const {ℓ} : {A : Type 0} (P : A → Type ℓ) (xs : List A) → ((x : A) → P x) → All P xs
All-const P [] f = tt
All-const P (x ∷ xs) f = (f x, All-const P xs f)

module _ {S : Type 0} ⦃k : Library⦄ (P : S → Type 0) (r : Reconciler S)
    (cr : DualDeploymentOperator) where
  finish_without_shoot-Keeps :
      (shoot_err : Error)
      → SeedKept P r cr
      → Keeps P (finish_without_shoot r cr cr.status.seed_resources shoot_err)
  unfolding finish_without_shoot
  finish_without_shoot-Keeps shoot_err kept =
      elim (Bool-cases (is_credentials_not_ready shoot_err)) [
        | inl e ↦
            rw (e, finish_without_shoot)
              (record { at = λ s p. (kept.write _ refl).at _ (kept.now.at s p) })
        | inr e ↦
            rw (e, finish_without_shoot)
              (record { at = λ s p. (kept.write _ refl).at _ (kept.now.at s p) })
      ]

  -- ShootFirst with a shoot that cannot be reached, for missing credentials or any other reason:
  -- the seed is not called at all, and the status that is written has the seed's inventory as it was.
  pub deliver_without_shoot-Keeps :
      (owned_by : String) (seed : List Manifest) (shoot_err : Error)
      → is_shoot_first cr ≡ true
      → SeedKept P r cr
      → Keeps P (deliver_without_shoot r cr owned_by seed shoot_err)
  unfolding deliver_without_shoot
  deliver_without_shoot-Keeps owned_by seed shoot_err first kept =
      rw (first, deliver_without_shoot)
        (record { at = (finish_without_shoot-Keeps shoot_err kept).at })

  pub prune_applied-Keeps :
      (a : Applier S) (owned_by : String) (prev : List ResourceStatus) (applied : AllApplied)
      → ApplierKeeps P owned_by a
      → Keeps P (prune_applied a cr owned_by prev applied)
  unfolding prune_applied
  prune_applied-Keeps a owned_by prev applied keeps = record {
    at =
        (prune-Keeps P a prev applied.manifests cr owned_by (
          All-const _ prev λ rs _. record {
            get = keeps.get (manifest_from_status rs);
            delete = keeps.delete (manifest_from_status rs);
          })).at;
  }

  pub defer_seed-Keeps :
      (a : Applier S) (owned_by : String) (applied : AllApplied)
      → ApplierKeeps P owned_by a
      → SeedKept P r cr
      → Keeps P (defer_seed r a cr owned_by applied)
  unfolding defer_seed
  defer_seed-Keeps a owned_by applied keeps kept = record {
    at = λ s p. (kept.write _ refl).at _ (
        kept.now.at _
          ((prune_applied-Keeps a owned_by cr.status.shoot_resources applied keeps).at s p));
  }

  -- ShootFirst: if some resource of the shoot render is Degraded after it was applied, the seed is
  -- not called at all, and the status that is written has the seed's inventory as it was.
  pub deliver_shoot_first-Keeps :
      (a : Applier S) (owned_by : String) (seed shoot : List Manifest) (s : S)
      → any_failed (apply_all a shoot owned_by s).0.statuses ≡ true
      → ApplierKeeps P owned_by a
      → SeedKept P r cr
      → P s
      → P (deliver_shoot_first r a cr owned_by seed shoot s).1
  unfolding deliver_shoot_first
  deliver_shoot_first-Keeps a owned_by seed shoot s degraded keeps kept p =
      let applied = (apply_all-Keeps P a shoot owned_by (All-const _ shoot keeps.apply)).at s p in
      rw (degraded, continue_with_seed)
        ((defer_seed-Keeps a owned_by (apply_all a shoot owned_by s).0 keeps kept).at _ applied)

  deliver_rendered-failed :
      (both : Rendered) (s : S) (reason : String) (e : Error)
      → both ≡ failed reason e
      → Keeps P r.now
      → ((cr' : DualDeploymentOperator)
          → SameInventory cr'.status cr.status
          → Keeps P (r.update_status cr'))
      → P s
      → P (deliver_rendered r cr both s).1 × ((deliver_rendered r cr both s).0.error ≡ some e)
  unfolding deliver_rendered err_status
  deliver_rendered-failed (rendered seed shoot) s reason e h now write p = cc
  deliver_rendered-failed (failed reason' e') s reason e h now write p =
      ((write _ (record { seed = refl; shoot = refl })).at _ (now.at s p), ground arith)

  -- If a source, a render or a transformation fails, no cluster is called: what the renders keep,
  -- and the clock, and status writes that leave both inventories, the reconciliation keeps. Its
  -- outcome is the error of the step that failed.
  pub render_and_deliver-failed :
      (s : S) (reason : String) (e : Error)
      → (render_both r cr s).0 ≡ failed reason e
      → Keeps P (render_both r cr)
      → Keeps P r.now
      → ((cr' : DualDeploymentOperator)
          → SameInventory cr'.status cr.status
          → Keeps P (r.update_status cr'))
      → P s
      → P (render_and_deliver r cr s).1 × ((render_and_deliver r cr s).0.error ≡ some e)
  unfolding render_and_deliver
  render_and_deliver-failed s reason e stopped renders now write p =
      deliver_rendered-failed (render_both r cr s).0 _ reason e stopped now write (renders.at s p)
