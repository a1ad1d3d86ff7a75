-- ===== src/Controller/Reconcile/Complete.antt =====
-- A reconciliation that reports no error has applied both renders, or defers the seed.
use dual_deployment_operator.Base.{
  ◌≡◌, inl, inr, ◌⊎◌, true, false, ◌>>=◌, Keeps-bind, none, String, List, [], ◌∷◌, Bool-cases,
  Error, ok, Keeps, All, Option,
}
use dual_deployment_operator.Library.{Library, Documented}
use dual_deployment_operator.Api.{ResourceStatus, DualDeploymentOperator}
use dual_deployment_operator.Manifest.{Manifest}
use dual_deployment_operator.Deliver.Applier.{Applier}
use dual_deployment_operator.Deliver.Applier.Guard.{ApplierKeeps}
use dual_deployment_operator.Controller.Reconciler.{Reconciler}
use dual_deployment_operator.Controller.Conditions.{any_failed}
use dual_deployment_operator.Controller.Delivery.{AllApplied, apply_all, add_error}
use dual_deployment_operator.Controller.Delivery.Complete.{Applies, add_error-nil, apply_all-All}
use dual_deployment_operator.Controller.Reconcile.Calls.{
  CallsKeep, write_status-Keeps, all_applied, pruned,
}
use dual_deployment_operator.Controller.Reconcile.Results.{write_status_iff}
use dual_deployment_operator.Controller.Reconcile.{
  is_shoot_first, prune_applied, write_status, continue_with_seed, deliver_shoot_first,
  deliver_seed_first, deliver_with,
}

module _ {A : Type 0} where
  All-map : (P Q : A → Type 0) (xs : List A) → ((x : A) → P x → Q x) → All P xs → All Q xs
  All-map P Q [] h p = tt
  All-map P Q (x ∷ xs) h p = (h x p.0, All-map P Q xs h p.1)

-- Both renders are applied in the world.
abbrev pub BothApplied :
    {S : Type 0}
    → (Manifest → S → Type 0)
    → (Manifest → S → Type 0)
    → List Manifest
    → List Manifest
    → S
    → Type 0
BothApplied OnSeed OnShoot seed shoot s = All (λ m. OnSeed m s) seed × All (λ m. OnShoot m s) shoot

module _ {S : Type 0} ⦃k : Library⦄ (r : Reconciler S) (a : Applier S) (owned_by : String) where
  -- What a delivery brings about on each cluster, and what its calls keep of it.
  pub record Delivers (OnSeed OnShoot : Manifest → S → Type 0) : Type 0 where
    pub seed_applies : Applies OnSeed owned_by r.seed_applier
    pub shoot_applies : Applies OnShoot owned_by a
    pub seed_kept : (m : Manifest) → CallsKeep (OnSeed m) r owned_by
    pub shoot_kept : (m : Manifest) → CallsKeep (OnShoot m) r owned_by
    pub seed_by_shoot : (m : Manifest) → ApplierKeeps (OnSeed m) owned_by a
    pub shoot_by_shoot : (m : Manifest) → ApplierKeeps (OnShoot m) owned_by a

module _ {S : Type 0} ⦃k : Library⦄ (r : Reconciler S) (a : Applier S) (cr : DualDeploymentOperator)
    (owned_by : String) (P : S → Type 0) (calls : CallsKeep P r owned_by)
    (keeps : ApplierKeeps P owned_by a) (b applied : AllApplied) where
  -- What follows the applies under SeedFirst.
  seed_first_end-Keeps : Keeps P do
    dt ← prune_applied a cr owned_by cr.status.shoot_resources applied
    ds ← prune_applied r.seed_applier cr owned_by cr.status.seed_resources b
    write_status r cr ds.statuses dt.statuses
        (add_error b.error (add_error applied.error []))
        (dt.prune_error ∷ ds.prune_error ∷ [])
  seed_first_end-Keeps =
      Keeps-bind _ _ (pruned P r owned_by calls a cr cr.status.shoot_resources applied keeps) λ dt.
        Keeps-bind _ _
          (pruned P r owned_by calls r.seed_applier cr cr.status.seed_resources b calls.seed)
          λ ds.
            write_status-Keeps P r owned_by calls cr ds.statuses dt.statuses
              (add_error b.error (add_error applied.error []))
              (dt.prune_error ∷ ds.prune_error ∷ [])

  -- What follows them under ShootFirst.
  shoot_first_end-Keeps : Keeps P do
    ds ← prune_applied r.seed_applier cr owned_by cr.status.seed_resources b
    dt ← prune_applied a cr owned_by cr.status.shoot_resources applied
    write_status r cr ds.statuses dt.statuses
        (add_error applied.error (add_error b.error []))
        (ds.prune_error ∷ dt.prune_error ∷ [])
  shoot_first_end-Keeps =
      Keeps-bind _ _
        (pruned P r owned_by calls r.seed_applier cr cr.status.seed_resources b calls.seed)
        λ ds.
          Keeps-bind _ _ (pruned P r owned_by calls a cr cr.status.shoot_resources applied keeps)
            λ dt.
              write_status-Keeps P r owned_by calls cr ds.statuses dt.statuses
                (add_error applied.error (add_error b.error []))
                (ds.prune_error ∷ dt.prune_error ∷ [])

module _ {S : Type 0} ⦃k : Library⦄ (doc : Documented) (r : Reconciler S) (a : Applier S)
    (cr : DualDeploymentOperator) (owned_by : String) where
  written_without_error :
      (seed shoot : List ResourceStatus) (first second : Option Error)
      (prune_errs : List (Option Error)) (s : S)
      → (write_status r cr seed shoot (add_error first (add_error second [])) prune_errs s).0.error
        ≡ none
      → (first ≡ none) × (second ≡ none)
  written_without_error seed shoot first second prune_errs s h =
      let (_, _, _, _, _, _, iff, _) = write_status_iff doc r cr seed shoot _ prune_errs s in
      let split = add_error-nil first _ (iff.0 h).1 in
      (split.0, (add_error-nil second [] split.1).0)

  module _ (OnSeed OnShoot : Manifest → S → Type 0)
      (delivers : Delivers r a owned_by OnSeed OnShoot) (seed shoot : List Manifest) where
    applied_on_seed :
        (s : S)
        → (apply_all r.seed_applier seed owned_by s).0.error ≡ none
        → All (λ m. OnSeed m (apply_all r.seed_applier seed owned_by s).1) seed
    applied_on_seed s h =
        apply_all-All OnSeed r.seed_applier owned_by delivers.seed_applies
          (λ m. (delivers.seed_kept m).seed.apply) doc seed s h

    applied_on_shoot :
        (s : S)
        → (apply_all a shoot owned_by s).0.error ≡ none
        → All (λ m. OnShoot m (apply_all a shoot owned_by s).1) shoot
    applied_on_shoot s h =
        apply_all-All OnShoot a owned_by delivers.shoot_applies
          (λ m. (delivers.shoot_by_shoot m).apply) doc shoot s h

    -- Under SeedFirst.
    deliver_seed_first-BothApplied :
        (s : S)
        → (deliver_seed_first r a cr owned_by seed shoot s).0.error ≡ none
        → BothApplied OnSeed OnShoot seed shoot (deliver_seed_first r a cr owned_by seed shoot s).1
    unfolding deliver_seed_first
    deliver_seed_first-BothApplied s h =
        let (b, s1) = apply_all r.seed_applier seed owned_by s in
        let (applied, s2) = apply_all a shoot owned_by s1 in
        let (dt, s3) = prune_applied a cr owned_by cr.status.shoot_resources applied s2 in
        let (ds, s4) = prune_applied r.seed_applier cr owned_by cr.status.seed_resources b s3 in
        let split =
          written_without_error ds.statuses dt.statuses b.error applied.error
            (dt.prune_error ∷ ds.prune_error ∷ []) s4 h in
        (
          All-map _ _ seed
              (λ m p.
                (seed_first_end-Keeps r a cr owned_by (OnSeed m) (delivers.seed_kept m)
                    (delivers.seed_by_shoot m) b applied).at
                  _
                  ((all_applied (OnSeed m) r owned_by (delivers.seed_kept m) a shoot
                      (delivers.seed_by_shoot m)).at
                    _ p))
              (applied_on_seed s split.0),
          All-map _ _ shoot
              (λ m p.
                (seed_first_end-Keeps r a cr owned_by (OnShoot m) (delivers.shoot_kept m)
                    (delivers.shoot_by_shoot m) b applied).at
                  _ p)
              (applied_on_shoot s1 split.1),
        )

    -- Under ShootFirst, when no resource of the shoot has failed.
    deliver_shoot_first-BothApplied :
        (s : S)
        → any_failed (apply_all a shoot owned_by s).0.statuses ≡ false
        → (deliver_shoot_first r a cr owned_by seed shoot s).0.error ≡ none
        → BothApplied OnSeed OnShoot seed shoot (deliver_shoot_first r a cr owned_by seed shoot s).1
    unfolding deliver_shoot_first continue_with_seed
    deliver_shoot_first-BothApplied s e =
        let (applied, s1) = apply_all a shoot owned_by s in
        let (b, s2) = apply_all r.seed_applier seed owned_by s1 in
        let (ds, s3) = prune_applied r.seed_applier cr owned_by cr.status.seed_resources b s2 in
        let (dt, s4) = prune_applied a cr owned_by cr.status.shoot_resources applied s3 in
        rw (e, continue_with_seed)
          λ h.
            let split =
              written_without_error ds.statuses dt.statuses applied.error b.error
                (ds.prune_error ∷ dt.prune_error ∷ []) s4 h in
            (
              All-map _ _ seed
                  (λ m p.
                    (shoot_first_end-Keeps r a cr owned_by (OnSeed m) (delivers.seed_kept m)
                        (delivers.seed_by_shoot m) b applied).at
                      _ p)
                  (applied_on_seed s1 split.1),
              All-map _ _ shoot
                  (λ m p.
                    (shoot_first_end-Keeps r a cr owned_by (OnShoot m) (delivers.shoot_kept m)
                        (delivers.shoot_by_shoot m) b applied).at
                      _
                      ((all_applied (OnShoot m) r owned_by (delivers.shoot_kept m) r.seed_applier
                          seed (delivers.shoot_kept m).seed).at
                        _ p))
                  (applied_on_shoot s split.0),
            )

    -- If the library behaves as documented, a delivery to both clusters that reports no error has
    -- applied every manifest of both renders, unless the order is ShootFirst and a resource of the
    -- shoot has failed. That a manifest is applied on a cluster is any property of the world that a
    -- call of `Apply` without an error brings about, and that no other call of a delivery undoes.
    pub deliver_with-BothApplied :
        (s : S)
        → (deliver_with r cr owned_by seed shoot (ok a) s).0.error ≡ none
        → BothApplied OnSeed OnShoot seed shoot (deliver_with r cr owned_by seed shoot (ok a) s).1
          ⊎ ((is_shoot_first cr ≡ true)
              × (any_failed (apply_all a shoot owned_by s).0.statuses ≡ true))
    unfolding deliver_with
    deliver_with-BothApplied s = elim (Bool-cases (is_shoot_first cr)) [
      | inl first ↦ elim (Bool-cases (any_failed (apply_all a shoot owned_by s).0.statuses)) [
        | inl failed ↦ λ h. inr (first, failed)
        | inr e ↦ rw (first, deliver_with) λ h. inl (deliver_shoot_first-BothApplied s e h)
      ]
      | inr second ↦ rw (second, deliver_with) λ h. inl (deliver_seed_first-BothApplied s h)
    ]
