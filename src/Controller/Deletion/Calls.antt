-- ===== src/Controller/Deletion/Calls.antt =====
-- The calls that a deletion makes, on every path through it.
use dual_deployment_operator.Base.{
  ◌≡◌, refl, inl, inr, Option, none, some, List, [], ◌∷◌, Error, Keeps, Keeps-pure, Bool-cases,
  subst, is_not_found, ℕ,
}
use dual_deployment_operator.Library.{Library}
use dual_deployment_operator.Api.{DualDeploymentOperator}
use dual_deployment_operator.Manifest.{owned_by_value}
use dual_deployment_operator.Controller.Reconciler.{Reconciler, set_condition}
use dual_deployment_operator.Controller.Cleanup.{
  record_shoot_cleanup_blocked, record_shoot_cleanup_force_deleted,
}
use dual_deployment_operator.Controller.Deletion.{
  shoot_done, force_delete, delete_both, remove_finalizer_and_update, conclude_incomplete, conclude,
  delete_and_conclude, tear_down, tear_down_after, reconcile_delete,
}
use dual_deployment_operator.Controller.Deletion.Finalizer.{
  OthersKeep, pending, prepared, delete_both-Keeps, shoot_for_deletion-IsPrepared,
}

module _ {S : Type 0} ⦃k : Library⦄ (P : S → Type 0) (r : Reconciler S) where
  -- The calls for one custom resource, but its updates, keep `P`, and so do all updates.
  abbrev OthersKeepFor : DualDeploymentOperator → Type 0
  OthersKeepFor cr = OthersKeep P r (owned_by_value cr.namespace cr.name)

  abbrev UpdatesKeep : Type 0
  UpdatesKeep = (cr : DualDeploymentOperator) → Keeps P (r.update cr)

  conclude_incomplete-Keeps :
      (cr : DualDeploymentOperator) (cause : Option Error)
      → OthersKeepFor cr
      → UpdatesKeep
      → Keeps P (conclude_incomplete r cr cause)
  unfolding conclude_incomplete record_shoot_cleanup_blocked record_shoot_cleanup_force_deleted
      remove_finalizer_and_update
  conclude_incomplete-Keeps cr cause others update = elim (Bool-cases (force_delete cr)) [
    | inl e ↦
        rw (e, conclude_incomplete)
          (record {
            at = λ s p. (update _).at _ ((others.status _).at _ ((others.event _ _).at s p));
          })
    | inr e ↦
        rw (e, conclude_incomplete)
          (record { at = λ s p. (others.status _).at _ ((others.event _ _).at s p) })
  ]

  conclude-Keeps :
      (cr : DualDeploymentOperator) (n : ℕ) (build_error : Option Error)
      (errs : List Error × List Error)
      → OthersKeepFor cr
      → UpdatesKeep
      → Keeps P (conclude r cr n build_error errs)
  unfolding conclude remove_finalizer_and_update
  conclude-Keeps cr n build_error (e ∷ seed_errs, shoot_errs) others update = Keeps-pure _
  conclude-Keeps cr n build_error ([], shoot_errs) others update =
      elim (Bool-cases (shoot_done n build_error shoot_errs)) [
        | inl e ↦ rw (e, conclude) (record { at = λ s p. (update _).at s p })
        | inr e ↦
            rw (e, conclude) (record { at = (conclude_incomplete-Keeps cr _ others update).at })
      ]

  tear_down-Keeps :
      (cr : DualDeploymentOperator) → OthersKeepFor cr → UpdatesKeep → Keeps P (tear_down r cr)
  unfolding tear_down delete_and_conclude
  tear_down-Keeps cr others update = record {
    at = λ s p.
        let owner = owned_by_value cr.namespace cr.name in
        let ready = shoot_for_deletion-IsPrepared P r owner others cr (pending r cr) s p in
        let ((shoot, cr'), s1) = prepared r cr s in
        let same : owner ≡ owned_by_value cr'.namespace cr'.name =
          rw (ready.same_namespace, ready.same_name) refl in
        let owner' = owned_by_value cr'.namespace cr'.name in
        let (errs, s2) = delete_both r cr' shoot.applier owner' s1 in
        let p2 =
          subst (λ o. P (delete_both r cr' shoot.applier o s1).1) same
            ((delete_both-Keeps P r owner others cr' shoot.applier ready.deletes).at s1
              ready.kept) in
        (conclude-Keeps cr' (pending r cr) shoot.build_error errs
            (subst (OthersKeep P r) same others) update).at
          s2 p2;
  }

  tear_down_after-Keeps :
      (cr : DualDeploymentOperator) (failure : Option Error)
      → OthersKeepFor cr
      → UpdatesKeep
      → Keeps P (tear_down_after r cr failure)
  unfolding tear_down_after
  tear_down_after-Keeps cr none others update = record {
    at = (tear_down-Keeps cr others update).at;
  }
  tear_down_after-Keeps cr (some e) others update = elim (Bool-cases (is_not_found e)) [
    | inl gone ↦ rw (gone, tear_down_after) (record { at = (tear_down-Keeps cr others update).at })
    | inr other ↦ rw (other, tear_down_after) (record { at = λ s p. p })
  ]

  -- A deletion makes no other call than status writes, events, the build of the shoot applier,
  -- deletes through the appliers with the custom resource's own owner value, and the update of the
  -- custom resource: what these keep, it keeps.
  pub reconcile_delete-Keeps :
      (cr : DualDeploymentOperator)
      → OthersKeepFor cr
      → UpdatesKeep
      → Keeps P (reconcile_delete r cr)
  unfolding reconcile_delete set_condition
  reconcile_delete-Keeps cr others update = record {
    at = λ s p. (tear_down_after-Keeps _ _ others update).at _ ((others.status _).at s p);
  }
