-- ===== src/Controller/Deletion/Release.antt =====
-- When a deletion takes the finalizer off.
use dual_deployment_operator.Base.{
  ℕ, String, subst, ◌≡◌, refl, ◌⊎◌, inl, inr, true, false, Option, List, [], ◌∷◌, Error, Result, ok,
  err, ◌==◌, Bool-cases, ltb, ap, ◌∙◌,
}
use dual_deployment_operator.Json.{get_text, StringMap}
use dual_deployment_operator.Library.{Library, Documented}
use dual_deployment_operator.Api.{DualDeploymentOperator}
use dual_deployment_operator.Deliver.Applier.{Applier}
use dual_deployment_operator.Controller.Reconciler.{
  Reconciler, Outcome, finalizer_name, force_delete_annotation, set_condition,
}
use dual_deployment_operator.Controller.Deletion.{
  shoot_done, force_delete, shoot_of, shoot_for_deletion, remove_finalizer_and_update,
  conclude_incomplete, conclude, delete_and_conclude, tear_down,
}
use dual_deployment_operator.Controller.Cleanup.{
  record_shoot_unreachable, record_shoot_cleanup_force_deleted,
}
use dual_deployment_operator.Controller.Deletion.Finalizer.{pending, prepared, deleted, MayRelease}

-- What a deletion reads of the custom resource itself.
abbrev marks : DualDeploymentOperator → StringMap × String × String
marks cr = (cr.annotations, cr.namespace, cr.name)

module _ {S : Type 0} ⦃k : Library⦄ (doc : Documented) (r : Reconciler S) where
  -- The last call was an update of the custom resource of this name without the finalizer, and its
  -- error is the outcome's.
  abbrev pub IsReleased : String → String → Outcome × S → Type 0
  IsReleased namespace name x =
      (cr : DualDeploymentOperator) × (s : S) × (cr.namespace ≡ namespace)
      × (cr.name ≡ name)
      × (k.contains_finalizer cr.finalizers finalizer_name ≡ false)
      × (x ≡ (record { requeue_after = 0; error = (r.update cr s).0 }, (r.update cr s).1))

  remove_finalizer-IsReleased :
      (cr : DualDeploymentOperator) (s : S)
      → IsReleased cr.namespace cr.name (remove_finalizer_and_update r cr s)
  unfolding remove_finalizer_and_update
  remove_finalizer-IsReleased cr s = (
    record cr { finalizers = k.remove_finalizer cr.finalizers finalizer_name },
    s,
    refl,
    refl,
    doc.finalizer_removed cr.finalizers finalizer_name,
    refl,
  )

  conclude-IsReleased :
      (cr : DualDeploymentOperator) (n : ℕ) (build_error : Option Error)
      (seed_errs shoot_errs : List Error) (s : S)
      → seed_errs ≡ []
      → (shoot_done n build_error shoot_errs ≡ true) ⊎ (force_delete cr ≡ true)
      → IsReleased cr.namespace cr.name (conclude r cr n build_error (seed_errs, shoot_errs) s)
  unfolding conclude conclude_incomplete record_shoot_cleanup_force_deleted
  conclude-IsReleased cr n build_error (e ∷ seed_errs) shoot_errs s clean h = cc
  conclude-IsReleased cr n build_error [] shoot_errs s clean (inl complete) =
      rw (complete, conclude) (remove_finalizer-IsReleased cr s)
  conclude-IsReleased cr n build_error [] shoot_errs s clean (inr forced) =
      elim (Bool-cases (shoot_done n build_error shoot_errs)) [
        | inl complete ↦ rw (complete, conclude) (remove_finalizer-IsReleased cr s)
        | inr incomplete ↦
            rw (incomplete, conclude)
              (rw (forced, conclude_incomplete) (remove_finalizer-IsReleased _ _))
      ]

  shoot_of-marks :
      (cr : DualDeploymentOperator) (s : S) (built : Result (Applier S))
      → marks (shoot_of r cr built s).0.1 ≡ marks cr
  unfolding shoot_of record_shoot_unreachable set_condition
  shoot_of-marks cr s (ok a) = refl
  shoot_of-marks cr s (err e) = refl

  shoot_for_deletion-marks :
      (cr : DualDeploymentOperator) (n : ℕ) (s : S)
      → marks (shoot_for_deletion r cr n s).0.1 ≡ marks cr
  unfolding shoot_for_deletion
  shoot_for_deletion-marks cr n s = elim (Bool-cases (ltb 0 n)) [
    | inl e ↦ rw (e, shoot_for_deletion) (shoot_of-marks cr _ _)
    | inr e ↦ rw (e, shoot_for_deletion)
  ]

  -- If it may be released, it is.
  pub MayRelease-IsReleased :
      (cr : DualDeploymentOperator) (s : S)
      → MayRelease r cr s
      → IsReleased cr.namespace cr.name (tear_down r cr s)
  unfolding tear_down delete_and_conclude
  MayRelease-IsReleased cr s h =
      let same = shoot_for_deletion-marks cr (pending r cr) s in
      let ((shoot, cr'), s1) = prepared r cr s in
      let ((seed_errs, shoot_errs), s2) = deleted r cr s in
      subst (λ m. IsReleased m.1 m.2 (tear_down r cr s)) same
        (conclude-IsReleased cr' (pending r cr) shoot.build_error seed_errs shoot_errs s2
          h.seed_clean
          (elim h.shoot_clean [
            | inl complete ↦ inl complete
            | inr forced ↦
                inr (ap (λ m. get_text force_delete_annotation m.0 == "true") same ∙ forced)
          ]))
