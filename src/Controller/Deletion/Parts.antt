-- ===== src/Controller/Deletion/Parts.antt =====
-- What a deletion finds of the shoot, and what it deletes of each render.
use dual_deployment_operator.Base.{
  ◌≡◌, refl, inl, inr, String, false, Option, none, some, List, Error, Result, ok, err, ◌==◌,
  Bool-cases, ltb,
}
use dual_deployment_operator.Library.{Library}
use dual_deployment_operator.Api.{ResourceStatus, DualDeploymentOperator, Spec}
use dual_deployment_operator.Deliver.Applier.{Applier}
use dual_deployment_operator.Controller.Reconciler.{
  Reconciler, set_condition, build_shoot_applier_or_default,
}
use dual_deployment_operator.Controller.Deletion.{
  Shoot, delete_render, shoot_of, shoot_for_deletion, delete_both,
}
use dual_deployment_operator.Controller.Cleanup.{record_shoot_unreachable}
use dual_deployment_operator.Controller.Deletion.Finalizer.{pending, prepared}

-- What the deletions depend on.
abbrev pub Essence : Type 0
Essence = Spec × List ResourceStatus × List ResourceStatus × String × String

abbrev pub essence : DualDeploymentOperator → Essence
essence cr = (cr.spec, cr.status.seed_resources, cr.status.shoot_resources, cr.namespace, cr.name)

module _ {S : Type 0} ⦃k : Library⦄ (r : Reconciler S) (cr : DualDeploymentOperator) where
  -- What was found of the shoot.
  pub data IsFound (s : S) (shoot : Shoot S) : Type 0 where
    idle :
        ltb 0 (pending r cr) ≡ false
        → shoot ≡ record { applier = none; build_error = none }
        → IsFound s shoot
    reached :
        (a : Applier S)
        → (build_shoot_applier_or_default r cr s).0 ≡ ok a
        → shoot ≡ record { applier = some a; build_error = none }
        → IsFound s shoot
    unreached :
        (e : Error)
        → (build_shoot_applier_or_default r cr s).0 ≡ err e
        → shoot.build_error ≡ some e
        → IsFound s shoot

  shoot_of-essence :
      (built : Result (Applier S)) (s : S) → essence (shoot_of r cr built s).0.1 ≡ essence cr
  unfolding shoot_of record_shoot_unreachable set_condition
  shoot_of-essence (ok a) s = refl
  shoot_of-essence (err e) s = refl

  pub prepared-essence : (s : S) → essence (prepared r cr s).0.1 ≡ essence cr
  unfolding shoot_for_deletion
  prepared-essence s = elim (Bool-cases (ltb 0 (pending r cr))) [
    | inl e ↦ rw (e, shoot_for_deletion) (shoot_of-essence _ _)
    | inr e ↦ rw (e, shoot_for_deletion) refl
  ]

  shoot_of-IsFound :
      (built : Result (Applier S)) (s s' : S)
      → (build_shoot_applier_or_default r cr s).0 ≡ built
      → IsFound s (shoot_of r cr built s').0.0
  unfolding shoot_of
  shoot_of-IsFound (ok a) s s' h = reached a h refl
  shoot_of-IsFound (err e) s s' h = unreached e h refl

  pub prepared-IsFound : (s : S) → IsFound s (prepared r cr s).0.0
  unfolding shoot_for_deletion
  prepared-IsFound s = elim (Bool-cases (ltb 0 (pending r cr))) [
    | inl e ↦ rw (e, shoot_for_deletion) (shoot_of-IsFound _ s _ refl)
    | inr e ↦ rw (e, shoot_for_deletion) (idle e refl)
  ]

module _ {S : Type 0} ⦃k : Library⦄ (r : Reconciler S) (cr : DualDeploymentOperator)
    (shoot : Option (Applier S)) (owned_by : String) (s : S) where
  -- Each render is deleted in some world, in either order.
  pub delete_both-parts :
      (s1 : S) × (s2 : S) × ((delete_both r cr shoot owned_by s).0.0
        ≡ (delete_render (some r.seed_applier) cr owned_by cr.status.seed_resources s1).0)
      × ((delete_both r cr shoot owned_by s).0.1
          ≡ (delete_render shoot cr owned_by cr.status.shoot_resources s2).0)
  unfolding delete_both
  delete_both-parts = elim (Bool-cases (cr.spec.apply_order == "SeedFirst")) [
    | inl e ↦ rw (e, delete_both) (_, s, refl, refl)
    | inr e ↦ rw (e, delete_both) (s, _, refl, refl)
  ]
