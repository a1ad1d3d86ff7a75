-- ===== src/Controller/Render.antt =====
-- The first part of Reconcile: both renders are read from the source and transformed.
pub mod Independence
pub mod Unpinned
use dual_deployment_operator.Base.{
  ℕ, String, Bool, Option, none, some, List, [], ◌∷◌, ◌++◌, ◌==◌, not, if◌then◌else◌, Error, Result,
  ok, err, M, pure, ◌>>=◌, map, is_some, concat,
}
use dual_deployment_operator.Library.{Library}
use dual_deployment_operator.Api.{ResourceStatus, DualDeploymentOperator, Condition}
use dual_deployment_operator.Manifest.{Manifest, owned_by_value}
use dual_deployment_operator.Deliver.Order.{sort_for_apply}
use dual_deployment_operator.Deliver.Applier.{Applier, unless_not_found}
use dual_deployment_operator.Transform.Build.{Transformation, build, transform}
use dual_deployment_operator.Controller.Reconciler.{
  Reconciler, Source, Outcome, mode_seed, mode_shoot, finalizer_name, requeue_interval,
  is_credentials_not_ready, with_status, set_condition, build_shoot_applier_or_default, err_status,
  finish_not_ready,
}
use dual_deployment_operator.Controller.Conditions.{any_failed, all_failed, compute_conditions}
use dual_deployment_operator.Controller.Delivery.{AllApplied, apply_all, add_error}
use dual_deployment_operator.Controller.Prune.{PruneResult, prune}
use dual_deployment_operator.Controller.Deletion.{reconcile_delete}

-- Both renders, or the reason and the error of the step that failed.
pub data Rendered : Type 0 where
  rendered : List Manifest → List Manifest → Rendered
  failed : String → Error → Rendered

module _ ⦃k : Library⦄ where
  -- Every transformation is applied to both renders, the seed first.
  unfoldable pub transform_both : List Transformation → List Manifest → List Manifest → Rendered
  transform_both [] seed shoot = rendered seed shoot
  transform_both (t ∷ ts) seed shoot = elim (transform t seed) [
    | err e ↦ failed "SeedTransformFailed" e
    | ok seed' ↦ (elim (transform t shoot) [
      | err e ↦ failed "ShootTransformFailed" e
      | ok shoot' ↦ transform_both ts seed' shoot'
    ])
  ]

  unfoldable pub transform_renders :
      DualDeploymentOperator → List Manifest → List Manifest → Rendered
  unfolding transform_both
  transform_renders cr seed shoot = elim (build cr.spec.transformations) [
    | err e ↦ failed "InvalidTransformation" e
    | ok ts ↦ transform_both ts seed shoot
  ]

  unfoldable pub with_shoot_render :
      DualDeploymentOperator → List Manifest → Result (List Manifest) → Rendered
  unfolding transform_renders
  with_shoot_render cr seed (err e) = failed "ShootRenderFailed" e
  with_shoot_render cr seed (ok shoot) = transform_renders cr seed shoot

module _ {S : Type 0} ⦃k : Library⦄ where
  unfoldable pub with_seed_render :
      Source S → DualDeploymentOperator → Result (List Manifest) → M S Rendered
  unfolding with_shoot_render
  with_seed_render src cr (err e) = pure (failed "SeedRenderFailed" e)
  with_seed_render src cr (ok seed) = do
    shoot ← src.render mode_shoot cr.spec.shoot_namespace
    pure (with_shoot_render cr seed shoot)

  unfoldable pub with_source : DualDeploymentOperator → Result (Source S) → M S Rendered
  unfolding with_seed_render
  with_source cr (err e) = pure (failed "InvalidSource" e)
  with_source cr (ok src) = do
    seed ← src.render mode_seed cr.namespace
    with_seed_render src cr seed

  unfoldable pub render_both : Reconciler S → DualDeploymentOperator → M S Rendered
  unfolding with_source
  render_both r cr = with_source cr (r.source_from cr.spec.source cr.namespace)
