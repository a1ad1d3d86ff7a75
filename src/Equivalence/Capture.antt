-- ===== src/Equivalence/Capture.antt =====
-- internal/equivalence/operator_capture.go: what the operator would deliver, as two sets of objects.
pub mod Agreement
use dual_deployment_operator.Base.{
  String, List, [], ◌∷◌, Error, Result, ok, err, M, pure, ◌>>=◌, ◌>>?◌, wrapping, map,
}
use dual_deployment_operator.Library.{Library}
use dual_deployment_operator.Api.{DualDeploymentOperator}
use dual_deployment_operator.Manifest.{Manifest}
use dual_deployment_operator.Transform.Build.{Transformation, build, transform}
use dual_deployment_operator.Controller.Reconciler.{Source, Mode, mode_seed, mode_shoot}
use dual_deployment_operator.Source.Select.{Calls, Deps, source_from}
use dual_deployment_operator.Equivalence.Objects.{ObjectSet, put_all}

module _ ⦃k : Library⦄ where
  -- The loop over the transformations, up to the first failure.
  unfoldable pub apply_transforms : List Transformation → List Manifest → Result (List Manifest)
  apply_transforms [] ms = ok ms
  apply_transforms (t ∷ ts) ms = elim (transform t ms) [
    | err e ↦ err e
    | ok ms' ↦ apply_transforms ts ms'
  ]

  unfoldable pub set_of : List Manifest → ObjectSet
  unfolding put_all
  set_of ms = put_all (map (λ m. m.unstructured) ms) []

  abbrev pub set_or_error : Result (List Manifest) → Result ObjectSet
  set_or_error (err e) = err e
  set_or_error (ok ms) = ok (set_of ms)

  abbrev pub transformed_set : List Transformation → Result (List Manifest) → Result ObjectSet
  transformed_set ts (err e) = err e
  transformed_set ts (ok ms) = set_or_error (apply_transforms ts ms)

module _ {S : Type 0} ⦃k : Library⦄ where
  unfoldable pub render_mode :
      Source S → Mode → String → List Transformation → M S (Result ObjectSet)
  unfolding apply_transforms set_of
  render_mode src mode ns ts = src.render mode ns >>= λ r. pure (transformed_set ts r)

  -- Both modes, once the source and the transformations are made.
  unfoldable pub capture_modes :
      DualDeploymentOperator → Source S → List Transformation → M S (Result (ObjectSet × ObjectSet))
  unfolding render_mode
  capture_modes cr src ts =
      wrapping "capture: seed: " (render_mode src mode_seed cr.namespace ts) >>? λ seed.
      wrapping "capture: shoot: " (render_mode src mode_shoot cr.spec.shoot_namespace ts)
      >>? λ shoot. pure (ok (seed, shoot))

  unfoldable pub capture_from :
      DualDeploymentOperator → Result (Source S) → M S (Result (ObjectSet × ObjectSet))
  unfolding capture_modes
  capture_from cr src = wrapping "capture: source.From: " (pure src) >>? λ source.
      wrapping "capture: transform.Build: " (pure (build cr.spec.transformations)) >>? λ ts.
      capture_modes cr source ts

module _ {S H Client File Chart Url Repo Remote Worktree Tree : Type 0}
    (calls : Calls S H Client File Chart Url Repo Remote Worktree Tree) ⦃k : Library⦄ where
  unfoldable pub capture_operator :
      DualDeploymentOperator → Deps S H Chart → M S (Result (ObjectSet × ObjectSet))
  unfolding capture_from source_from
  capture_operator cr deps = capture_from cr (source_from calls cr.spec.source deps)
