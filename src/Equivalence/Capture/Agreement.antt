-- ===== src/Equivalence/Capture/Agreement.antt =====
-- What is captured (operator_capture.go), against what the reconciler renders.
use dual_deployment_operator.Base.{
  ◌≡◌, refl, ap, ◌∙◌, List, [], ◌∷◌, arith, Result, ok, err, Result-cases, inl, inr, String,
  wrapping, ◌>>?◌, or_return, wrapped_result, pure,
}
use dual_deployment_operator.Library.{Library}
use dual_deployment_operator.Api.{DualDeploymentOperator}
use dual_deployment_operator.Manifest.{Manifest}
use dual_deployment_operator.Transform.Build.{Transformation, build, transform}
use dual_deployment_operator.Controller.Reconciler.{Source, Mode, mode_seed, mode_shoot}
use dual_deployment_operator.Controller.Render.{
  Rendered, rendered, failed, transform_both, transform_renders, with_shoot_render,
  with_seed_render, with_source,
}
use dual_deployment_operator.Equivalence.Objects.{ObjectSet}
use dual_deployment_operator.Equivalence.Capture.{
  apply_transforms, set_of, transformed_set, set_or_error, render_mode, capture_modes, capture_from,
}

module _ ⦃k : Library⦄ where
  apply_transforms-both :
      (ts : List Transformation) (seed shoot seed' shoot' : List Manifest)
      → transform_both ts seed shoot ≡ rendered seed' shoot'
      → (apply_transforms ts seed ≡ ok seed') × (apply_transforms ts shoot ≡ ok shoot')
  unfolding transform_both apply_transforms
  apply_transforms-both [] seed shoot seed' shoot' h = ground arith
  apply_transforms-both (t ∷ ts) seed shoot seed' shoot' h =
      elim (Result-cases (transform t seed)) [
        | inl (e, a) ↦ ground arith
        | inr (x, a) ↦ (elim (Result-cases (transform t shoot)) [
          | inl (e, b) ↦ ground arith
          | inr (y, b) ↦ ground (arith, apply_transforms-both ts x y seed' shoot')
        ])
      ]

  transform_renders-both :
      (cr : DualDeploymentOperator) (seed shoot seed' shoot' : List Manifest)
      → transform_renders cr seed shoot ≡ rendered seed' shoot'
      → (ts : List Transformation) × (build cr.spec.transformations ≡ ok ts)
        × (apply_transforms ts seed ≡ ok seed')
        × (apply_transforms ts shoot ≡ ok shoot')
  unfolding transform_renders
  transform_renders-both cr seed shoot seed' shoot' h =
      elim (Result-cases (build cr.spec.transformations)) [
        | inl (e, p) ↦ absurd (ground arith)
        | inr (ts, p) ↦
            (let both = apply_transforms-both ts seed shoot seed' shoot' (ground arith) in
              (ts, p, both.0, both.1))
      ]

module _ {S : Type 0} ⦃k : Library⦄ where
  -- The results of both renders, and the worlds after them.
  pub record AreRendered (src : Source S) (cr : DualDeploymentOperator) (world after : S)
      (seed' shoot' : List Manifest) : Type 0 where
    pub seed : List Manifest
    pub shoot : List Manifest
    pub between : S
    pub seed_render : src.render mode_seed cr.namespace world ≡ (ok seed, between)
    pub shoot_render : src.render mode_shoot cr.spec.shoot_namespace between ≡ (ok shoot, after)
    pub transformed : transform_renders cr seed shoot ≡ rendered seed' shoot'

  shoot-AreRendered :
      (src : Source S) (cr : DualDeploymentOperator) (world between after : S)
      (seed seed' shoot' : List Manifest) (second : Result (List Manifest) × S)
      → src.render mode_seed cr.namespace world ≡ (ok seed, between)
      → src.render mode_shoot cr.spec.shoot_namespace between ≡ second
      → ◌≡◌ {A = Rendered × S}
          (with_shoot_render cr seed second.0, second.1)
          (rendered seed' shoot', after)
      → AreRendered src cr world after seed' shoot'
  unfolding with_shoot_render
  shoot-AreRendered src cr world between after seed seed' shoot' (err e, s) p q h =
      let x : failed "ShootRenderFailed" e ≡ rendered seed' shoot' =
        ap (λ (r : Rendered × S). r.0) h in
      cc
  shoot-AreRendered src cr world between after seed seed' shoot' (ok shoot, s) p q h = record {
    seed = seed;
    shoot = shoot;
    between = between;
    seed_render = p;
    shoot_render = q ∙ ap (λ (r : Rendered × S). (ok shoot, r.1)) h;
    transformed = ap (λ (r : Rendered × S). r.0) h;
  }

  seed-AreRendered :
      (src : Source S) (cr : DualDeploymentOperator) (world after : S)
      (seed' shoot' : List Manifest) (first : Result (List Manifest) × S)
      → src.render mode_seed cr.namespace world ≡ first
      → with_seed_render src cr first.0 first.1 ≡ (rendered seed' shoot', after)
      → AreRendered src cr world after seed' shoot'
  unfolding with_seed_render
  seed-AreRendered src cr world after seed' shoot' (err e, s) p h =
      let x : failed "SeedRenderFailed" e ≡ rendered seed' shoot' =
        ap (λ (r : Rendered × S). r.0) h in
      cc
  seed-AreRendered src cr world after seed' shoot' (ok seed, s) p h =
      shoot-AreRendered src cr world s after seed seed' shoot'
        (src.render mode_shoot cr.spec.shoot_namespace s) p refl h

  with_source-AreRendered :
      (src : Source S) (cr : DualDeploymentOperator) (world after : S)
      (seed' shoot' : List Manifest)
      → with_source cr (ok src) world ≡ (rendered seed' shoot', after)
      → AreRendered src cr world after seed' shoot'
  unfolding with_source
  with_source-AreRendered src cr world after seed' shoot' h =
      seed-AreRendered src cr world after seed' shoot' (src.render mode_seed cr.namespace world)
        refl h

  render_mode-ok :
      (src : Source S) (mode : Mode) (ns : String) (ts : List Transformation) (s t : S)
      (ms ms' : List Manifest)
      → src.render mode ns s ≡ (ok ms, t)
      → apply_transforms ts ms ≡ ok ms'
      → render_mode src mode ns ts s ≡ (ok (set_of ms'), t)
  unfolding render_mode
  render_mode-ok src mode ns ts s t ms ms' p q =
      ap (λ (r : Result (List Manifest) × S). (transformed_set ts r.0, r.1)) p
      ∙ ap (λ (r : Result (List Manifest)). (set_or_error r, t)) q

  capture_modes-ok :
      (src : Source S) (cr : DualDeploymentOperator) (ts : List Transformation) (s t u : S)
      (seed shoot : ObjectSet)
      → render_mode src mode_seed cr.namespace ts s ≡ (ok seed, t)
      → render_mode src mode_shoot cr.spec.shoot_namespace ts t ≡ (ok shoot, u)
      → capture_modes cr src ts s ≡ (ok (seed, shoot), u)
  unfolding capture_modes
  capture_modes-ok src cr ts s t u seed shoot p q =
      let second = λ (a : ObjectSet).
        wrapping "capture: shoot: " (render_mode src mode_shoot cr.spec.shoot_namespace ts) >>? λ b.
        pure {S = S} (ok (a, b)) in
      ap (λ (r : Result ObjectSet × S). or_return second (wrapped_result "capture: seed: " r.0) r.1)
        p
      ∙ ap
          (λ (r : Result ObjectSet × S).
            or_return (λ b. pure {S = S} (ok (seed, b))) (wrapped_result "capture: shoot: " r.0)
              r.1)
          q

  -- If the reconciler's part that renders and transforms both modes comes to two lists of manifests,
  -- the capture from the same source succeeds in the same world with the sets of the objects in
  -- these lists, and leaves the world as the reconciler's part does.
  pub capture_from-agrees :
      (src : Source S) (cr : DualDeploymentOperator) (world after : S) (seed shoot : List Manifest)
      → with_source cr (ok src) world ≡ (rendered seed shoot, after)
      → capture_from cr (ok src) world ≡ (ok (set_of seed, set_of shoot), after)
  unfolding capture_from
  capture_from-agrees src cr world after seed shoot h =
      let r = with_source-AreRendered src cr world after seed shoot h in
      let (ts, built, on_seed, on_shoot) =
        transform_renders-both cr r.seed r.shoot seed shoot r.transformed in
      rw (built) (
        capture_modes-ok src cr ts world r.between after (set_of seed) (set_of shoot)
          (render_mode-ok src mode_seed cr.namespace ts world r.between r.seed seed r.seed_render
            on_seed)
          (render_mode-ok src mode_shoot cr.spec.shoot_namespace ts r.between after r.shoot shoot
            r.shoot_render on_shoot))
