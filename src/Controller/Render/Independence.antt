-- ===== src/Controller/Render/Independence.antt =====
-- The transformations of both renders (the loop of Reconcile), and of one render alone.
use dual_deployment_operator.Base.{
  ◌≡◌, ◌↔◌, List, [], ◌∷◌, arith, Result, ok, err, Result-cases, inl, inr,
}
use dual_deployment_operator.Library.{Library}
use dual_deployment_operator.Manifest.{Manifest}
use dual_deployment_operator.Transform.Build.{Transformation, transform}
use dual_deployment_operator.Controller.Render.{rendered, transform_both}

module _ ⦃k : Library⦄ where
  -- A list of transformations on one render, up to the first failure.
  abbrev pub transform_one : List Transformation → List Manifest → Result (List Manifest)
  transform_one [] ms = ok ms
  transform_one (t ∷ ts) ms = elim (transform t ms) [
    | err e ↦ err e
    | ok ms' ↦ transform_one ts ms'
  ]

  -- Both renders come out transformed if and only if the list, applied to each of them alone,
  -- gives that outcome.
  pub transform_both_iff :
      (ts : List Transformation) (seed shoot seed' shoot' : List Manifest)
      → (transform_both ts seed shoot ≡ rendered seed' shoot')
        ↔ ((transform_one ts seed ≡ ok seed') × (transform_one ts shoot ≡ ok shoot'))
  unfolding transform_both
  transform_both_iff [] seed shoot seed' shoot' = ground arith
  transform_both_iff (t ∷ ts) seed shoot seed' shoot' = elim (Result-cases (transform t seed)) [
    | inl (e, a) ↦ ground arith
    | inr (x, a) ↦ (elim (Result-cases (transform t shoot)) [
      | inl (e, b) ↦ ground arith
      | inr (y, b) ↦ ground (arith, transform_both_iff ts x y seed' shoot')
    ])
  ]
