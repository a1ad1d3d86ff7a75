-- ===== src/Source/Helm/Values.antt =====
-- The values that a chart is rendered with.
use dual_deployment_operator.Base.{◌≡◌, some, none, arith, ok, Result-cases, inl, inr, eq_refl}
use dual_deployment_operator.Json.{Fields, text, lookup, lookup-insert}
use dual_deployment_operator.Api.{HelmSource}
use dual_deployment_operator.Controller.Reconciler.{Mode}
use dual_deployment_operator.Source.Cache.{mode_string}
use dual_deployment_operator.Source.Helm.{
  HelmLibrary, mode_values, merge_values, with_mode, helm_values,
}

module _ {S Chart : Type 0} (lib : HelmLibrary S Chart) where
  with_mode-lookup :
      (mode : Mode) (merged values : Fields)
      → with_mode lib mode merged ≡ ok values
      → (lookup "mode" merged ≡ none) × (lookup "mode" values ≡ some (text (mode_string mode)))
  unfolding with_mode
  with_mode-lookup mode merged values h =
      ground (arith, lookup-insert "mode" "mode" (text (mode_string mode)) merged, eq_refl "mode")

  -- If the values of a render are made, the user's merged values have no key `mode`, and the values
  -- have the mode of the render under that key.
  pub helm_values-lookup :
      (spec : HelmSource) (mode : Mode) (values : Fields)
      → helm_values lib spec mode ≡ ok values
      → (merged : Fields) × (merge_values lib spec.values (mode_values spec mode) ≡ ok merged)
        × (lookup "mode" merged ≡ none)
        × (lookup "mode" values ≡ some (text (mode_string mode)))
  unfolding helm_values
  helm_values-lookup spec mode values h =
      elim (Result-cases (merge_values lib spec.values (mode_values spec mode))) [
        | inl (e, failed) ↦ ground arith
        | inr (merged, e) ↦
            (let own = with_mode-lookup mode merged values (ground arith) in
              (merged, e, own.0, own.1))
      ]
