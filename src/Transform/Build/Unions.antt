-- ===== src/Transform/Build/Unions.antt =====
-- Which lists of transformations are accepted.
use dual_deployment_operator.Base.{◌≡◌, ◌↔◌, List, [], ◌∷◌, arith, ok, none, some}
use dual_deployment_operator.Library.{Library}
use dual_deployment_operator.Api.{TransformationSpec}
use dual_deployment_operator.Transform.Build.{
  Transformation, patch, rewrite, filter, fields_set, add_transformation, build,
}

-- The transformation that an entry with exactly one field asks for.
abbrev pub AsksFor : Transformation → TransformationSpec → Type 0
AsksFor (patch p) s = (s.patch ≡ some p) × (s.rewrite_webhook_url ≡ none) × (s.filter_kinds ≡ none)
AsksFor (rewrite p) s =
    (s.patch ≡ none) × (s.rewrite_webhook_url ≡ some p) × (s.filter_kinds ≡ none)
AsksFor (filter p) s = (s.patch ≡ none) × (s.rewrite_webhook_url ≡ none) × (s.filter_kinds ≡ some p)

abbrev pub Matching : List Transformation → List TransformationSpec → Type 0
Matching [] [] = Unit
Matching (t ∷ ts) (s ∷ specs) = AsksFor t s × Matching ts specs
Matching _ _ = ⊥

module _ ⦃k : Library⦄ where
  -- The list is built if and only if each entry sets exactly one field, and then it holds the
  -- transformations of those fields, in order.
  pub build_iff :
      (specs : List TransformationSpec) (ts : List Transformation)
      → (build specs ≡ ok ts) ↔ Matching ts specs
  unfolding build fields_set add_transformation
  build_iff [] [] = ground arith
  build_iff [] (t ∷ ts) = ground arith
  build_iff (s ∷ specs) [] = ground (arith)
  build_iff (s ∷ specs) (patch p ∷ ts) = ground (arith, build_iff specs ts)
  build_iff (s ∷ specs) (rewrite p ∷ ts) = ground (arith, build_iff specs ts)
  build_iff (s ∷ specs) (filter p ∷ ts) = ground (arith, build_iff specs ts)
