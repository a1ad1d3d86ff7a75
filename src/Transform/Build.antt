-- ===== src/Transform/Build.antt =====
-- internal/transform/transform.go
pub mod Unions
use dual_deployment_operator.Base.{
  ℕ, ◌+◌, String, Option, none, some, List, [], ◌∷◌, if◌then◌else◌, Result, ok, err, plain, concat,
  is_some, not, nat_eq,
}
use dual_deployment_operator.Library.{Library}
use dual_deployment_operator.Api.{
  TransformationSpec, PatchSpec, RewriteWebhookUrlSpec, FilterKindsSpec,
}
use dual_deployment_operator.Manifest.{Manifest}
use dual_deployment_operator.Transform.FilterKinds.{filter_kinds}
use dual_deployment_operator.Transform.RewriteWebhookUrl.{rewrite_webhook_url}
use dual_deployment_operator.Transform.Patching.{apply_patch}

-- The implementations of the interface `Transformation`.
pub data Transformation : Type 0 where
  patch : PatchSpec → Transformation
  rewrite : RewriteWebhookUrlSpec → Transformation
  filter : FilterKindsSpec → Transformation

unfoldable pub type_of : Transformation → String
type_of (patch spec) = "patch"
type_of (rewrite spec) = "rewriteWebhookURL"
type_of (filter spec) = "filterKinds"

abbrev count_set {ℓ} : {A : Type ℓ} → Option A → ℕ
count_set none = 0
count_set (some a) = 1

unfoldable pub fields_set : TransformationSpec → ℕ
fields_set s = count_set s.patch + count_set s.rewrite_webhook_url + count_set s.filter_kinds

abbrev third : Option FilterKindsSpec → List Transformation → List Transformation
third none out = out
third (some spec) out = filter spec ∷ out

abbrev second :
    Option RewriteWebhookUrlSpec
    → Option FilterKindsSpec
    → List Transformation
    → List Transformation
second none f out = third f out
second (some spec) f out = rewrite spec ∷ out

-- The switch of `Build`: the first field that is set decides.
unfoldable pub add_transformation : TransformationSpec → List Transformation → List Transformation
add_transformation s out = elim s.patch [
  | some spec ↦ patch spec ∷ out
  | none ↦ second s.rewrite_webhook_url s.filter_kinds out
]

module _ ⦃k : Library⦄ where
  open k use {decimal}

  unfoldable pub build : List TransformationSpec → Result (List Transformation)
  unfolding fields_set add_transformation
  build [] = ok []
  build (s ∷ specs) =
      let rest = build specs in
      if not (nat_eq (fields_set s) 1)
      then err (
          plain (
            concat (
              "exactly one transformation type must be set per entry, got "
              ∷ decimal (fields_set s)
              ∷ [])))
      else elim rest [ err e ↦ err e | ok out ↦ ok (add_transformation s out) ]

  unfoldable pub transform : Transformation → List Manifest → Result (List Manifest)
  transform (patch spec) ms = apply_patch spec ms
  transform (rewrite spec) ms = rewrite_webhook_url spec ms
  transform (filter spec) ms = filter_kinds spec ms
