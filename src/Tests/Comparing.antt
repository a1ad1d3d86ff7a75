-- ===== src/Tests/Comparing.antt =====
-- The theorems on the comparison with a golden render, at concrete inputs.
use dual_deployment_operator.Base.{
  ◌≡◌, refl, ◌↔◌, String, true, false, List, [], ◌∷◌, ◌==◌, if◌then◌else◌, ok, All, In, Result,
}
use dual_deployment_operator.Json.{Fields, field, end, text, lookup, object, slice, item, done}
use dual_deployment_operator.Library.{Library}
use dual_deployment_operator.Equivalence.Objects.{ObjectSet}
use dual_deployment_operator.Equivalence.Compare.{
  diff_paths, deep_equal, compare_sets, reports_equal,
}
use dual_deployment_operator.Equivalence.Compare.Paths.{diff_paths-eq-nil_iff}
use dual_deployment_operator.Equivalence.Compare.Equal.{IsMatched, IsPresent, compare_sets_iff}
use dual_deployment_operator.Equivalence.Scope.{Scope, key_is_known_divergence, compare_scoped}
use dual_deployment_operator.Equivalence.Scope.Suppression.{compare_scoped_iff}
use dual_deployment_operator.Equivalence.Classify.{GoldenOpts, Classified}
use dual_deployment_operator.Tests.Machinery.{demo}
use dual_deployment_operator.Tests.Objects.{text_of}
use dual_deployment_operator.Tests.World.{owned, manifest_of, resource_with}
use dual_deployment_operator.Api.{DualDeploymentOperator}
use dual_deployment_operator.Controller.Reconciler.{Source}
use dual_deployment_operator.Controller.Render.{
  with_source, with_seed_render, with_shoot_render, transform_renders, transform_both,
}
use dual_deployment_operator.Transform.Build.{build}
use dual_deployment_operator.Equivalence.Capture.{capture_from, set_of}
use dual_deployment_operator.Equivalence.Capture.Agreement.{capture_from-agrees}

abbrev role : Fields
role = owned "Role" "reader" "a"

abbrev binding : Fields
binding = owned "RoleBinding" "reader" "b"

diff_paths-eq-nil_iff_example :
    (diff_paths (object role) (object binding) "" ≡ [])
    ↔ (deep_equal (object role) (object binding) ≡ true)
diff_paths-eq-nil_iff_example = diff_paths-eq-nil_iff (object role) (object binding) ""

abbrev golden : ObjectSet
golden = ("role", role) ∷ ("binding", binding) ∷ []

abbrev operated : ObjectSet
operated = ("role", role) ∷ []

compare_sets_iff_example :
    (reports_equal (compare_sets golden operated) ≡ true)
    ↔ (All (IsMatched operated) golden × All (IsPresent golden) operated)
compare_sets_iff_example = compare_sets_iff golden operated

abbrev scope : Scope
scope = record {
  compared_kinds = [];
  known_divergences = record { kind = "RoleBinding"; name = "reader" } ∷ [];
  ignore_labels = [];
  canonical_namespace = "";
}

compare_scoped_iff_example :
    ((compare_scoped scope golden operated).mismatched ≡ (compare_sets golden operated).mismatched)
    × (In "v1/RoleBinding//reader" (compare_scoped scope golden operated).missing_op ↔ (
        In "v1/RoleBinding//reader" (compare_sets golden operated).missing_op
        × (key_is_known_divergence scope "v1/RoleBinding//reader" ≡ false)))
    × (In "v1/RoleBinding//reader" (compare_scoped scope golden operated).extra_op ↔ (
        In "v1/RoleBinding//reader" (compare_sets golden operated).extra_op
        × (key_is_known_divergence scope "v1/RoleBinding//reader" ≡ false)))
compare_scoped_iff_example = compare_scoped_iff scope golden operated "v1/RoleBinding//reader"

abbrev classify_opts : GoldenOpts
classify_opts = record {
  chart_fullname = "remote";
  exclusions = record { kind = "RoleBinding"; name = "reader" } ∷ [];
}

abbrev classified : Classified
classified = record { seed = ("/Role//reader", role) ∷ []; shoot = ("/Role//reader", role) ∷ [] }

-- A library in which kinds may have a group.
abbrev gardener : Library
gardener = record demo {
  group_version_kind = λ u. record {
    group = if text_of (lookup "apiVersion" u) == "v1" then "" else "resources.gardener.cloud";
    version = "v1";
    kind = text_of (lookup "kind" u);
  };
}

abbrev managed : Fields
managed = field "kind" (text "ManagedResource") (
    field "apiVersion" (text "resources.gardener.cloud/v1alpha1") (
      field "spec"
        (object (field "secretRefs" (slice (item (object (field "name" (text "s") end)) done)) end))
        end))

abbrev payload_secret : Fields
payload_secret = field "kind" (text "Secret") (
    field "apiVersion" (text "v1") (
      field "metadata" (object (field "name" (text "s") end))
        (field "data" (object (field "objects.yaml" (text "crd") end)) end)))

abbrev carried : Fields
carried =
    field "kind" (text "Namespace") (
      field "apiVersion" (text "v1")
        (field "metadata" (object (field "name" (text "crd") end)) end))

abbrev rendered_docs : List Fields
rendered_docs = managed ∷ payload_secret ∷ role ∷ []

abbrev plain_text : String → Result String
plain_text s = ok s

abbrev resource : DualDeploymentOperator
resource = resource_with "SeedFirst" [] []

abbrev two_cluster_source : Source (List String)
two_cluster_source = record {
  render = λ mode ns calls. (ok (manifest_of "ConfigMap" ns ∷ []), ns ∷ calls);
}

capture_from-agrees_example : capture_from resource (ok two_cluster_source) [] ≡ (
  ok (
    set_of (manifest_of "ConfigMap" "garden" ∷ []),
    set_of (manifest_of "ConfigMap" "kube-system" ∷ []),
  ),
  "kube-system" ∷ "garden" ∷ [],
)
unfolding with_source with_seed_render with_shoot_render transform_renders transform_both build
capture_from-agrees_example =
    capture_from-agrees two_cluster_source resource [] ("kube-system" ∷ "garden" ∷ [])
      (manifest_of "ConfigMap" "garden" ∷ []) (manifest_of "ConfigMap" "kube-system" ∷ []) refl
