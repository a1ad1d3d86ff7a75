-- ===== src/Tests/Transforming.antt =====
-- The theorems on transformations and manifests, at concrete inputs.
use Prim.Native.String.{len}
use dual_deployment_operator.Base.{◌≤◌, ◌≡◌, refl, ◌↔◌, some, List, [], ◌∷◌, ok, ◌≢◌, is_some}
use dual_deployment_operator.Json.{end, field, text, object, lookup, get_text}
use dual_deployment_operator.Api.{FilterKindsSpec, PatchSpec}
use dual_deployment_operator.Manifest.{
  Manifest, owned_by_value, set_owned_by_label, parse, parse_documents, origin_of,
}
use dual_deployment_operator.Manifest.Ownership.{owner_label, set_owned_by_label-bound}
use dual_deployment_operator.Manifest.Documents.{IsRead, parse-IsRead}
use dual_deployment_operator.Transform.Build.{filter}
use dual_deployment_operator.Controller.Render.{rendered, transform_both}
use dual_deployment_operator.Controller.Render.Independence.{transform_one, transform_both_iff}
use dual_deployment_operator.Transform.Selection.{matches}
use dual_deployment_operator.Transform.Patching.{
  not_empty, patch_manifest, patch_manifests, apply_patch,
}
use dual_deployment_operator.Transform.Patching.Targets.{PatchedInto, apply_patch-PatchedInto}
use dual_deployment_operator.Tests.Machinery.{demo, documented}
use dual_deployment_operator.Tests.World.{manifest_of}

abbrev render : List Manifest
render = manifest_of "Deployment" "app" ∷ manifest_of "Namespace" "ns" ∷ []

abbrev no_namespaces : FilterKindsSpec
no_namespaces = record { kinds = "Namespace" ∷ []; source = "" }

transform_both_iff_example :
    (transform_both (filter no_namespaces ∷ []) render []
      ≡ rendered (manifest_of "Deployment" "app" ∷ []) [])
    ↔ ((transform_one (filter no_namespaces ∷ []) render ≡ ok (manifest_of "Deployment" "app" ∷ []))
        × (transform_one (filter no_namespaces ∷ []) [] ≡ ok []))
transform_both_iff_example =
    transform_both_iff (filter no_namespaces ∷ []) render [] (manifest_of "Deployment" "app" ∷ [])
      []

abbrev decoded : Manifest
decoded = record {
  unstructured = field "kind" (text "Namespace") (
      field "apiVersion" (text "v1")
        (field "metadata" (object (field "name" (text "garden") end)) end));
  origin = "upstream";
}

parse-IsRead_example : IsRead "upstream" (demo.decode_documents "garden") (decoded ∷ [])
unfolding demo parse parse_documents lookup origin_of get_text
parse-IsRead_example = parse-IsRead "garden" "upstream" (decoded ∷ []) refl

abbrev relabel : PatchSpec
relabel = record {
  target = record { kind = "Service"; name = ""; origin = "" };
  strategic_merge = some (record { raw = "{}" });
  json_patch = [];
}

apply_patch-PatchedInto_example :
    (is_some relabel.strategic_merge ≢ not_empty relabel.json_patch)
    × PatchedInto relabel render render
unfolding demo apply_patch patch_manifests patch_manifest matches lookup
apply_patch-PatchedInto_example = apply_patch-PatchedInto relabel render render refl

set_owned_by_label-bound_example :
    (owner_label (set_owned_by_label (manifest_of "ConfigMap" "a") (owned_by_value "garden" "demo"))
      ≡ owned_by_value "garden" "demo")
    × (len (
          owner_label
            (set_owned_by_label (manifest_of "ConfigMap" "a") (owned_by_value "garden" "demo")))
        ≤ 16)
set_owned_by_label-bound_example =
    set_owned_by_label-bound documented (manifest_of "ConfigMap" "a") "garden" "demo"
