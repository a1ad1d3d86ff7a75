-- ===== src/Equivalence/Fixture.antt =====
-- internal/equivalence/fixture.go: the pinned inputs of one comparison.
use dual_deployment_operator.Base.{
  String, Option, some, List, [], ◌∷◌, Result, ok, M, pure, ◌>>?◌, wrapping,
}
use dual_deployment_operator.Api.{DualDeploymentOperator}
use dual_deployment_operator.Equivalence.Scope.{ExclusionEntry}

-- The fields that are read later are none at first.
pub record Fixture : Type 0 where
  pub operator : String
  pub chart_fullname : String
  pub repo_url : String
  pub sha : String
  pub chart_path : String
  pub overlay_values : String
  pub cr_file : String
  pub exclusions : List ExclusionEntry
  pub compared_kinds : List String
  pub known_divergences : List ExclusionEntry
  pub ignore_labels : List String
  pub canonical_namespace : String
  pub cr : Option DualDeploymentOperator
  pub overlay_raw : Option String
  pub dir : String

-- `os.ReadFile`, `filepath.Join` and the YAML decoder, for the fixture and for the resource.
pub record FixtureFiles (S : Type 0) : Type 0 where
  pub read_file : String → M S (Result String)
  pub join_path : List String → String
  pub unmarshal_fixture : String → Result Fixture
  pub unmarshal_cr : String → Result DualDeploymentOperator

module _ {S : Type 0} (files : FixtureFiles S) where
  unfoldable pub load_fixture : String → M S (Result Fixture)
  load_fixture dir = files.read_file (files.join_path (dir ∷ "fixture.yaml" ∷ [])) >>? λ b.
      wrapping "fixture: parse fixture.yaml: " (pure (files.unmarshal_fixture b)) >>? λ f.
      files.read_file (files.join_path (dir ∷ f.cr_file ∷ [])) >>? λ cr_bytes.
      wrapping "fixture: parse cr: " (pure (files.unmarshal_cr cr_bytes)) >>? λ cr.
      files.read_file (files.join_path (dir ∷ f.overlay_values ∷ [])) >>? λ overlay.
      pure (ok (record f { dir = dir; cr = some cr; overlay_raw = some overlay }))
