-- ===== src/Tests/Fetching.antt =====
-- The theorems on the fetchers of sources, at concrete inputs. The world is a list of the calls.
use dual_deployment_operator.Base.{
  inr, ◌≡◌, refl, ◌↔◌, ◌⊎◌, String, true, false, none, some, List, [], ◌∷◌, ok, All, Error,
}
use dual_deployment_operator.Base.Affixes.{cut, after_prefix}
use dual_deployment_operator.Api.{SourceSpec, KustomizeSource, DualDeploymentOperator}
use dual_deployment_operator.Controller.Render.{with_source, failed}
use dual_deployment_operator.Controller.Render.Unpinned.{with_source_unpinned}
use dual_deployment_operator.Source.Cache.{KeyParts}
use dual_deployment_operator.Source.Cache.Keys.{IsKeyable, key_string_injective}
use dual_deployment_operator.Source.Git.{
  GitLibrary, SplitRef, split_ref, split_parsed, is_sha, resolve_root, resolve_commit, commit_of,
  list_commit, listed_commit, auth_for, first_listed, find_ref,
}
use dual_deployment_operator.Source.Git.Commit.{IsAdvertised, resolve_commit-IsAdvertised}
use dual_deployment_operator.Source.Git.Cleanup.{IsCleanedUp, resolve_root-IsCleanedUp}
use dual_deployment_operator.Source.Plan.{FileSystem, ChartFiles, resolve_deps_plan}
use dual_deployment_operator.Source.Plan.Fetching.{
  IsVendored, IsBuildable, HasLock, resolve_deps_plan_iff,
}
use dual_deployment_operator.Source.Select.{Deps, Calls, source_from, helm_loader, git_resolver}
use dual_deployment_operator.Tests.Machinery.{demo}
use dual_deployment_operator.Tests.Calls.{
  Url, urls, meta, git_over, files_over, charts_over, calls_over,
}
use dual_deployment_operator.Tests.World.{resource_with}

abbrev pub Log : Type 0
Log = List String

abbrev noted : String → Log → Log
noted call log = call ∷ log

abbrev git : GitLibrary Log String String String
git = git_over noted

abbrev files : FileSystem Log
files = files_over noted

abbrev charts : ChartFiles Log
charts = charts_over noted

abbrev pub calls : Calls Log String String String String Url String String String String
calls = calls_over noted

resolve_commit-IsAdvertised_example :
    (s : SplitRef) × (split_ref urls "https://forge/repo" ≡ ok s)
    × (((is_sha s.ref ≡ true) × ("abcdef1" ≡ s.ref)) ⊎ IsAdvertised git urls s "abcdef1")
unfolding resolve_commit commit_of list_commit listed_commit split_ref split_parsed auth_for is_sha
    first_listed find_ref cut after_prefix
resolve_commit-IsAdvertised_example =
    resolve_commit-IsAdvertised git urls none "https://forge/repo" "abcdef1" [] refl

resolve_root-IsCleanedUp_example :
    IsCleanedUp git urls [] (resolve_root git urls none "https://forge/repo" "seed" [])
resolve_root-IsCleanedUp_example =
    resolve_root-IsCleanedUp git urls none "https://forge/repo" "seed" []

resolve_deps_plan_iff_example :
    ((resolve_deps_plan files charts "chart" [] ≡ ok false)
      ↔ All (IsVendored files charts "chart" []) meta.dependencies)
    × ((resolve_deps_plan files charts "chart" [] ≡ ok true) ↔ (
        ¬ All (IsVendored files charts "chart" []) meta.dependencies
        × All (IsBuildable files charts "chart" []) meta.dependencies
        × HasLock files charts "chart" []))
resolve_deps_plan_iff_example = resolve_deps_plan_iff files charts "chart" meta [] refl

abbrev spec : SourceSpec
spec = record {
  helm = some (record {
    repo = "oci://registry";
    name = "app";
    version = "1.0.0";
    values = none;
    seed_values = none;
    shoot_values = none;
    auth_secret_ref = none;
  });
  kustomize = none;
}

abbrev deps : Deps Log String String
deps = record {
  chart_loader =
      some (helm_loader (record { resolve = none; http_client = none; scratch_dir = "" }));
  root_resolver = none;
  credential_resolver = none;
  render_cache = none;
}

abbrev unpinned : KustomizeSource
unpinned = record {
  url = "unpinned";
  seed_path = "seed";
  shoot_path = "shoot";
  auth_secret_ref = none;
}

abbrev unpinned_resource : DualDeploymentOperator
unpinned_resource = record (resource_with "SeedFirst" [] []) {
  spec = record ((resource_with "SeedFirst" [] []).spec) {
    source = record { helm = none; kustomize = some unpinned };
  };
}

abbrev git_deps : Deps Log String String
git_deps = record deps { root_resolver = some (git_resolver none) }

with_source_unpinned_example :
    (e : Error) × (with_source unpinned_resource
        (source_from calls unpinned_resource.spec.source git_deps)
        []
      ≡ (failed "SeedRenderFailed" e, []))
with_source_unpinned_example =
    with_source_unpinned calls unpinned_resource unpinned git_deps none [] refl refl refl
      (record { parsed = (false, "/repo//root/", ""); parses = refl; refused = inr refl })

abbrev seed_key : KeyParts
seed_key = record {
  source_kind = "helm";
  repo_scope = "oci:r";
  resolved_id = "s";
  mode = "seed";
  input_hash = "h";
  namespace = "g";
}

seed_key-IsKeyable : IsKeyable seed_key
seed_key-IsKeyable = (
  (refl, (refl, (refl, (refl, tt)))),
  (
    (refl, (refl, (refl, (refl, (refl, tt))))),
    ((refl, tt), ((refl, (refl, (refl, (refl, tt)))), ((refl, tt), ((refl, tt), tt)))),
  ),
)

key_string_injective_example : seed_key ≡ seed_key
key_string_injective_example =
    key_string_injective seed_key seed_key seed_key-IsKeyable seed_key-IsKeyable refl
