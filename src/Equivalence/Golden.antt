-- ===== src/Equivalence/Golden.antt =====
-- internal/equivalence/golden_render.go: the golden render of a chart at a pinned commit.
pub mod Merging
use dual_deployment_operator.Base.{
  String, Bool, true, false, Option, none, some, List, [], ◌∷◌, ◌==◌, if◌then◌else◌, Error, Result,
  ok, err, M, pure, ◌>>=◌, ◌>>?◌, wrapping, checked, concat,
}
use dual_deployment_operator.Json.{
  Value, nil, boolean, int64, float64, text, slice, object, Fields, end, field, lookup, insert,
  Items,
}
use dual_deployment_operator.Library.{Library}
use dual_deployment_operator.Source.Git.{GitLibrary}
use dual_deployment_operator.Equivalence.Classify.{split_yaml_docs}

pub record GoldenRenderReq : Type 0 where
  pub repo_url : String
  pub sha : String
  pub chart_path : String
  pub values_yaml : List String
  pub namespace : String

-- A map of the second map: it is merged into a map of the first one, and else it replaces.
abbrev pub merged_map : Option Value → Fields → (Fields → Fields) → Value
merged_map (some (object bv)) ov merge = object (merge bv)
merged_map before ov merge = object ov

-- base[k], for a value of the second map. `merge` is the merge of the value, if it is a map, into
-- another map.
abbrev pub merged_value : Option Value → Value → (Fields → Fields) → Value
merged_value before (object ov) merge = merged_map before ov merge
merged_value before v merge = v

-- The loop over the second map, which is the argument that gets smaller.
unfoldable mutual
  pub merge_into : Fields → Fields → Fields
  merge_into end base = base
  merge_into (field key v over) base =
      merge_into over (insert key (merged_value (lookup key base) v (merge_value v)) base)

  pub merge_value : Value → Fields → Fields
  merge_value nil base = base
  merge_value (boolean b) base = base
  merge_value (int64 i) base = base
  merge_value (float64 t) base = base
  merge_value (text t) base = base
  merge_value (slice vs) base = base
  merge_value (object over) base = merge_into over base

unfoldable pub deep_merge : Fields → Fields → Fields
unfolding merge_into
deep_merge base over = merge_into over base

-- The YAML decoder, and Helm's calls: `build` is `downloader.Manager.Build`, and `install` the
-- client-only dry run with the CRDs, of a chart under a release name, a namespace and values.
pub record GoldenHelm (S Client Chart : Type 0) : Type 0 where
  pub unmarshal_yaml : String → Result Fields
  pub new_client : M S (Result Client)
  pub build : Client → String → M S (Option Error)
  pub load_dir : String → M S (Result Chart)
  pub chart_name : Chart → String
  pub install : Client → Chart → String → String → Fields → M S (Result String)

module _ {S Client Chart : Type 0} (helm : GoldenHelm S Client Chart) where
  abbrev pub merge_parsed : Result Fields → Fields → Result Fields
  merge_parsed (err e) out =
      err (record e { message = concat ("golden: parse values: " ∷ e.message ∷ []) })
  merge_parsed (ok m) out = ok (deep_merge out m)

  -- One pass of the loop; an empty document is skipped.
  abbrev pub merge_document : String → Result Fields → Result Fields
  merge_document d (err e) = err e
  merge_document d (ok out) = if d == "" then ok out else merge_parsed (helm.unmarshal_yaml d) out

  unfoldable pub merge_documents : List String → Result Fields → Result Fields
  unfolding deep_merge
  merge_documents [] out = out
  merge_documents (d ∷ docs) out = merge_documents docs (merge_document d out)

  unfoldable pub merge_values_yaml : List String → Result Fields
  unfolding merge_documents
  merge_values_yaml docs = merge_documents docs (ok end)

  module _ {Repo Remote Worktree : Type 0} (git : GitLibrary S Repo Remote Worktree)
      (join_path : List String → String) ⦃k : Library⦄ where
    -- The clone at the pinned commit.
    unfoldable pub clone_pinned : GoldenRenderReq → String → M S (Result (Unit {0}))
    clone_pinned req tmp = wrapping "golden: git init: " (git.init tmp) >>? λ repo.
        wrapping "golden: git remote: " (git.create_remote repo req.repo_url) >>? λ remote.
        wrapping "golden: git fetch: " (checked (git.fetch remote none)) >>? λ _.
        wrapping "golden: worktree: " (git.worktree repo) >>? λ w.
        wrapping (concat ("golden: checkout " ∷ req.sha ∷ ": " ∷ []))
          (checked (git.checkout w req.sha))

    unfoldable pub template_chart : GoldenRenderReq → String → M S (Result (List Fields))
    unfolding merge_values_yaml split_yaml_docs
    template_chart req chart_dir =
        wrapping "golden: registry client: " helm.new_client >>? λ client.
        wrapping (concat ("golden: dependency build " ∷ req.chart_path ∷ ": " ∷ []))
          (checked (helm.build client chart_dir))
        >>? λ _. wrapping "golden: load chart: " (helm.load_dir chart_dir) >>? λ chart.
            pure (merge_values_yaml req.values_yaml) >>? λ values.
            wrapping (concat ("golden: template " ∷ req.chart_path ∷ ": " ∷ []))
              (helm.install client chart (helm.chart_name chart) req.namespace values)
            >>? λ raw. pure (split_yaml_docs raw)

    -- The directory is removed at the end.
    unfoldable pub render_golden : GoldenRenderReq → M S (Result (List Fields))
    unfolding clone_pinned template_chart
    render_golden req = git.mkdir_temp "ddo-golden-git-" >>? λ tmp.
        (clone_pinned req tmp >>? λ _. template_chart req (join_path (tmp ∷ req.chart_path ∷ [])))
        >>= λ r. git.remove_all tmp >>= λ _. pure r
