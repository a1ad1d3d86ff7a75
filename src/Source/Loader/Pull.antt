-- ===== src/Source/Loader/Pull.antt =====
-- internal/source/helmloader.go: the pull of a chart, its expansion, and its load.
use dual_deployment_operator.Base.{
  String, Bool, true, false, Option, none, some, List, [], ◌∷◌, if◌then◌else◌, Result, ok, err,
  concat, M, pure, ◌>>=◌, ◌>>?◌, wrapping, checked, has_prefix, has_suffix,
}
use dual_deployment_operator.Library.{Library}
use dual_deployment_operator.Source.Url.{UrlLibrary}
use dual_deployment_operator.Source.Plan.{FileSystem, ChartFiles, resolve_deps_plan}
use dual_deployment_operator.Source.Loader.{
  Registry, HelmLoader, source_error, chart_path_of, reject_url_credentials, oci_host, cred_for,
  oci_registry_client, unsupported_scheme,
}

unfoldable pub find_tgz : List (String × Bool) → Option String
find_tgz [] = none
find_tgz ((name, is_dir) ∷ entries) =
    let rest = find_tgz entries in if has_suffix name ".tgz" then some name else rest

unfoldable pub find_child_dir : List (String × Bool) → Option String
find_child_dir [] = none
find_child_dir ((name, is_dir) ∷ entries) =
    let rest = find_child_dir entries in if is_dir then some name else rest

abbrev pub path_or : (String → String) → String → Option String → Result String
path_or join message none = err (source_error message)
path_or join message (some name) = ok (join name)

abbrev pub entry_or_error :
    String
    → String
    → (String → String)
    → (List (String × Bool) → Option String)
    → Result (List (String × Bool))
    → Result String
entry_or_error unread missing join find (err e) =
    err (record e { message = concat ("source: " ∷ unread ∷ ": " ∷ e.message ∷ []) })
entry_or_error unread missing join find (ok entries) = path_or join missing (find entries)

module _ {S H Client File Chart Url : Type 0} (registry : Registry S H Client File Chart)
    (urls : UrlLibrary Url) where
  module _ (files : FileSystem S) where
    unfoldable pub read_tgz : String → M S (Result String)
    unfolding find_tgz
    read_tgz dest s = (
      entry_or_error "read chart dir" (concat ("no chart tgz found in " ∷ dest ∷ []))
          (λ name. files.join_path (dest ∷ name ∷ [])) find_tgz (files.read_dir dest s),
      s,
    )

    unfoldable pub single_child_dir : String → M S (Result String)
    unfolding find_child_dir
    single_child_dir parent s = (
      entry_or_error "read expanded dir"
          (concat ("expanded chart has no directory in " ∷ parent ∷ []))
          (λ name. files.join_path (parent ∷ name ∷ [])) find_child_dir (files.read_dir parent s),
      s,
    )

    unfoldable pub pull_oci :
        HelmLoader S H → String → String → String → String → M S (Result String)
    unfolding cred_for oci_host oci_registry_client chart_path_of read_tgz
    pull_oci l repo name version dest =
        wrapping "source: resolve credentials: " (cred_for l (oci_host urls repo)) >>? λ c.
        oci_registry_client registry urls l c >>? λ client.
        wrapping (concat ("source: oci pull " ∷ name ∷ "@" ∷ version ∷ ": " ∷ [])) (
          checked
            (registry.pull client version dest (concat ("oci://" ∷ chart_path_of repo name ∷ []))))
        >>? λ _. read_tgz dest

    module _ (charts : ChartFiles S) ⦃k : Library⦄ where
      unfoldable pub build_dependencies : HelmLoader S H → String → M S (Result (Unit {0}))
      unfolding cred_for oci_registry_client
      build_dependencies l chart_dir =
          wrapping "source: resolve credentials for deps: " (cred_for l "") >>? λ c.
          oci_registry_client registry urls l c >>? λ client.
          wrapping "source: build dependencies: " (checked (registry.build client chart_dir))

      unfoldable pub resolve_deps : HelmLoader S H → String → Result Bool → M S (Result String)
      unfolding build_dependencies
      resolve_deps l chart_dir (err e) = pure (err e)
      resolve_deps l chart_dir (ok false) = pure (ok chart_dir)
      resolve_deps l chart_dir (ok true) =
          build_dependencies l chart_dir >>? λ _. pure (ok chart_dir)

      -- What is done with the open file, which is closed at the end.
      unfoldable pub expand_open : HelmLoader S H → String → File → M S (Result String)
      unfolding single_child_dir resolve_deps_plan resolve_deps
      expand_open l unpacked f =
          wrapping "source: expand chart: " (checked (registry.expand unpacked f)) >>? λ _.
          single_child_dir unpacked >>? λ chart_dir.
          λ s. resolve_deps l chart_dir (resolve_deps_plan files charts chart_dir s) s

      unfoldable pub expand_and_resolve_deps :
          HelmLoader S H → String → String → M S (Result String)
      unfolding expand_open
      expand_and_resolve_deps l chart_path tmp =
          let unpacked = files.join_path (tmp ∷ "unpacked" ∷ []) in
          checked (files.mkdir_all unpacked) >>? λ _. registry.open_file chart_path >>? λ f.
          expand_open l unpacked f >>= λ r. registry.close f >>= λ _. pure r

      -- The part of `Load` that works in the scratch directory.
      unfoldable pub load_in :
          HelmLoader S H → String → String → String → String → M S (Result Chart)
      unfolding pull_oci expand_and_resolve_deps
      load_in l repo name version tmp =
          (if has_prefix repo "oci://"
            then pull_oci l repo name version tmp
            else pure (err unsupported_scheme))
          >>? λ chart_path.
              expand_and_resolve_deps l chart_path tmp >>? λ chart_dir. registry.load_dir chart_dir

      unfoldable pub load_chart : HelmLoader S H → String → String → String → M S (Result Chart)
      unfolding reject_url_credentials load_in
      load_chart l repo name version = elim (reject_url_credentials urls repo) [
        | some e ↦ pure (err e)
        | none ↦
            (files.mkdir_temp l.scratch_dir "ddo-helm-" >>? λ tmp.
            load_in l repo name version tmp >>= λ r. files.remove_all tmp >>= λ _. pure r)
      ]
