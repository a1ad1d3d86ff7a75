-- ===== src/Source/Loader/Calls.antt =====
-- The calls that pulling a chart and resolving its digest make.
use dual_deployment_operator.Base.{
  String, Bool, true, false, Option, none, some, List, [], ◌∷◌, Error, Result, ok, err, M, pure,
  ◌>>?◌, ◌>>=◌, has_prefix, if◌then◌else◌, Keeps, Keeps-pure, Keeps-if, Keeps-bind, Keeps-chain,
  Keeps-checked, Keeps-wrapping,
}
use dual_deployment_operator.Library.{Library}
use dual_deployment_operator.Source.Credentials.{Creds}
use dual_deployment_operator.Source.Url.{UrlLibrary, Resolve}
use dual_deployment_operator.Source.Plan.{FileSystem, ChartFiles, resolve_deps_plan}
use dual_deployment_operator.Source.Git.Calls.{ResolveKeeps}
use dual_deployment_operator.Source.Loader.{
  ClientOption, Registry, HelmLoader, cred_for, oci_host, oci_registry_client,
  reject_url_credentials, resolve_oci_digest, resolve_digest, unsupported_scheme,
}
use dual_deployment_operator.Source.Loader.Pull.{
  read_tgz, single_child_dir, pull_oci, build_dependencies, resolve_deps, expand_open,
  expand_and_resolve_deps, load_in, load_chart,
}

-- The calls of Helm's registry and of the file system keep `P`.
pub record RegistryKeeps {S H Client File Chart : Type 0} (P : S → Type 0)
    (registry : Registry S H Client File Chart) : Type 0 where
  pub new_client : (options : List (ClientOption H)) → Keeps P (registry.new_client options)
  pub pull :
      (client : Client) (version dest ref : String)
      → Keeps P (registry.pull client version dest ref)
  pub resolve : (client : Client) (ref : String) → Keeps P (registry.resolve client ref)
  pub open_file : (path : String) → Keeps P (registry.open_file path)
  pub close : (f : File) → Keeps P (registry.close f)
  pub expand : (dest : String) (f : File) → Keeps P (registry.expand dest f)
  pub build : (client : Client) (dir : String) → Keeps P (registry.build client dir)
  pub load_dir : (dir : String) → Keeps P (registry.load_dir dir)

pub record FilesKeep {S : Type 0} (P : S → Type 0) (files : FileSystem S) : Type 0 where
  pub mkdir_temp : (dir pattern : String) → Keeps P (files.mkdir_temp dir pattern)
  pub mkdir_all : (dir : String) → Keeps P (files.mkdir_all dir)
  pub remove_all : (dir : String) → Keeps P (files.remove_all dir)

module _ {S H Client File Chart Url : Type 0} (P : S → Type 0)
    (registry : Registry S H Client File Chart) (keeps : RegistryKeeps P registry)
    (urls : UrlLibrary Url) (l : HelmLoader S H) (credentials : ResolveKeeps P l.resolve) where
  cred_for-Keeps : (host : String) → Keeps P (cred_for l host)
  unfolding cred_for
  cred_for-Keeps host = from l.resolve credentials
    where
      from :
          (resolve : Resolve S)
          → ResolveKeeps P resolve
          → Keeps P (cred_for (record l { resolve = resolve }) host)
      from none h = record { at = λ s p. p }
      from (some resolve) h = record { at = (h "").at }

  oci_registry_client-Keeps : (c : Creds) → Keeps P (oci_registry_client registry urls l c)
  unfolding oci_registry_client
  oci_registry_client-Keeps c = keeps.new_client _

  resolve_oci_digest-Keeps :
      (repo name version : String) → Keeps P (resolve_oci_digest registry urls l repo name version)
  unfolding resolve_oci_digest
  resolve_oci_digest-Keeps repo name version =
      Keeps-chain _ _ (Keeps-wrapping _ _ (cred_for-Keeps (oci_host urls repo))) λ c.
        Keeps-chain _ _ (keeps.new_client _) λ client. Keeps-wrapping _ _ (keeps.resolve client _)

  pub resolve_digest-Keeps :
      (repo name version : String) → Keeps P (resolve_digest registry urls l repo name version)
  unfolding resolve_digest
  resolve_digest-Keeps repo name version = from (reject_url_credentials urls repo) (
      Keeps-if (has_prefix repo "oci://") _ _ (λ _. resolve_oci_digest-Keeps repo name version)
        (λ _. Keeps-pure (err unsupported_scheme)))
    where
      from :
          (rejected : Option Error)
          → Keeps P (
              if has_prefix repo "oci://"
              then resolve_oci_digest registry urls l repo name version
              else pure (err unsupported_scheme))
          → Keeps P (elim rejected [
            | some e ↦ pure (err e)
            | none ↦
                (if has_prefix repo "oci://"
                  then resolve_oci_digest registry urls l repo name version
                  else pure (err unsupported_scheme))
          ])
      from (some e) h = Keeps-pure (err e)
      from none h = h

  module _ (files : FileSystem S) (files_keep : FilesKeep P files) where
    single_child_dir-Keeps :
        (parent : String) → Keeps P (single_child_dir registry urls files parent)
    unfolding single_child_dir
    single_child_dir-Keeps parent = record { at = λ s p. p }

    read_tgz-Keeps : (dest : String) → Keeps P (read_tgz registry urls files dest)
    unfolding read_tgz
    read_tgz-Keeps dest = record { at = λ s p. p }

    pull_oci-Keeps :
        (repo name version dest : String)
        → Keeps P (pull_oci registry urls files l repo name version dest)
    unfolding pull_oci
    pull_oci-Keeps repo name version dest =
        Keeps-chain _ _ (Keeps-wrapping _ _ (cred_for-Keeps (oci_host urls repo))) λ c.
          Keeps-chain _ _ (oci_registry_client-Keeps c) λ client.
            Keeps-chain _ _
              (Keeps-wrapping _ _ (Keeps-checked _ (keeps.pull client version dest _)))
              λ _. read_tgz-Keeps dest

    module _ (charts : ChartFiles S) ⦃k : Library⦄ where
      build_dependencies-Keeps :
          (chart_dir : String) → Keeps P (build_dependencies registry urls files charts l chart_dir)
      unfolding build_dependencies
      build_dependencies-Keeps chart_dir =
          Keeps-chain _ _ (Keeps-wrapping _ _ (cred_for-Keeps "")) λ c.
            Keeps-chain _ _ (oci_registry_client-Keeps c)
              λ client. Keeps-wrapping _ _ (Keeps-checked _ (keeps.build client chart_dir))

      resolve_deps-Keeps :
          (chart_dir : String) (plan : Result Bool)
          → Keeps P (resolve_deps registry urls files charts l chart_dir plan)
      unfolding resolve_deps
      resolve_deps-Keeps chart_dir (err e) = Keeps-pure (err e)
      resolve_deps-Keeps chart_dir (ok false) = Keeps-pure (ok chart_dir)
      resolve_deps-Keeps chart_dir (ok true) =
          Keeps-chain _ _ (build_dependencies-Keeps chart_dir) λ _. Keeps-pure (ok chart_dir)

      planned-Keeps :
          (chart_dir : String)
          → Keeps {S = S} P (λ s.
            resolve_deps registry urls files charts l chart_dir
              (resolve_deps_plan files charts chart_dir s)
              s)
      planned-Keeps chart_dir = record {
        at = λ s p.
            (resolve_deps-Keeps chart_dir (resolve_deps_plan files charts chart_dir s)).at s p;
      }

      expand_open-Keeps :
          (unpacked : String) (f : File)
          → Keeps P (expand_open registry urls files charts l unpacked f)
      unfolding expand_open
      expand_open-Keeps unpacked f =
          Keeps-chain _ _ (Keeps-wrapping _ _ (Keeps-checked _ (keeps.expand unpacked f)))
            λ _. Keeps-chain _ _ (single_child_dir-Keeps unpacked) planned-Keeps

      expand_and_resolve_deps-Keeps :
          (chart_path tmp : String)
          → Keeps P (expand_and_resolve_deps registry urls files charts l chart_path tmp)
      unfolding expand_and_resolve_deps
      expand_and_resolve_deps-Keeps chart_path tmp =
          let unpacked = files.join_path (tmp ∷ "unpacked" ∷ []) in
          Keeps-chain _ _ (Keeps-checked _ (files_keep.mkdir_all unpacked)) λ _.
            Keeps-chain _ _ (keeps.open_file chart_path) λ f.
              Keeps-bind _ _ (expand_open-Keeps unpacked f)
                λ r. Keeps-bind _ _ (keeps.close f) λ _. Keeps-pure r

      load_in-Keeps :
          (repo name version tmp : String)
          → Keeps P (load_in registry urls files charts l repo name version tmp)
      unfolding load_in
      load_in-Keeps repo name version tmp =
          Keeps-chain _ _
            (Keeps-if (has_prefix repo "oci://") _ _ (λ _. pull_oci-Keeps repo name version tmp)
              (λ _. Keeps-pure (err unsupported_scheme)))
            λ chart_path.
              Keeps-chain _ _ (expand_and_resolve_deps-Keeps chart_path tmp)
                λ chart_dir. keeps.load_dir chart_dir

      abbrev scratch : String → String → String → M S (Result Chart)
      scratch repo name version = files.mkdir_temp l.scratch_dir "ddo-helm-" >>? λ tmp.
          load_in registry urls files charts l repo name version tmp >>= λ r.
          files.remove_all tmp >>= λ _. pure r

      scratch-Keeps : (repo name version : String) → Keeps P (scratch repo name version)
      scratch-Keeps repo name version =
          Keeps-chain _ _ (files_keep.mkdir_temp l.scratch_dir "ddo-helm-") λ tmp.
            Keeps-bind _ _ (load_in-Keeps repo name version tmp)
              λ r. Keeps-bind _ _ (files_keep.remove_all tmp) λ _. Keeps-pure r

      pub load_chart-Keeps :
          (repo name version : String)
          → Keeps P (load_chart registry urls files charts l repo name version)
      unfolding load_chart
      load_chart-Keeps repo name version = from (reject_url_credentials urls repo)
        where
          from :
              (rejected : Option Error)
              → Keeps P (elim rejected [ some e ↦ pure (err e) | none ↦ scratch repo name version ])
          from (some e) = Keeps-pure (err e)
          from none = scratch-Keeps repo name version
