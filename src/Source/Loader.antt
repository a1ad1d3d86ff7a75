-- ===== src/Source/Loader.antt =====
-- internal/source/helmloader.go: a chart is pulled from an OCI registry into a scratch directory,
-- expanded and loaded, and its tag is resolved to a digest for the cache.
pub mod Pull
pub mod Refused
pub mod Calls
use dual_deployment_operator.Base.{
  String, Bool, true, false, Option, none, some, List, [], ◌∷◌, ◌++◌, ◌==◌, if◌then◌else◌, Error,
  Result, ok, err, plain, concat, M, pure, ◌>>=◌, ◌>>?◌, wrapping, checked, cut, has_prefix,
  trim_prefix, has_suffix, trim_suffix,
}
use dual_deployment_operator.Library.{Library}
use dual_deployment_operator.Source.Credentials.{Creds, anonymous}
use dual_deployment_operator.Source.Url.{UrlLibrary, Resolve, host_of}
use dual_deployment_operator.Source.Plan.{FileSystem, ChartFiles, resolve_deps_plan}

-- `registry.ClientOption`; `H` is a client for HTTP.
pub data ClientOption (H : Type 0) : Type 0 where
  enable_cache : ClientOption H
  basic_auth : String → String → ClientOption H
  http_client : H → ClientOption H

-- Helm's calls: `pull` takes the version, the directory and the reference, `resolve` gives the digest
-- of a reference, `expand` unpacks an open file, and `build` is `downloader.Manager.Build`.
pub record Registry (S H Client File Chart : Type 0) : Type 0 where
  pub new_client : List (ClientOption H) → M S (Result Client)
  pub pull : Client → String → String → String → M S (Option Error)
  pub resolve : Client → String → M S (Result String)
  pub open_file : String → M S (Result File)
  pub close : File → M S (Unit {0})
  pub expand : String → File → M S (Option Error)
  pub build : Client → String → M S (Option Error)
  pub load_dir : String → M S (Result Chart)

pub record HelmLoader (S H : Type 0) : Type 0 where
  pub resolve : Resolve S
  pub http_client : Option H
  pub scratch_dir : String

abbrev pub source_error : String → Error
source_error text = plain (concat ("source: " ∷ text ∷ []))

-- `strings.Replace(s, old, new, 1)`
abbrev pub replace_found : String → String → Option (String × String) → String
replace_found s new none = s
replace_found s new (some (before, after)) = concat (before ∷ new ∷ after ∷ [])

abbrev pub as_https : String → String
as_https url = replace_found url "https://" (cut "oci://" url)

-- The reference of a chart in a repository, without the scheme.
unfoldable pub chart_path_of : String → String → String
chart_path_of repo name = concat (trim_suffix (trim_prefix repo "oci://") "/" ∷ "/" ∷ name ∷ [])

module _ {Url : Type 0} (urls : UrlLibrary Url) where
  abbrev pub url_credentials_error : Result Url → Option Error
  url_credentials_error (err e) = some (source_error "chart repo url is not parseable")
  url_credentials_error (ok u) =
      if urls.has_user u
      then some
          (source_error "chart repo url must not embed credentials in the URL; use authSecretRef")
      else none

  unfoldable pub reject_url_credentials : String → Option Error
  reject_url_credentials repo = url_credentials_error (urls.parse (as_https repo))

  unfoldable pub oci_host : String → String
  unfolding host_of
  oci_host repo = host_of urls (as_https repo)

  -- repoScope
  unfoldable pub helm_repo_scope : String → Result String
  unfolding oci_host
  helm_repo_scope repo =
      if has_prefix repo "oci://"
      then ok (concat ("oci:" ∷ oci_host repo ∷ []))
      else err
          (source_error "unsupported chart repo scheme for repoScope (only oci:// is supported)")

abbrev pub unsupported_scheme : Error
unsupported_scheme = source_error "unsupported chart repo scheme (only oci:// is supported)"

module _ {S H : Type 0} where
  -- The host is not looked at.
  unfoldable pub cred_for : HelmLoader S H → String → M S (Result Creds)
  cred_for l host = elim l.resolve [ none ↦ pure (ok anonymous) | some resolve ↦ resolve "" ]

abbrev pub basic_auth_option : {H : Type 0} → Creds → List (ClientOption H)
basic_auth_option c = if c.usable then basic_auth c.user c.pass ∷ [] else []

abbrev pub http_client_option : {H : Type 0} → Option H → List (ClientOption H)
http_client_option none = []
http_client_option (some client) = http_client client ∷ []

module _ {S H Client File Chart Url : Type 0} (registry : Registry S H Client File Chart)
    (urls : UrlLibrary Url) where
  unfoldable pub oci_registry_client : HelmLoader S H → Creds → M S (Result Client)
  oci_registry_client l c =
      registry.new_client (enable_cache ∷ (basic_auth_option c ++ http_client_option l.http_client))

  unfoldable pub resolve_oci_digest :
      HelmLoader S H → String → String → String → M S (Result String)
  unfolding cred_for oci_host chart_path_of
  resolve_oci_digest l repo name version =
      wrapping "source: resolve credentials: " (cred_for l (oci_host urls repo)) >>? λ c.
      registry.new_client (enable_cache ∷ (basic_auth_option c ++ http_client_option l.http_client))
      >>? λ client.
          wrapping (concat ("source: resolve oci digest " ∷ name ∷ ":" ∷ version ∷ ": " ∷ []))
            (registry.resolve client (concat (chart_path_of repo name ∷ ":" ∷ version ∷ [])))

  -- ResolveID
  unfoldable pub resolve_digest : HelmLoader S H → String → String → String → M S (Result String)
  unfolding reject_url_credentials
  resolve_digest l repo name version = elim (reject_url_credentials urls repo) [
    | some e ↦ pure (err e)
    | none ↦
        (if has_prefix repo "oci://"
          then resolve_oci_digest l repo name version
          else pure (err unsupported_scheme))
  ]
