-- ===== src/Source/Select.antt =====
-- internal/source/source.go and the rest of cache.go: a source is made from its spec, with the
-- credentials that the spec names and with the cache of renders.
pub mod Chosen
pub mod Unpinned
pub mod Renders
pub mod Fetchers
pub mod Confined
use Prim.Native.Char.{nul}
use dual_deployment_operator.Base.{
  String, Bool, Option, none, some, List, [], ◌∷◌, Error, Result, ok, err, M, pure, ◌>>=◌, concat,
}
use dual_deployment_operator.Json.{Fields, end, text, object, insert}
use dual_deployment_operator.Library.{Library}
use dual_deployment_operator.Api.{SecretReference, HelmSource, KustomizeSource, SourceSpec}
use dual_deployment_operator.Controller.Reconciler.{Source, Mode}
use dual_deployment_operator.Source.Credentials.{Creds, CredentialResolver, resolve_credentials}
use dual_deployment_operator.Source.Cache.{Lru, CachingSource, render_cached}
use dual_deployment_operator.Source.Helm.{HelmLibrary, merge_values, helm_source}
use dual_deployment_operator.Source.Kustomize.{KustomizeLibrary, kustomize_source}
use dual_deployment_operator.Source.Url.{UrlLibrary, Resolve}
use dual_deployment_operator.Source.Plan.{FileSystem, ChartFiles}
use dual_deployment_operator.Source.Loader.Pull.{load_chart}
use dual_deployment_operator.Source.Loader.{
  Registry, HelmLoader, resolve_digest, helm_repo_scope, source_error,
}
use dual_deployment_operator.Source.Git.{
  GitLibrary, SplitRef, split_ref, resolve_root, resolve_commit, git_repo_scope,
}

-- The interfaces `ChartLoader` and `RootResolver`: the production one, or a stand-in of the tests.
pub data ChartLoader (S H Chart : Type 0) : Type 0 where
  helm_loader : HelmLoader S H → ChartLoader S H Chart
  other_loader : (String → String → String → M S (Result Chart)) → ChartLoader S H Chart

pub data RootResolver (S : Type 0) : Type 0 where
  git_resolver : Resolve S → RootResolver S
  other_resolver : (String → String → M S (Result (String × M S (Unit {0})))) → RootResolver S

pub record Deps (S H Chart : Type 0) : Type 0 where
  pub chart_loader : Option (ChartLoader S H Chart)
  pub root_resolver : Option (RootResolver S)
  pub credential_resolver : Option (CredentialResolver S)
  pub render_cache : Option (Lru S)

-- What the two kinds of source call.
pub record Calls (S H Client File Chart Url Repo Remote Worktree Tree : Type 0) : Type 0 where
  pub registry : Registry S H Client File Chart
  pub git : GitLibrary S Repo Remote Worktree
  pub urls : UrlLibrary Url
  pub files : FileSystem S
  pub charts : ChartFiles S
  pub helm : HelmLibrary S Chart
  pub kustomize : KustomizeLibrary S Tree

module _ {S H Chart : Type 0} where
  unfoldable pub with_helm_creds :
      ChartLoader S H Chart
      → Option (CredentialResolver S)
      → Option SecretReference
      → ChartLoader S H Chart
  unfolding resolve_credentials
  with_helm_creds (helm_loader l) (some cr) ref =
      helm_loader (record l { resolve = some (λ host. resolve_credentials cr ref) })
  with_helm_creds loader cr ref = loader

module _ {S : Type 0} where
  unfoldable pub with_git_creds :
      RootResolver S → Option (CredentialResolver S) → Option SecretReference → RootResolver S
  unfolding resolve_credentials
  with_git_creds (git_resolver resolve) (some cr) ref =
      git_resolver (some (λ host. resolve_credentials cr ref))
  with_git_creds resolver cr ref = resolver

module _ ⦃k : Library⦄ where
  abbrev pub bytes_or_sentinel : Result String → String
  bytes_or_sentinel (ok bytes) = bytes
  bytes_or_sentinel (err e) = String.◌∷◌ nul "unmarshalable"

  unfoldable pub hash_values : Fields → String
  hash_values v = k.sha256_hex (bytes_or_sentinel (k.marshal_object v))

abbrev pub insert_merged : String → Result Fields → Fields → Fields
insert_merged key (ok values) base = insert key (object values) base
insert_merged key (err e) base = base

-- The scope is found first, then the id.
abbrev pub id_with_scope :
    {S : Type 0} → Result String → M S (Result String) → M S (Result (String × String))
id_with_scope (err e) find = pure (err e)
id_with_scope (ok scope) find = do
  found ← find
  pure (elim found [ err e ↦ err e | ok id ↦ ok (id, scope) ])

abbrev pub root_sub_path_or_empty : Result SplitRef → String
root_sub_path_or_empty (ok s) = s.root_sub_path
root_sub_path_or_empty (err e) = ""

module _ {S : Type 0} where
  abbrev pub as_source : CachingSource S → Source S
  as_source c = record { render = render_cached c }

module _ {S H Client File Chart Url Repo Remote Worktree Tree : Type 0}
    (calls : Calls S H Client File Chart Url Repo Remote Worktree Tree) ⦃k : Library⦄ where
  -- The method `Load`.
  abbrev pub load_by : ChartLoader S H Chart → String → String → String → M S (Result Chart)
  load_by (helm_loader l) = load_chart calls.registry calls.urls calls.files calls.charts l
  load_by (other_loader load) = load

  -- The method `Resolve`.
  abbrev pub resolve_by : RootResolver S → String → String → M S (Result (String × M S (Unit {0})))
  resolve_by (git_resolver resolve) = resolve_root calls.git calls.urls resolve
  resolve_by (other_resolver resolve) = resolve

  -- What the key of a helm render holds besides the mode, the namespace and the content id.
  unfoldable pub helm_inputs : HelmSource → Fields
  unfolding merge_values
  helm_inputs spec =
      insert_merged "shootValues" (merge_values calls.helm spec.values spec.shoot_values) (
        insert_merged "seedValues" (merge_values calls.helm spec.values spec.seed_values)
          (insert "version" (text spec.version) (insert "name" (text spec.name) end)))

  unfoldable pub wrap_helm :
      Source S → ChartLoader S H Chart → HelmSource → Option (Lru S) → Source S
  unfolding hash_values helm_inputs helm_repo_scope resolve_digest
  wrap_helm inner (helm_loader l) spec (some cache) = as_source (record {
    inner = inner;
    cache = cache;
    source_kind = "helm";
    input_hash = hash_values (helm_inputs spec);
    resolve = λ mode.
        id_with_scope (helm_repo_scope calls.urls spec.repo)
          (resolve_digest calls.registry calls.urls l spec.repo spec.name spec.version);
  })
  wrap_helm inner loader spec cache = inner

  unfoldable pub kustomize_inputs : KustomizeSource → Fields
  unfolding split_ref
  kustomize_inputs spec = insert "shootPath" (text spec.shoot_path) (
      insert "seedPath" (text spec.seed_path)
        (insert "rootSubPath" (text (root_sub_path_or_empty (split_ref calls.urls spec.url))) end))

  unfoldable pub wrap_kustomize :
      Source S → RootResolver S → KustomizeSource → Option (Lru S) → Source S
  unfolding hash_values kustomize_inputs git_repo_scope resolve_commit
  wrap_kustomize inner (git_resolver resolve) spec (some cache) = as_source (record {
    inner = inner;
    cache = cache;
    source_kind = "kustomize";
    input_hash = hash_values (kustomize_inputs spec);
    resolve = λ mode.
        id_with_scope (git_repo_scope calls.urls spec.url)
          (resolve_commit calls.git calls.urls resolve spec.url);
  })
  wrap_kustomize inner resolver spec cache = inner

  unfoldable pub helm_from : HelmSource → Deps S H Chart → Result (Source S)
  unfolding with_helm_creds wrap_helm helm_source
  helm_from spec deps = elim deps.chart_loader [
    | none ↦ err (source_error "helm source requires a ChartLoader (none configured)")
    | some cl ↦
        (let loader = with_helm_creds cl deps.credential_resolver spec.auth_secret_ref in
          let lib = record (calls.helm) { load = load_by loader } in
          ok (wrap_helm (helm_source lib spec) loader spec deps.render_cache))
  ]

  -- The source over a resolver that has the credentials.
  unfoldable pub from_resolver :
      KustomizeSource → Deps S H Chart → RootResolver S → Result (Source S)
  unfolding wrap_kustomize kustomize_source
  from_resolver spec deps resolver =
      let lib = record (calls.kustomize) { resolve = resolve_by resolver } in
      ok (wrap_kustomize (kustomize_source lib spec) resolver spec deps.render_cache)

  abbrev pub kustomize_with :
      KustomizeSource → Deps S H Chart → Option (RootResolver S) → Result (Source S)
  kustomize_with spec deps none =
      err (source_error "kustomize source requires a RootResolver (none configured)")
  kustomize_with spec deps (some rr) =
      from_resolver spec deps (with_git_creds rr deps.credential_resolver spec.auth_secret_ref)

  unfoldable pub kustomize_from : KustomizeSource → Deps S H Chart → Result (Source S)
  unfolding with_git_creds from_resolver
  kustomize_from spec deps = kustomize_with spec deps deps.root_resolver

  abbrev pub from_parts :
      Option HelmSource → Option KustomizeSource → Deps S H Chart → Result (Source S)
  from_parts (some helm) none deps = helm_from helm deps
  from_parts none (some kustomize) deps = kustomize_from kustomize deps
  from_parts helm kustomize deps =
      err (source_error "exactly one of source.helm or source.kustomize must be set")

  -- From
  unfoldable pub source_from : SourceSpec → Deps S H Chart → Result (Source S)
  unfolding helm_from kustomize_from
  source_from spec deps = from_parts spec.helm spec.kustomize deps
