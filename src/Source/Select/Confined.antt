-- ===== src/Source/Select/Confined.antt =====
-- The calls that rendering a source makes, whichever kind it has and whether it is cached.
use dual_deployment_operator.Base.{
  ◌≡◌, subst, String, Option, none, some, Result, ok, err, M, Keeps, arith,
}
use dual_deployment_operator.Json.{Fields}
use dual_deployment_operator.Library.{Library}
use dual_deployment_operator.Api.{HelmSource, KustomizeSource, SourceSpec}
use dual_deployment_operator.Controller.Reconciler.{Source}
use dual_deployment_operator.Source.Cache.{Lru}
use dual_deployment_operator.Source.Helm.{helm_source}
use dual_deployment_operator.Source.Kustomize.{kustomize_source}
use dual_deployment_operator.Source.Loader.Calls.{
  RegistryKeeps, FilesKeep, load_chart-Keeps, resolve_digest-Keeps,
}
use dual_deployment_operator.Source.Git.Calls.{
  GitKeeps, CleanUpKeeps, resolve_root-kept, resolve_commit-Keeps,
}
use dual_deployment_operator.Source.Select.{
  Calls, Deps, ChartLoader, helm_loader, other_loader, RootResolver, git_resolver, other_resolver,
  with_helm_creds, with_git_creds, load_by, resolve_by, id_with_scope, wrap_helm, wrap_kustomize,
  helm_from, kustomize_from, from_resolver, kustomize_with, source_from, from_parts,
}
use dual_deployment_operator.Source.Select.Renders.{
  LruKeeps, RenderKeeps, render_cached-Keeps, helm_source-RenderKeeps, kustomize_source-RenderKeeps,
}
use dual_deployment_operator.Source.Select.Fetchers.{
  SecretsKeep, LoaderKeeps, RootKeeps, with_git_creds-RootKeeps, with_helm_creds-LoaderKeeps,
}

-- The libraries of the two kinds of source keep `P`.
pub record LibrariesKeep {S H Client File Chart Url Repo Remote Worktree Tree : Type 0}
    (P : S → Type 0) (calls : Calls S H Client File Chart Url Repo Remote Worktree Tree)
    : Type 0 where
  pub registry : RegistryKeeps P calls.registry
  pub git : GitKeeps P calls.git
  pub files : FilesKeep P calls.files
  pub install :
      (chart : Chart) (name ns : String) (values : Fields)
      → Keeps P (calls.helm.install chart name ns values)
  pub run : (root : String) → Keeps P (calls.kustomize.run root)

abbrev pub MaybeLoaderKeeps :
    {S H Chart : Type 0} → (S → Type 0) → Option (ChartLoader S H Chart) → Type 0
MaybeLoaderKeeps P none = Unit
MaybeLoaderKeeps P (some cl) = LoaderKeeps P cl

abbrev pub MaybeRootKeeps : {S : Type 0} → (S → Type 0) → Option (RootResolver S) → Type 0
MaybeRootKeeps P none = Unit
MaybeRootKeeps P (some rr) = RootKeeps P rr

-- The fetchers that a source is made with, its cache and its reads of Secrets keep `P`.
pub record DepsKeep {S H Chart : Type 0} (P : S → Type 0) (deps : Deps S H Chart) : Type 0 where
  pub loader : MaybeLoaderKeeps P deps.chart_loader
  pub root : MaybeRootKeeps P deps.root_resolver
  pub secrets : SecretsKeep P deps.credential_resolver
  pub cache : LruKeeps P deps.render_cache

module _ {S H Client File Chart Url Repo Remote Worktree Tree : Type 0} (P : S → Type 0)
    (calls : Calls S H Client File Chart Url Repo Remote Worktree Tree)
    (libraries : LibrariesKeep P calls) ⦃k : Library⦄ where
  load_by-Keeps :
      (cl : ChartLoader S H Chart)
      → LoaderKeeps P cl
      → (repo name version : String) → Keeps P (load_by calls cl repo name version)
  load_by-Keeps (helm_loader l) h repo name version =
      load_chart-Keeps P calls.registry libraries.registry calls.urls l h calls.files
        libraries.files calls.charts repo name version
  load_by-Keeps (other_loader load) h repo name version = h repo name version

  resolve_by-kept :
      (rr : RootResolver S)
      → RootKeeps P rr
      → (url path : String) (s : S) → P s
      → P (resolve_by calls rr url path s).1 × CleanUpKeeps P (resolve_by calls rr url path s).0
  resolve_by-kept (git_resolver resolve) h url path s p =
      resolve_root-kept P calls.git libraries.git calls.urls resolve h url path s p
  resolve_by-kept (other_resolver resolve) h url path s p = h url path s p

  id_with_scope-Keeps :
      (scope : Result String) (find : M S (Result String))
      → Keeps P find
      → Keeps P (id_with_scope scope find)
  id_with_scope-Keeps (err e) find h = record { at = λ s p. p }
  id_with_scope-Keeps (ok scope) find h = record { at = h.at }

  wrap_helm-RenderKeeps :
      (inner : Source S) (cl : ChartLoader S H Chart) (spec : HelmSource) (lru : Option (Lru S))
      → RenderKeeps P inner
      → LoaderKeeps P cl
      → LruKeeps P lru
      → RenderKeeps P (wrap_helm calls inner cl spec lru)
  unfolding wrap_helm
  wrap_helm-RenderKeeps inner (helm_loader l) spec none h loader cache = h
  wrap_helm-RenderKeeps inner (helm_loader l) spec (some lru) h loader cache =
      render_cached-Keeps P _ h cache (λ mode. id_with_scope-Keeps _ _ (
        resolve_digest-Keeps P calls.registry libraries.registry calls.urls l loader spec.repo
          spec.name spec.version))
  wrap_helm-RenderKeeps inner (other_loader load) spec none h loader cache = h
  wrap_helm-RenderKeeps inner (other_loader load) spec (some lru) h loader cache = h

  wrap_kustomize-RenderKeeps :
      (inner : Source S) (rr : RootResolver S) (spec : KustomizeSource) (lru : Option (Lru S))
      → RenderKeeps P inner
      → RootKeeps P rr
      → LruKeeps P lru
      → RenderKeeps P (wrap_kustomize calls inner rr spec lru)
  unfolding wrap_kustomize
  wrap_kustomize-RenderKeeps inner (git_resolver resolve) spec none h root cache = h
  wrap_kustomize-RenderKeeps inner (git_resolver resolve) spec (some lru) h root cache =
      render_cached-Keeps P _ h cache (λ mode.
        id_with_scope-Keeps _ _
          (resolve_commit-Keeps P calls.git libraries.git calls.urls resolve root spec.url))
  wrap_kustomize-RenderKeeps inner (other_resolver resolve) spec none h root cache = h
  wrap_kustomize-RenderKeeps inner (other_resolver resolve) spec (some lru) h root cache = h

  helm_from-RenderKeeps :
      (spec : HelmSource) (deps : Deps S H Chart) (src : Source S)
      → DepsKeep P deps
      → helm_from calls spec deps ≡ ok src
      → RenderKeeps P src
  unfolding helm_from
  helm_from-RenderKeeps spec deps src keeps h = from deps.chart_loader keeps.loader h
    where
      made : ChartLoader S H Chart → Source S
      made cl =
          let loader = with_helm_creds cl deps.credential_resolver spec.auth_secret_ref in
          let lib = record (calls.helm) { load = load_by calls loader } in
          wrap_helm calls (helm_source lib spec) loader spec deps.render_cache

      made_keeps : (cl : ChartLoader S H Chart) → LoaderKeeps P cl → RenderKeeps P (made cl)
      made_keeps cl loader =
          let cl' = with_helm_creds cl deps.credential_resolver spec.auth_secret_ref in
          let keeps' =
            with_helm_creds-LoaderKeeps P cl deps.credential_resolver spec.auth_secret_ref loader
              keeps.secrets in
          let lib = record (calls.helm) { load = load_by calls cl' } in
          wrap_helm-RenderKeeps (helm_source lib spec) cl' spec deps.render_cache
            (helm_source-RenderKeeps P lib (load_by-Keeps cl' keeps') libraries.install spec) keeps'
            keeps.cache

      from :
          (loader : Option (ChartLoader S H Chart))
          → MaybeLoaderKeeps P loader
          → helm_from calls spec (record deps { chart_loader = loader }) ≡ ok src
          → RenderKeeps P src
      from none keeps' e = absurd (ground (arith, e))
      from (some cl) keeps' e =
          let same : made cl ≡ src = ground (arith, e) in
          subst (RenderKeeps P) same (made_keeps cl keeps')

  kustomize_from-RenderKeeps :
      (spec : KustomizeSource) (deps : Deps S H Chart) (src : Source S)
      → DepsKeep P deps
      → kustomize_from calls spec deps ≡ ok src
      → RenderKeeps P src
  unfolding kustomize_from from_resolver
  kustomize_from-RenderKeeps spec deps src keeps h = from deps.root_resolver keeps.root h
    where
      made : RootResolver S → Source S
      made rr =
          let resolver = with_git_creds rr deps.credential_resolver spec.auth_secret_ref in
          let lib = record (calls.kustomize) { resolve = resolve_by calls resolver } in
          wrap_kustomize calls (kustomize_source lib spec) resolver spec deps.render_cache

      made_keeps : (rr : RootResolver S) → RootKeeps P rr → RenderKeeps P (made rr)
      made_keeps rr root =
          let rr' = with_git_creds rr deps.credential_resolver spec.auth_secret_ref in
          let keeps' =
            with_git_creds-RootKeeps P rr deps.credential_resolver spec.auth_secret_ref root
              keeps.secrets in
          let lib = record (calls.kustomize) { resolve = resolve_by calls rr' } in
          wrap_kustomize-RenderKeeps (kustomize_source lib spec) rr' spec deps.render_cache
            (kustomize_source-RenderKeeps P lib (resolve_by-kept rr' keeps') libraries.run spec)
            keeps' keeps.cache

      from :
          (root : Option (RootResolver S))
          → MaybeRootKeeps P root
          → kustomize_with calls spec deps root ≡ ok src
          → RenderKeeps P src
      from none keeps' e = absurd (ground (arith, e))
      from (some rr) keeps' e =
          let same : made rr ≡ src = ground (arith, e) in
          subst (RenderKeeps P) same (made_keeps rr keeps')

  -- Rendering a source, of either kind, cached or not, whatever fails, makes no other calls than
  -- those of Helm's registry and install, of go-git, of the file system and of kustomize, lookups and
  -- additions of the cache, and reads of Secrets by the credential resolver, or those of stand-ins
  -- for the fetchers, if it is made with these: what all of them keep, it keeps.
  pub source_from-RenderKeeps :
      (spec : SourceSpec) (deps : Deps S H Chart) (src : Source S)
      → DepsKeep P deps
      → source_from calls spec deps ≡ ok src
      → RenderKeeps P src
  unfolding source_from
  source_from-RenderKeeps spec deps src keeps h = from spec.helm spec.kustomize h
    where
      from :
          (helm : Option HelmSource) (kustomize : Option KustomizeSource)
          → from_parts calls helm kustomize deps ≡ ok src
          → RenderKeeps P src
      from (some helm) none e = helm_from-RenderKeeps helm deps src keeps e
      from none (some kustomize) e = kustomize_from-RenderKeeps kustomize deps src keeps e
      from none none e = absurd (ground (arith, e))
      from (some helm) (some kustomize) e = absurd (ground (arith, e))
