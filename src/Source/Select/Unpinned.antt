-- ===== src/Source/Select/Unpinned.antt =====
-- Sources whose kustomize URL is refused (From in source.go, with its cache and its git resolver).
use dual_deployment_operator.Base.{
  ◌≡◌, refl, ap, ◌∙◌, ◌⊎◌, String, true, Option, none, some, Error, Result, ok, err, M,
}
use dual_deployment_operator.Library.{Library}
use dual_deployment_operator.Api.{HelmSource, KustomizeSource, SourceSpec}
use dual_deployment_operator.Controller.Reconciler.{Source, Mode}
use dual_deployment_operator.Source.Credentials.{CredentialResolver, resolve_credentials}
use dual_deployment_operator.Source.Cache.{Lru, CachingSource, render_cached, render_resolved}
use dual_deployment_operator.Source.Url.{Resolve}
use dual_deployment_operator.Source.Git.{resolve_commit}
use dual_deployment_operator.Source.Git.Pinned.{resolve_root_unpinned}
use dual_deployment_operator.Source.Kustomize.{
  KustomizeLibrary, kustomize_source, build_root, sub_path,
}
use dual_deployment_operator.Source.Select.{
  Calls, Deps, git_resolver, with_git_creds, wrap_kustomize, kustomize_from, kustomize_with,
  from_resolver, resolve_by, id_with_scope, from_parts, source_from,
}

module _ {S : Type 0} where
  -- Every render fails and leaves the world as it is.
  abbrev pub FailsToRender : Source S → Type 0
  FailsToRender src =
      (mode : Mode) (ns : String) (s : S) → (e : Error) × (src.render mode ns s ≡ (err e, s))

  render_cached-unresolved :
      (c : CachingSource S) (mode : Mode) (ns : String) (s : S) (e : Error)
      → c.resolve mode s ≡ (err e, s)
      → render_cached c mode ns s ≡ c.inner.render mode ns s
  unfolding render_cached render_resolved
  render_cached-unresolved c mode ns s e p =
      ap (λ (r : Result (String × String) × S). render_resolved c mode ns r.0 r.1) p

module _ {S H Client File Chart Url Repo Remote Worktree Tree : Type 0}
    (calls : Calls S H Client File Chart Url Repo Remote Worktree Tree) ⦃k : Library⦄ where
  -- A URL that embeds credentials or has no ref.
  pub record IsUnpinned (url : String) : Type 0 where
    pub parsed : Url
    pub parses : calls.urls.parse url ≡ ok parsed
    pub refused : (calls.urls.has_user parsed ≡ true) ⊎ (calls.urls.query "ref" parsed ≡ "")

  kustomize_source-FailsToRender :
      (resolve : Resolve S) (spec : KustomizeSource)
      → IsUnpinned spec.url
      → FailsToRender (
          kustomize_source
            (record (calls.kustomize) { resolve = resolve_by calls (git_resolver resolve) })
            spec)
  unfolding kustomize_source build_root
  kustomize_source-FailsToRender resolve spec h mode ns s =
      let lib : KustomizeLibrary S Tree = record (calls.kustomize) {
        resolve = resolve_by calls (git_resolver resolve);
      } in
      let (e, root, commit, scope) =
        resolve_root_unpinned calls.git calls.urls resolve spec.url (sub_path spec mode) h.parsed s
          h.parses h.refused in
      (_, ap (λ (r : Result (String × M S (Unit {0})) × S). build_root lib mode ns r.0 r.1) root)

  wrap_kustomize-FailsToRender :
      (inner : Source S) (resolve : Resolve S) (spec : KustomizeSource) (cache : Option (Lru S))
      → IsUnpinned spec.url
      → FailsToRender inner
      → FailsToRender (wrap_kustomize calls inner (git_resolver resolve) spec cache)
  unfolding wrap_kustomize
  wrap_kustomize-FailsToRender inner resolve spec none h fails mode ns s = fails mode ns s
  wrap_kustomize-FailsToRender inner resolve spec (some cache) h fails mode ns s =
      let (e, root, commit, scope) =
        resolve_root_unpinned calls.git calls.urls resolve spec.url "" h.parsed s h.parses
          h.refused in
      let find = resolve_commit calls.git calls.urls resolve spec.url in
      let (e', failed) = fails mode ns s in
      (
        e',
        render_cached-unresolved _ mode ns s e
              (ap (λ (r : Result String). id_with_scope r find s) scope)
            ∙ failed,
      )

  resolver-FailsToRender :
      (spec : KustomizeSource) (deps : Deps S H Chart) (resolve : Resolve S)
      (cr : Option (CredentialResolver S))
      → IsUnpinned spec.url
      → (src : Source S) × (from_resolver calls spec deps
            (with_git_creds (git_resolver resolve) cr spec.auth_secret_ref)
          ≡ ok src)
        × FailsToRender src
  unfolding with_git_creds from_resolver
  resolver-FailsToRender spec deps resolve none h = (
    _,
    refl,
    wrap_kustomize-FailsToRender _ resolve spec deps.render_cache h
        (kustomize_source-FailsToRender resolve spec h),
  )
  resolver-FailsToRender spec deps resolve (some cr) h =
      let named = some (λ (host : String). resolve_credentials cr spec.auth_secret_ref) in
      (
        _,
        refl,
        wrap_kustomize-FailsToRender _ named spec deps.render_cache h
            (kustomize_source-FailsToRender named spec h),
      )

  -- A spec that sets kustomize alone, with a URL that embeds credentials or has no ref, is accepted
  -- as a source of the git resolver, and then every render of this source fails and leaves the world
  -- as it is, with or without credentials and the cache.
  pub source_from-FailsToRender :
      (spec : SourceSpec) (kustomize : KustomizeSource) (deps : Deps S H Chart)
      (resolve : Resolve S)
      → spec.helm ≡ none
      → spec.kustomize ≡ some kustomize
      → deps.root_resolver ≡ some (git_resolver resolve)
      → IsUnpinned kustomize.url
      → (src : Source S) × (source_from calls spec deps ≡ ok src) × FailsToRender src
  unfolding source_from kustomize_from
  source_from-FailsToRender spec kustomize deps resolve no_helm is_kustomize has_git h =
      let (src, made, fails) =
        resolver-FailsToRender kustomize deps resolve deps.credential_resolver h in
      (
        src,
        ap (λ (x : Option HelmSource). from_parts calls x spec.kustomize deps) no_helm
            ∙ (ap (λ (x : Option KustomizeSource). from_parts calls none x deps) is_kustomize
                ∙ (ap (kustomize_with calls kustomize deps) has_git ∙ made)),
        fails,
      )
