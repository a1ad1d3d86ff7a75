-- ===== src/Controller/Render/Unpinned.antt =====
-- A reconciliation whose kustomize URL is refused (Reconcile, over source.From).
use dual_deployment_operator.Base.{◌≡◌, ap, ◌∙◌, none, some, Error, Result, ok, List}
use dual_deployment_operator.Library.{Library}
use dual_deployment_operator.Api.{DualDeploymentOperator, KustomizeSource}
use dual_deployment_operator.Manifest.{Manifest}
use dual_deployment_operator.Controller.Reconciler.{Source, mode_seed}
use dual_deployment_operator.Controller.Render.{failed, with_source, with_seed_render}
use dual_deployment_operator.Source.Url.{Resolve}
use dual_deployment_operator.Source.Select.{Calls, Deps, git_resolver, source_from}
use dual_deployment_operator.Source.Select.Unpinned.{
  IsUnpinned, FailsToRender, source_from-FailsToRender,
}

module _ {S : Type 0} ⦃k : Library⦄ where
  with_source-fails :
      (src : Source S) (cr : DualDeploymentOperator) (s : S)
      → FailsToRender src
      → (e : Error) × (with_source cr (ok src) s ≡ (failed "SeedRenderFailed" e, s))
  unfolding with_source with_seed_render
  with_source-fails src cr s fails =
      let (e, p) = fails mode_seed cr.namespace s in
      (e, ap (λ (r : Result (List Manifest) × S). with_seed_render src cr r.0 r.1) p)

module _ {S H Client File Chart Url Repo Remote Worktree Tree : Type 0}
    (calls : Calls S H Client File Chart Url Repo Remote Worktree Tree) ⦃k : Library⦄ where
  -- If the spec of the custom resource sets kustomize alone, with a URL that embeds credentials or has
  -- no ref, and the production git resolver is configured, the rendering part of the reconciliation
  -- ends as a failed render of the seed and leaves the world as it is, with or without credentials
  -- and the cache.
  pub with_source_unpinned :
      (cr : DualDeploymentOperator) (kustomize : KustomizeSource) (deps : Deps S H Chart)
      (resolve : Resolve S) (s : S)
      → cr.spec.source.helm ≡ none
      → cr.spec.source.kustomize ≡ some kustomize
      → deps.root_resolver ≡ some (git_resolver resolve)
      → IsUnpinned calls kustomize.url
      → (e : Error) × (with_source cr (source_from calls cr.spec.source deps) s
          ≡ (failed "SeedRenderFailed" e, s))
  with_source_unpinned cr kustomize deps resolve s no_helm is_kustomize has_git h =
      let (src, made, fails) =
        source_from-FailsToRender calls cr.spec.source kustomize deps resolve no_helm is_kustomize
          has_git h in
      let (e, p) = with_source-fails src cr s fails in
      (e, ap (λ (r : Result (Source S)). with_source cr r s) made ∙ p)
