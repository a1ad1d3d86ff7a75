-- ===== src/Source/Select/Chosen.antt =====
-- Which specs give a source (From in source.go).
use dual_deployment_operator.Base.{
  ◌≡◌, refl, ◌↔◌, ◌⊎◌, inl, inr, Option, none, some, Result, ok, Option-cases,
}
use dual_deployment_operator.Library.{Library}
use dual_deployment_operator.Api.{HelmSource, KustomizeSource, SourceSpec}
use dual_deployment_operator.Source.Select.{
  Deps, Calls, helm_from, kustomize_from, from_resolver, from_parts, source_from,
}

abbrev pub HasValue : {A : Type 0} → Option A → Type 0
HasValue {A} o = (a : A) × (o ≡ some a)

abbrev pub IsOk : {A : Type 0} → Result A → Type 0
IsOk {A} r = (a : A) × (r ≡ ok a)

none_set : {A : Type 0} → ¬ HasValue {A = A} none
none_set (a, p) = cc

module _ {S H Client File Chart Url Repo Remote Worktree Tree : Type 0}
    (calls : Calls S H Client File Chart Url Repo Remote Worktree Tree) ⦃k : Library⦄ where
  helm_from_iff :
      (spec : HelmSource) (deps : Deps S H Chart)
      → IsOk (helm_from calls spec deps) ↔ HasValue deps.chart_loader
  unfolding helm_from
  helm_from_iff spec deps = elim (Option-cases deps.chart_loader) [
    | inl e ↦ rw (e) ((λ h. cc, λ h. cc))
    | inr (l, e) ↦ rw (e) ((λ h. (l, refl), λ h. (_, refl)))
  ]

  kustomize_from_iff :
      (spec : KustomizeSource) (deps : Deps S H Chart)
      → IsOk (kustomize_from calls spec deps) ↔ HasValue deps.root_resolver
  unfolding kustomize_from from_resolver
  kustomize_from_iff spec deps = elim (Option-cases deps.root_resolver) [
    | inl e ↦ rw (e) ((λ h. cc, λ h. cc))
    | inr (r, e) ↦ rw (e) ((λ h. (r, refl), λ h. (_, refl)))
  ]

  -- What a spec has to set, and which fetcher it needs.
  abbrev pub IsFetchable : Option HelmSource → Option KustomizeSource → Deps S H Chart → Type 0
  IsFetchable helm kustomize deps =
      (HasValue helm × (kustomize ≡ none) × HasValue deps.chart_loader)
      ⊎ ((helm ≡ none) × HasValue kustomize × HasValue deps.root_resolver)

  from_parts_iff :
      (helm : Option HelmSource) (kustomize : Option KustomizeSource) (deps : Deps S H Chart)
      → IsOk (from_parts calls helm kustomize deps) ↔ IsFetchable helm kustomize deps
  from_parts_iff (some h) none deps = (
    λ p. inl ((h, refl), refl, (helm_from_iff h deps).0 p),
    λ p. (helm_from_iff h deps).1 (loader_of p),
  )
    where
      loader_of : IsFetchable (some h) none deps → HasValue deps.chart_loader
      loader_of (inl (a, b, c)) = c
      loader_of (inr (a, b, c)) = absurd (none_set b)
  from_parts_iff none (some s) deps = (
    λ p. inr (refl, (s, refl), (kustomize_from_iff s deps).0 p),
    λ p. (kustomize_from_iff s deps).1 (resolver_of p),
  )
    where
      resolver_of : IsFetchable none (some s) deps → HasValue deps.root_resolver
      resolver_of (inl (a, b, c)) = absurd (none_set a)
      resolver_of (inr (a, b, c)) = c
  from_parts_iff none none deps =
      (λ p. cc, λ p. absurd (elim p [ inl (a, b, c) ↦ none_set a | inr (a, b, c) ↦ none_set b ]))
  from_parts_iff (some h) (some s) deps = (λ p. cc, λ p. absurd (neither p))
    where
      neither : IsFetchable (some h) (some s) deps → ⊥
      neither (inl (a, b, c)) = cc
      neither (inr (a, b, c)) = cc

  -- A source is made if and only if its spec sets helm alone and there is a chart loader, or it sets
  -- kustomize alone and there is a root resolver.
  pub source_from_iff :
      (spec : SourceSpec) (deps : Deps S H Chart)
      → IsOk (source_from calls spec deps) ↔ IsFetchable spec.helm spec.kustomize deps
  unfolding source_from
  source_from_iff spec deps = from_parts_iff spec.helm spec.kustomize deps
