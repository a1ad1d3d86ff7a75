-- ===== src/Controller/Prune.antt =====
-- prune: what was delivered before and is no longer rendered is deleted.
pub mod Safety
pub mod Settled
pub mod Accounted
use dual_deployment_operator.Base.{
  String, Bool, true, false, Option, none, some, List, [], ◌∷◌, ◌==◌, ◌&&◌, ◌||◌, not,
  if◌then◌else◌, Error, Result, ok, err, M, pure, ◌>>=◌, map, is_not_found, is_no_match_error,
  one_of,
}
use dual_deployment_operator.Json.{Fields}
use dual_deployment_operator.Library.{Library}
use dual_deployment_operator.Api.{ResourceStatus, DualDeploymentOperator}
use dual_deployment_operator.Manifest.{Manifest}
use dual_deployment_operator.Deliver.Order.{
  sort_status_for_delete, manifest_from_status, status_identity_key, manifest_identity_key,
}
use dual_deployment_operator.Deliver.Applier.{Applier, owner_of}

-- A CRD under a retention policy that does not say Delete.
unfoldable pub is_retained_crd : DualDeploymentOperator → ResourceStatus → Bool
is_retained_crd cr rs =
    rs.kind == "CustomResourceDefinition" && not (cr.spec.retention_policy.crds == "Delete")

-- The entries that stay in the status, and the errors, one for each.
pub record Pruned : Type 0 where
  pub retained : List ResourceStatus
  pub errors : List Error

abbrev pub nothing_pruned : Pruned
nothing_pruned = record { retained = []; errors = [] }

abbrev pub add_pruned : ResourceStatus → Option Error → Pruned → Pruned
add_pruned rs none p = p
add_pruned rs (some e) p = record { retained = rs ∷ p.retained; errors = e ∷ p.errors }

-- What a call of `prune` returns.
pub record PruneResult : Type 0 where
  pub retained : List ResourceStatus
  pub error : Option Error

module _ {S : Type 0} ⦃k : Library⦄ where
  -- The orphan as the cluster has it: not there, another's, or ours to delete.
  unfoldable pub prune_live : Applier S → Manifest → String → Result Fields → M S (Option Error)
  prune_live applier m owned_by (err e) =
      pure (if is_not_found e || is_no_match_error e then none else some e)
  prune_live applier m owned_by (ok live) =
      if owner_of live == owned_by then applier.delete m owned_by else pure none

  unfoldable pub prune_orphan : Applier S → ResourceStatus → String → M S (Option Error)
  unfolding prune_live
  prune_orphan applier rs owned_by = do
    live ← applier.get (manifest_from_status rs)
    prune_live applier (manifest_from_status rs) owned_by live

  -- The body of the loop; an error means that the entry is retained.
  unfoldable pub prune_one :
      Applier S
      → List String
      → DualDeploymentOperator
      → String
      → ResourceStatus
      → M S (Option Error)
  unfolding prune_orphan
  prune_one applier current_keys cr owned_by rs =
      if one_of current_keys (status_identity_key rs)
      then pure none
      else if is_retained_crd cr rs
      then pure none
      else prune_orphan applier rs owned_by

  unfoldable pub prune_loop :
      Applier S → List String → DualDeploymentOperator → String → List ResourceStatus → M S Pruned
  unfolding prune_one
  prune_loop applier current_keys cr owned_by [] = pure nothing_pruned
  prune_loop applier current_keys cr owned_by (rs ∷ prev) = do
    failure ← prune_one applier current_keys cr owned_by rs
    rest ← prune_loop applier current_keys cr owned_by prev
    pure (add_pruned rs failure rest)

  unfoldable pub prune :
      Applier S
      → List ResourceStatus
      → List Manifest
      → DualDeploymentOperator
      → String
      → M S PruneResult
  unfolding prune_loop
  prune applier prev current cr owned_by = do
    p ←
        prune_loop applier (map manifest_identity_key current) cr owned_by
          (sort_status_for_delete prev)
    pure (record { retained = p.retained; error = k.new_aggregate (map some p.errors) })
