-- ===== src/Controller/Delivery.antt =====
-- applyAll: every manifest of a render is applied, whatever fails.
pub mod Accounting
pub mod Complete
use dual_deployment_operator.Base.{
  String, Option, none, some, List, [], ◌∷◌, Error, M, pure, ◌>>=◌, map,
}
use dual_deployment_operator.Library.{Library}
use dual_deployment_operator.Api.{ResourceStatus}
use dual_deployment_operator.Manifest.{Manifest}
use dual_deployment_operator.Deliver.Applier.{Applier, Applied}

-- The statuses, the errors, and the manifests as `Apply` has left them.
pub record Delivered : Type 0 where
  pub statuses : List ResourceStatus
  pub errors : List Error
  pub manifests : List Manifest

abbrev pub nothing_delivered : Delivered
nothing_delivered = record { statuses = []; errors = []; manifests = [] }

abbrev pub add_error : Option Error → List Error → List Error
add_error none errs = errs
add_error (some e) errs = e ∷ errs

abbrev pub add_applied : Applied → Delivered → Delivered
add_applied a d = record {
  statuses = a.status ∷ d.statuses;
  errors = add_error a.error d.errors;
  manifests = a.manifest ∷ d.manifests;
}

module _ {S : Type 0} where
  unfoldable pub apply_loop : Applier S → List Manifest → String → M S Delivered
  apply_loop applier [] owned_by = pure nothing_delivered
  apply_loop applier (m ∷ ms) owned_by = do
    applied ← applier.apply m owned_by
    rest ← apply_loop applier ms owned_by
    pure (add_applied applied rest)

-- What a call of `applyAll` returns.
pub record AllApplied : Type 0 where
  pub statuses : List ResourceStatus
  pub error : Option Error
  pub manifests : List Manifest

module _ {S : Type 0} ⦃k : Library⦄ where
  unfoldable pub apply_all : Applier S → List Manifest → String → M S AllApplied
  unfolding apply_loop
  apply_all applier ms owned_by = do
    d ← apply_loop applier ms owned_by
    pure (record {
      statuses = d.statuses;
      error = k.new_aggregate (map some d.errors);
      manifests = d.manifests;
    })
