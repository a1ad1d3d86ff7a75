-- ===== src/Controller/Runs/Untouched.antt =====
-- What a deletion, and runs of the operator, do to an object of another owner.
use dual_deployment_operator.Base.{◌≢◌, sym, ◌∙◌, String, Option, Keeps}
use dual_deployment_operator.Json.{Fields}
use dual_deployment_operator.Library.{Library}
use dual_deployment_operator.Api.{DualDeploymentOperator}
use dual_deployment_operator.Manifest.{owned_by_value}
use dual_deployment_operator.Deliver.Applier.{owner_of}
use dual_deployment_operator.Deliver.Applier.Store.{Holds}
use dual_deployment_operator.Controller.Reconciler.{Reconciler}
use dual_deployment_operator.Controller.Deletion.{reconcile_delete}
use dual_deployment_operator.Controller.Deletion.Calls.{reconcile_delete-Keeps}
use dual_deployment_operator.Controller.Reconcile.Whole.{reconcile-Keeps}
use dual_deployment_operator.Controller.Runs.{Step, reconciled, outside, Reach, here, next}
use dual_deployment_operator.Controller.Runs.Foreign.{
  IsDeployed, IsScoped, calls-Holds, others-Holds,
}

module _ {S : Type 0} ⦃k : Library⦄ (find : S → String → Option Fields) (key : String)
    (r : Reconciler S) (deployed : IsDeployed find key r) (live : Fields) where
  -- The deletion of a custom resource leaves an object of any kind, on any cluster, that is not
  -- labelled for this custom resource as it is, whatever the inventory says. The reconciler is one
  -- whose clients are views of one store, and whose calls that are no call of a cluster leave the
  -- object as it is.
  pub reconcile_delete-Holds :
      (cr : DualDeploymentOperator)
      → owner_of live ≢ owned_by_value cr.namespace cr.name
      → Keeps (Holds find key live) (reconcile_delete r cr)
  reconcile_delete-Holds cr foreign =
      reconcile_delete-Keeps _ r cr (others-Holds find key r deployed live _ foreign)
        λ cr'. record { at = λ s p. deployed.update cr' s ∙ p }

  Step-Holds :
      {s t : S}
      → owner_of live ≢ ""
      → IsScoped find key r deployed
      → Step r find key (owner_of live) s t
      → Holds find key live s
      → Holds find key live t
  Step-Holds claimed scoped (outside same) p = same ∙ p
  Step-Holds claimed scoped (reconciled namespace name s other) p =
      (reconcile-Keeps _ r namespace name
          (record { at = λ s' p'. deployed.get_cr namespace name s' ∙ p' })
          λ s' cr got.
            calls-Holds find key r deployed live _
              (λ same. other (sym (same ∙ deployed.asked namespace name s' cr got))) claimed
              scoped).at
        s p

  -- An object of a cluster-scoped kind that is labelled for one custom resource stays as it is in
  -- every world that reconciliations of other custom resources can reach, in any order and number,
  -- with anything between them that leaves the object as it is. The reconciler is one whose clients
  -- are views of one store, and whose calls that are no call of a cluster leave the object as it is.
  pub Reach-Holds :
      {s t : S}
      → owner_of live ≢ ""
      → IsScoped find key r deployed
      → Reach r find key (owner_of live) s t
      → Holds find key live s
      → Holds find key live t
  Reach-Holds claimed scoped here p = p
  Reach-Holds claimed scoped (next run step) p =
      Step-Holds claimed scoped step (Reach-Holds claimed scoped run p)
