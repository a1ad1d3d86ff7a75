-- ===== src/Controller/Reconcile/Whole.antt =====
-- The calls that a whole reconciliation makes, whatever it finds: a deletion, a missing finalizer, a
-- render that fails, or a delivery.
use dual_deployment_operator.Base.{
  ◌≡◌, refl, inl, inr, String, List, Result, ok, err, Keeps, Keeps-bind, Bool-cases, is_some, not,
}
use dual_deployment_operator.Library.{Library}
use dual_deployment_operator.Api.{DualDeploymentOperator}
use dual_deployment_operator.Manifest.{Manifest, owned_by_value}
use dual_deployment_operator.Deliver.Order.{sort_for_apply}
use dual_deployment_operator.Controller.Reconciler.{
  Reconciler, build_shoot_applier_or_default, finalizer_name,
}
use dual_deployment_operator.Controller.Render.{Rendered, rendered, failed}
use dual_deployment_operator.Controller.Deletion.Calls.{reconcile_delete-Keeps}
use dual_deployment_operator.Controller.Reconcile.Calls.{
  CallsKeep, others_keep, err_status-Keeps, deliver_with-Keeps,
}
use dual_deployment_operator.Controller.Reconcile.{
  deliver, deliver_rendered, render_and_deliver, reconcile_found, reconcile_got, reconcile,
}

module _ {S : Type 0} ⦃k : Library⦄ (P : S → Type 0) (r : Reconciler S) where
  -- The calls for one custom resource keep `P`.
  abbrev pub CallsKeepFor : DualDeploymentOperator → Type 0
  CallsKeepFor cr = CallsKeep P r (owned_by_value cr.namespace cr.name)

  deliver-Keeps :
      (cr : DualDeploymentOperator) (seed shoot : List Manifest)
      → CallsKeepFor cr
      → Keeps P (deliver r cr seed shoot)
  unfolding deliver
  deliver-Keeps cr seed shoot calls = record {
    at = λ s p.
        (deliver_with-Keeps P r _ calls cr (sort_for_apply seed) (sort_for_apply shoot)
            (build_shoot_applier_or_default r cr s).0 (calls.shoot cr s)).at
          _ ((calls.build cr).at s p);
  }

  render_and_deliver-Keeps :
      (cr : DualDeploymentOperator) → CallsKeepFor cr → Keeps P (render_and_deliver r cr)
  unfolding render_and_deliver deliver_rendered
  render_and_deliver-Keeps cr calls = Keeps-bind _ _ (calls.render cr) λ both. delivered both
    where
      delivered : (both : Rendered) → Keeps P (deliver_rendered r cr both)
      delivered (failed reason e) = err_status-Keeps P r _ calls cr reason e
      delivered (rendered seed shoot) = deliver-Keeps cr seed shoot calls

  pub reconcile_found-Keeps :
      (cr : DualDeploymentOperator) → CallsKeepFor cr → Keeps P (reconcile_found r cr)
  unfolding reconcile_found
  reconcile_found-Keeps cr calls = elim (Bool-cases (is_some cr.deletion_timestamp)) [
    | inl deleted ↦
        rw (deleted, reconcile_found)
          (record {
            at = (reconcile_delete-Keeps P r cr (others_keep P r _ calls) calls.update).at;
          })
    | inr e ↦ elim (Bool-cases (not (k.contains_finalizer cr.finalizers finalizer_name))) [
      | inl missing ↦
          rw (e, missing, reconcile_found) (record { at = λ s p. (calls.update _).at s p })
      | inr there ↦
          rw (e, there, reconcile_found) (record { at = (render_and_deliver-Keeps cr calls).at })
    ]
  ]

  -- A reconciliation, whatever it finds and whatever fails in it, makes no other call than reading
  -- the custom resource and, if that is found, the calls for it: its updates, its status writes,
  -- events, the clock, its renders, the build of its shoot applier, and calls of the appliers with
  -- its own owner value. What these keep, it keeps.
  pub reconcile-Keeps :
      (namespace name : String)
      → Keeps P (r.get_cr namespace name)
      → ((s : S) (cr : DualDeploymentOperator)
          → (r.get_cr namespace name s).0 ≡ ok cr
          → CallsKeepFor cr)
      → Keeps P (reconcile r namespace name)
  unfolding reconcile reconcile_got
  reconcile-Keeps namespace name got calls = record {
    at = λ s p. found (r.get_cr namespace name s).0 _ (calls s) (got.at s p);
  }
    where
      found :
          (result : Result DualDeploymentOperator) (s : S)
          → ((cr : DualDeploymentOperator) → result ≡ ok cr → CallsKeepFor cr)
          → P s
          → P (reconcile_got r result s).1
      found (err e) s h p = p
      found (ok cr) s h p = (reconcile_found-Keeps cr (h cr refl)).at s p
