-- ===== src/Controller/Reconcile/Guarded.antt =====
-- What a reconciliation does before the custom resource has its finalizer.
use dual_deployment_operator.Base.{
  ◌≡◌, refl, inl, inr, ◌⊎◌, String, true, Result, ok, err, Keeps, Bool-cases, is_some,
}
use dual_deployment_operator.Library.{Library, Documented}
use dual_deployment_operator.Api.{DualDeploymentOperator}
use dual_deployment_operator.Controller.Reconciler.{Reconciler, finalizer_name}
use dual_deployment_operator.Controller.Reconcile.{reconcile_found, reconcile_got, reconcile}

module _ {S : Type 0} ⦃k : Library⦄ (doc : Documented) (P : S → Type 0) (r : Reconciler S) where
  -- The custom resource that is read is being deleted, or has the finalizer.
  pub record IsGuarded (namespace name : String) (s : S) : Type 0 where
    pub cr : DualDeploymentOperator
    pub read : (r.get_cr namespace name s).0 ≡ ok cr
    pub why :
        (is_some cr.deletion_timestamp ≡ true)
        ⊎ (k.contains_finalizer cr.finalizers finalizer_name ≡ true)

  -- Updates that give a custom resource the finalizer keep `P`.
  abbrev pub FinalizingKeeps : Type 0
  FinalizingKeeps =
      (cr : DualDeploymentOperator)
      → k.contains_finalizer cr.finalizers finalizer_name ≡ true
      → Keeps P (r.update cr)

  found-guarded :
      (cr : DualDeploymentOperator) (s : S)
      → FinalizingKeeps
      → P s
      → P (reconcile_found r cr s).1
        ⊎ ((is_some cr.deletion_timestamp ≡ true)
            ⊎ (k.contains_finalizer cr.finalizers finalizer_name ≡ true))
  unfolding reconcile_found
  found-guarded cr s keeps p = elim (Bool-cases (is_some cr.deletion_timestamp)) [
    | inl deleted ↦ inr (inl deleted)
    | inr e ↦ elim (Bool-cases (k.contains_finalizer cr.finalizers finalizer_name)) [
      | inl there ↦ inr (inr there)
      | inr missing ↦ inl (
          rw (e, missing, reconcile_found)
            ((keeps _ (doc.finalizer_added cr.finalizers finalizer_name)).at s p))
    ]
  ]

  -- If the library behaves as documented: unless the custom resource that is read is being deleted or
  -- has the finalizer, a reconciliation does nothing but read it and, if it is there, update it with
  -- the finalizer. So no cluster is touched before the finalizer is stored.
  pub reconcile-IsGuarded :
      (namespace name : String) (s : S)
      → Keeps P (r.get_cr namespace name)
      → FinalizingKeeps
      → P s
      → P (reconcile r namespace name s).1 ⊎ IsGuarded namespace name s
  unfolding reconcile reconcile_got
  reconcile-IsGuarded namespace name s got keeps p =
      after (r.get_cr namespace name s).0 refl (got.at s p)
    where
      after :
          (result : Result DualDeploymentOperator)
          → (r.get_cr namespace name s).0 ≡ result
          → P (r.get_cr namespace name s).1
          → P (reconcile_got r result (r.get_cr namespace name s).1).1 ⊎ IsGuarded namespace name s
      after (err e) read p' = inl p'
      after (ok cr) read p' = elim (found-guarded cr _ keeps p') [
        | inl q ↦ inl q
        | inr why ↦ inr (record { cr = cr; read = read; why = why })
      ]
