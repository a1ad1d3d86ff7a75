-- ===== src/Controller/Deletion/Finalizer.antt =====
-- When a deletion lets go of the custom resource.
use dual_deployment_operator.Base.{
  ℕ, ◌≡◌, refl, ◌⊎◌, inl, inr, String, true, false, Option, none, some, List, [], ◌∷◌, Error,
  Result, ok, err, Keeps, ◌==◌, Keeps-if, Bool-cases, ltb, ap, sym, subst, ◌∙◌,
}
use dual_deployment_operator.Json.{get_text}
use dual_deployment_operator.Library.{Library}
use dual_deployment_operator.Api.{ResourceStatus, DualDeploymentOperator}
use dual_deployment_operator.Manifest.{Manifest, owned_by_value}
use dual_deployment_operator.Deliver.Order.{sort_status_for_delete, manifest_from_status}
use dual_deployment_operator.Deliver.Applier.{Applier}
use dual_deployment_operator.Controller.Reconciler.{
  Reconciler, force_delete_annotation, event, set_condition, build_shoot_applier_or_default,
}
use dual_deployment_operator.Controller.Prune.{is_retained_crd}
use dual_deployment_operator.Controller.Deletion.{
  Shoot, deletable, shoot_done, force_delete, delete_loop, delete_render, shoot_of,
  shoot_for_deletion, delete_both, conclude_incomplete, conclude, delete_and_conclude, tear_down,
}
use dual_deployment_operator.Controller.Cleanup.{
  record_shoot_unreachable, record_shoot_cleanup_blocked,
}

module _ {S : Type 0} ⦃k : Library⦄ (r : Reconciler S) (cr : DualDeploymentOperator) where
  abbrev pub pending : ℕ
  pending = deletable cr cr.status.shoot_resources

  -- The run from the state `s` up to the last switch.
  abbrev pub prepared : S → (Shoot S × DualDeploymentOperator) × S
  prepared s = shoot_for_deletion r cr pending s

  abbrev pub deleted : S → (List Error × List Error) × S
  deleted s =
      let ((shoot, cr'), s') = prepared s in
      delete_both r cr' shoot.applier (owned_by_value cr'.namespace cr'.name) s'

  -- No deletion on the seed has failed, and the shoot is clean or was given up explicitly.
  pub record MayRelease (s : S) : Type 0 where
    pub seed_clean : (deleted s).0.0 ≡ []
    pub shoot_clean :
        (shoot_done pending (prepared s).0.0.build_error (deleted s).0.1 ≡ true)
        ⊎ (force_delete cr ≡ true)

-- Every call that a deletion for one owner may make, but the update of the custom resource itself,
-- keeps `P`.
pub record OthersKeep {S : Type 0} ⦃k : Library⦄ (P : S → Type 0) (r : Reconciler S)
    (owned_by : String) : Type 0 where
  pub status : (cr : DualDeploymentOperator) → Keeps P (r.update_status cr)
  pub event : (reason note : String) → Keeps P (event r reason note)
  pub build : (cr : DualDeploymentOperator) → Keeps P (build_shoot_applier_or_default r cr)
  pub seed : (m : Manifest) → Keeps P (r.seed_applier.delete m owned_by)
  pub shoot :
      (cr : DualDeploymentOperator) (s : S) (a : Applier S)
      → (build_shoot_applier_or_default r cr s).0 ≡ ok a
      → (m : Manifest) → Keeps P (a.delete m owned_by)

module _ {S : Type 0} ⦃k : Library⦄ (P : S → Type 0) (r : Reconciler S) (owned_by : String)
    (others : OthersKeep P r owned_by) where
  -- The deletions of an applier, if there is one, keep `P`.
  abbrev DeletesKeep : Option (Applier S) → Type 0
  DeletesKeep none = Unit
  DeletesKeep (some a) = (m : Manifest) → Keeps P (a.delete m owned_by)

  delete_loop-Keeps :
      (a : Applier S) (cr : DualDeploymentOperator) (statuses : List ResourceStatus)
      → DeletesKeep (some a)
      → Keeps P (delete_loop a cr owned_by statuses)
  unfolding delete_loop
  delete_loop-Keeps a cr [] h = record { at = λ s p. p }
  delete_loop-Keeps a cr (rs ∷ statuses) h = record {
    at = λ s p. (delete_loop-Keeps a cr statuses h).at _ (
        (Keeps-if (is_retained_crd cr rs) _ _ (λ _. record { at = λ s' p'. p' })
            (λ _. h (manifest_from_status rs))).at
          s p);
  }

  delete_render-Keeps :
      (a : Option (Applier S)) (cr : DualDeploymentOperator) (statuses : List ResourceStatus)
      → DeletesKeep a
      → Keeps P (delete_render a cr owned_by statuses)
  unfolding delete_render
  delete_render-Keeps none cr statuses h = record { at = λ s p. p }
  delete_render-Keeps (some a) cr statuses h =
      delete_loop-Keeps a cr (sort_status_for_delete statuses) h

  pub delete_both-Keeps :
      (cr : DualDeploymentOperator) (a : Option (Applier S))
      → DeletesKeep a
      → Keeps P (delete_both r cr a owned_by)
  unfolding delete_both
  delete_both-Keeps cr a h =
      let st = cr.status in
      let seed = delete_render-Keeps (some r.seed_applier) cr st.seed_resources others.seed in
      let shoot = delete_render-Keeps a cr st.shoot_resources h in
      elim (Bool-cases (cr.spec.apply_order == "SeedFirst")) [
        | inl e ↦ rw (e, delete_both) (record { at = λ s p. seed.at _ (shoot.at s p) })
        | inr e ↦ rw (e, delete_both) (record { at = λ s p. shoot.at _ (seed.at s p) })
      ]

  -- What building the shoot applier leaves: `P`, an applier whose deletions keep it, and a custom
  -- resource that differs in its conditions only.
  pub record IsPrepared (cr : DualDeploymentOperator) (x : (Shoot S × DualDeploymentOperator) × S)
      : Type 0 where
    pub kept : P x.1
    pub deletes : DeletesKeep x.0.0.applier
    pub same_annotations : x.0.1.annotations ≡ cr.annotations
    pub same_namespace : x.0.1.namespace ≡ cr.namespace
    pub same_name : x.0.1.name ≡ cr.name

  shoot_of-IsPrepared :
      (cr : DualDeploymentOperator) (s : S) (built : Result (Applier S))
      → P s
      → ((a : Applier S) → built ≡ ok a → DeletesKeep (some a))
      → IsPrepared cr (shoot_of r cr built s)
  unfolding shoot_of record_shoot_unreachable set_condition
  shoot_of-IsPrepared cr s (ok a) p h = record {
    kept = p;
    deletes = h a refl;
    same_annotations = refl;
    same_namespace = refl;
    same_name = refl;
  }
  shoot_of-IsPrepared cr s (err e) p h = record {
    kept = (others.event _ _).at s p;
    deletes = tt;
    same_annotations = refl;
    same_namespace = refl;
    same_name = refl;
  }

  pub shoot_for_deletion-IsPrepared :
      (cr : DualDeploymentOperator) (n : ℕ) (s : S)
      → P s
      → IsPrepared cr (shoot_for_deletion r cr n s)
  unfolding shoot_for_deletion
  shoot_for_deletion-IsPrepared cr n s p = elim (Bool-cases (ltb 0 n)) [
    | inl e ↦
        rw (e, shoot_for_deletion)
          (shoot_of-IsPrepared cr _ (build_shoot_applier_or_default r cr s).0
            ((others.build cr).at s p) (λ a built. others.shoot cr s a built))
    | inr e ↦
        rw (e, shoot_for_deletion)
          (record {
            kept = p;
            deletes = tt;
            same_annotations = refl;
            same_namespace = refl;
            same_name = refl;
          })
  ]

  blocked-Keeps :
      (cr : DualDeploymentOperator) (cause : Option Error)
      → force_delete cr ≡ false
      → Keeps P (conclude_incomplete r cr cause)
  unfolding conclude_incomplete record_shoot_cleanup_blocked
  blocked-Keeps cr cause e =
      rw (e, conclude_incomplete)
        (record { at = λ s p. (others.status _).at _ ((others.event _ _).at s p) })

  conclude-kept :
      (cr : DualDeploymentOperator) (n : ℕ) (build_error : Option Error)
      (errs : List Error × List Error) (s : S)
      → P s
      → P (conclude r cr n build_error errs s).1
        ⊎ ((errs.0 ≡ []) × ((shoot_done n build_error errs.1 ≡ true) ⊎ (force_delete cr ≡ true)))
  unfolding conclude
  conclude-kept cr n build_error (e ∷ seed_errs, shoot_errs) s p = inl p
  conclude-kept cr n build_error ([], shoot_errs) s p =
      elim (Bool-cases (shoot_done n build_error shoot_errs)) [
        | inl complete ↦ inr (refl, inl complete)
        | inr incomplete ↦ elim (Bool-cases (force_delete cr)) [
          | inl forced ↦ inr (refl, inr forced)
          | inr unforced ↦ inl (rw (incomplete, conclude) ((blocked-Keeps cr _ unforced).at s p))
        ]
      ]

module _ {S : Type 0} ⦃k : Library⦄ (P : S → Type 0) (r : Reconciler S) where
  -- A deletion keeps whatever the other calls keep, or it may release the custom resource.
  pub tear_down-MayRelease :
      (cr : DualDeploymentOperator) (s : S)
      → OthersKeep P r (owned_by_value cr.namespace cr.name)
      → P s
      → P (tear_down r cr s).1 ⊎ MayRelease r cr s
  unfolding tear_down delete_and_conclude
  tear_down-MayRelease cr s others p =
      let owner = owned_by_value cr.namespace cr.name in
      let ready = shoot_for_deletion-IsPrepared P r owner others cr (pending r cr) s p in
      let ((shoot, cr'), s1) = prepared r cr s in
      let (errs, s2) = delete_both r cr' shoot.applier (owned_by_value cr'.namespace cr'.name) s1 in
      let same : owned_by_value cr'.namespace cr'.name ≡ owner =
        rw (ready.same_namespace, ready.same_name) refl in
      let p2 =
        subst (λ o. P (delete_both r cr' shoot.applier o s1).1) (sym same)
          ((delete_both-Keeps P r owner others cr' shoot.applier ready.deletes).at s1 ready.kept) in
      elim (conclude-kept P r owner others cr' (pending r cr) shoot.build_error errs s2 p2) [
        | inl p' ↦ inl p'
        | inr (clean, inl complete) ↦
            inr (record { seed_clean = clean; shoot_clean = inl complete })
        | inr (clean, inr forced) ↦ inr (record {
          seed_clean = clean;
          shoot_clean = inr (
              ap (λ m. get_text force_delete_annotation m == "true") (sym ready.same_annotations)
              ∙ forced);
        })
      ]
