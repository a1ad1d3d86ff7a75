-- ===== src/Controller/Deletion/Outcomes.antt =====
-- When a deletion keeps the custom resource, and when it lets go of it.
use dual_deployment_operator.Base.{
  ℕ, ◌≡◌, refl, ◌⊎◌, inl, inr, String, true, false, Option, none, some, List, [], ◌∷◌, Error, ok,
  ltb, ap, sym, subst, ◌∙◌, All, arith, eq_iff,
}
use dual_deployment_operator.Library.{Library, Documented}
use dual_deployment_operator.Api.{ResourceStatus, DualDeploymentOperator}
use dual_deployment_operator.Manifest.{owned_by_value}
use dual_deployment_operator.Deliver.Applier.{Applier}
use dual_deployment_operator.Controller.Reconciler.{
  Reconciler, build_shoot_applier_or_default, force_delete_annotation,
}
use dual_deployment_operator.Json.{get_text}
use dual_deployment_operator.Controller.Deletion.{Shoot, shoot_done, delete_render, tear_down}
use dual_deployment_operator.Controller.Deletion.Cleared.{
  IsProtected, IsForced, policy, deletable-AllProtected, AllProtected-deletable, IsGone,
  IsDeletable, delete_render-AllGone, delete_render-clean,
}
use dual_deployment_operator.Controller.Deletion.Finalizer.{
  pending, prepared, deleted, MayRelease, OthersKeep, tear_down-MayRelease,
}
use dual_deployment_operator.Controller.Deletion.Release.{IsReleased, MayRelease-IsReleased}
use dual_deployment_operator.Controller.Deletion.Parts.{
  Essence, essence, IsFound, idle, reached, unreached, prepared-essence, prepared-IsFound,
  delete_both-parts,
}

module _ {S : Type 0} ⦃k : Library⦄ (r : Reconciler S) (cr : DualDeploymentOperator) where
  abbrev owner : String
  owner = owned_by_value cr.namespace cr.name

  -- Every entry of the seed's inventory is gone, and the shoot is given up by the annotation, or has
  -- only protected entries, or was reached and each of its entries is gone.
  pub record IsCleared : Type 0 where
    pub seed : All (IsGone r.seed_applier owner (policy cr)) cr.status.seed_resources
    pub shoot :
        IsForced cr
        ⊎ (All (IsProtected (policy cr)) cr.status.shoot_resources
            ⊎ ((s : S) × (a : Applier S) × ((build_shoot_applier_or_default r cr s).0 ≡ ok a)
                × All (IsGone a owner (policy cr)) cr.status.shoot_resources))

  -- Every deletion on the seed succeeds, and the shoot is given up by the annotation, or has only
  -- protected entries, or can always be reached and every deletion on it succeeds.
  pub record IsClearable : Type 0 where
    pub seed : All (IsDeletable r.seed_applier owner (policy cr)) cr.status.seed_resources
    pub shoot :
        IsForced cr
        ⊎ (All (IsProtected (policy cr)) cr.status.shoot_resources
            ⊎ ((a : Applier S) × ((s : S) → (build_shoot_applier_or_default r cr s).0 ≡ ok a)
                × All (IsDeletable a owner (policy cr)) cr.status.shoot_resources))

ltb-zero : (n : ℕ) → ltb 0 n ≡ false → n ≡ 0
ltb-zero n h = ground (arith, h)

shoot_done-IsReached :
    (n : ℕ) (build_error : Option Error) (errs : List Error)
    → shoot_done n build_error errs ≡ true
    → (n ≡ 0) ⊎ ((build_error ≡ none) × (errs ≡ []))
shoot_done-IsReached n none [] h = inr (refl, refl)
shoot_done-IsReached n none (e ∷ errs) h = inl (ground (arith, h))
shoot_done-IsReached n (some e) errs h = inl (ground (arith, h))

module _ {S : Type 0} ⦃k : Library⦄ (r : Reconciler S) (cr : DualDeploymentOperator) where
  -- The entries of an inventory satisfy a predicate of the owner value and the retention policy.
  abbrev SeedEntries : (String → String → ResourceStatus → Type 0) → Essence → Type 0
  SeedEntries P p = All (P (owned_by_value p.3 p.4) p.0.retention_policy.crds) p.1

  abbrev ShootEntries : (String → String → ResourceStatus → Type 0) → Essence → Type 0
  ShootEntries P p = All (P (owned_by_value p.3 p.4) p.0.retention_policy.crds) p.2

  MayRelease-IsCleared : (s : S) → MayRelease r cr s → IsCleared r cr
  MayRelease-IsCleared s h =
      let same = prepared-essence r cr s in
      let ((shoot, cr'), s') = prepared r cr s in
      let o = owned_by_value cr'.namespace cr'.name in
      let (s1, s2, seed_errs, shoot_errs) = delete_both-parts r cr' shoot.applier o s' in
      let gone =
        delete_render-AllGone r.seed_applier cr' o cr'.status.seed_resources s1
          (sym seed_errs ∙ h.seed_clean) in
      record {
        seed = subst (SeedEntries (IsGone r.seed_applier)) same gone;
        shoot = elim h.shoot_clean [
          | inr forced ↦
              inl ((eq_iff (get_text force_delete_annotation cr.annotations) "true").0 forced)
          | inl complete ↦
              inr
                (elim (shoot_done-IsReached (pending r cr) (prepared r cr s).0.0.build_error
                  (deleted r cr s).0.1 complete) [
                    | inl zero_pending ↦
                        inl (deletable-AllProtected cr cr.status.shoot_resources zero_pending)
                    | inr (no_error, clean) ↦
                        from shoot cr' s2 o same (prepared-IsFound r cr s) no_error
                          (sym shoot_errs ∙ clean)
                  ])
        ];
      }
    where
      from :
          (shoot : Shoot S) (cr' : DualDeploymentOperator) (s2 : S) (o : String)
          → essence cr' ≡ essence cr
          → IsFound r cr s shoot
          → shoot.build_error ≡ none
          → (delete_render shoot.applier cr'
              (owned_by_value cr'.namespace cr'.name)
              cr'.status.shoot_resources
              s2).0
            ≡ []
          → All (IsProtected (policy cr)) cr.status.shoot_resources
            ⊎ ((s' : S) × (a : Applier S) × ((build_shoot_applier_or_default r cr s').0 ≡ ok a)
                × All (IsGone a (owner r cr) (policy cr)) cr.status.shoot_resources)
      from shoot cr' s2 o same (idle none_pending found) no_error clean =
          inl (deletable-AllProtected cr cr.status.shoot_resources (ltb-zero _ none_pending))
      from shoot cr' s2 o same (unreached e failed found) no_error clean = cc
      from shoot cr' s2 o same (reached a built found) no_error clean =
          let with_applier =
            subst
              (λ (x : Shoot S).
                (delete_render x.applier cr' (owned_by_value cr'.namespace cr'.name)
                  cr'.status.shoot_resources s2).0
                ≡ [])
              found clean in
          inr (
            s,
            a,
            built,
            subst (ShootEntries (IsGone a)) same (
                delete_render-AllGone a cr' (owned_by_value cr'.namespace cr'.name)
                  cr'.status.shoot_resources s2 with_applier),
          )

  IsClearable-MayRelease : (s : S) → IsClearable r cr → MayRelease r cr s
  IsClearable-MayRelease s h =
      let same = prepared-essence r cr s in
      let ((shoot, cr'), s') = prepared r cr s in
      let o = owned_by_value cr'.namespace cr'.name in
      let (s1, s2, seed_errs, shoot_errs) = delete_both-parts r cr' shoot.applier o s' in
      record {
        seed_clean =
            seed_errs
            ∙ delete_render-clean r.seed_applier cr' o cr'.status.seed_resources s1
                (subst (SeedEntries (IsDeletable r.seed_applier)) (sym same) h.seed);
        shoot_clean = elim h.shoot [
          | inl forced ↦
              inr ((eq_iff (get_text force_delete_annotation cr.annotations) "true").1 forced)
          | inr (inl protected) ↦ inl (
              nothing shoot.build_error _
                (AllProtected-deletable cr cr.status.shoot_resources protected))
          | inr (inr (a, builds, can)) ↦
              inl (from shoot cr' s2 a _ same (prepared-IsFound r cr s) (builds s) can shoot_errs)
        ];
      }
    where
      nothing :
          (build_error : Option Error) (errs : List Error)
          → pending r cr ≡ 0
          → shoot_done (pending r cr) build_error errs ≡ true
      nothing build_error errs none_pending = rw none_pending refl

      from :
          (shoot : Shoot S) (cr' : DualDeploymentOperator) (s2 : S) (a : Applier S)
          (errs : List Error)
          → essence cr' ≡ essence cr
          → IsFound r cr s shoot
          → (build_shoot_applier_or_default r cr s).0 ≡ ok a
          → All (IsDeletable a (owner r cr) (policy cr)) cr.status.shoot_resources
          → errs
            ≡ (delete_render shoot.applier cr'
                (owned_by_value cr'.namespace cr'.name)
                cr'.status.shoot_resources
                s2).0
          → shoot_done (pending r cr) shoot.build_error errs ≡ true
      from shoot cr' s2 a errs same (idle none_pending found) built can shoot_errs =
          nothing shoot.build_error errs (ltb-zero _ none_pending)
      from shoot cr' s2 a errs same (unreached e failed found) built can shoot_errs = cc
      from shoot cr' s2 a errs same (reached a' built' found) built can shoot_errs =
          let one : a ≡ a' = cc in
          let shoot_clean =
            subst
              (λ (x : Shoot S).
                (delete_render x.applier cr' (owned_by_value cr'.namespace cr'.name)
                  cr'.status.shoot_resources s2).0
                ≡ [])
              (sym found)
              (delete_render-clean a' cr' (owned_by_value cr'.namespace cr'.name)
                cr'.status.shoot_resources s2
                (subst (ShootEntries (IsDeletable a')) (sym same) (
                  subst
                    (λ b. All (IsDeletable b (owner r cr) (policy cr)) cr.status.shoot_resources)
                    one can))) in
          let clean : errs ≡ [] = shoot_errs ∙ shoot_clean in
          let no_error : shoot.build_error ≡ none = ap (λ (x : Shoot S). x.build_error) found in
          ground (arith, clean, no_error)

module _ {S : Type 0} ⦃k : Library⦄ (r : Reconciler S) where
  -- The custom resource is not updated, and so keeps its finalizer, unless every entry of the seed's
  -- inventory is gone, and the shoot was given up by the force-delete annotation, or has only
  -- protected entries, or was reached and each of its entries is gone. Otherwise a deletion keeps
  -- whatever the other calls keep. An entry is gone if it is a CRD that the retention policy
  -- protects, or if the cluster has answered its deletion, for this custom resource, without an
  -- error.
  pub tear_down-kept :
      (P : S → Type 0) (cr : DualDeploymentOperator) (s : S)
      → OthersKeep P r (owned_by_value cr.namespace cr.name)
      → P s
      → P (tear_down r cr s).1 ⊎ IsCleared r cr
  tear_down-kept P cr s others p = elim (tear_down-MayRelease P r cr s others p) [
    | inl p' ↦ inl p'
    | inr may ↦ inr (MayRelease-IsCleared r cr s may)
  ]

  -- If the library behaves as documented, a deletion ends with an update of this custom resource without
  -- the finalizer, and its outcome is that of the update, if every entry of the seed's inventory can
  -- be deleted, and the shoot is given up by the force-delete annotation, or has only protected
  -- entries, or can be reached and each of its entries can be deleted. An entry can be deleted if it
  -- is a CRD that the retention policy protects, or if the cluster answers its deletion without an
  -- error in every world.
  pub tear_down-IsReleased :
      (doc : Documented) (cr : DualDeploymentOperator) (s : S)
      → IsClearable r cr
      → IsReleased doc r cr.namespace cr.name (tear_down r cr s)
  tear_down-IsReleased doc cr s h =
      MayRelease-IsReleased doc r cr s (IsClearable-MayRelease r cr s h)
