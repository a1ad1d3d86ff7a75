-- ===== src/Controller/Prune/Safety.antt =====
-- What pruning may touch, and what it reports.
use dual_deployment_operator.Base.{
  ◌≡◌, refl, inl, inr, String, false, none, some, List, [], ◌∷◌, arith, Error, Result, ok, err,
  Keeps, Keeps-pure, Keeps-if, Keeps-bind, All, one_of, map, length, Option-cases, ap, suc, ◌==◌,
  ◌↔◌, ◌∙◌, sym, subst, ◌||◌, Bool-cases, is_not_found, is_no_match_error,
}
use dual_deployment_operator.Json.{Fields}
use dual_deployment_operator.Library.{Library, Documented}
use dual_deployment_operator.Api.{ResourceStatus, DualDeploymentOperator}
use dual_deployment_operator.Manifest.{Manifest}
use dual_deployment_operator.Deliver.Order.{
  sort_status_for_delete, manifest_from_status, status_identity_key, manifest_identity_key,
}
use dual_deployment_operator.Deliver.Order.Buckets.{All-sort}
use dual_deployment_operator.Deliver.Applier.{Applier, owner_of}
use dual_deployment_operator.Controller.Prune.Accounted.{AreSettled, prune_loop-AreSettled}
use dual_deployment_operator.Controller.Prune.{
  is_retained_crd, Pruned, prune_live, prune_orphan, prune_one, prune_loop, prune,
}

module _ ⦃k : Library⦄ where
  -- An entry whose key is not current and that no retention policy protects.
  abbrev pub IsOrphan : List String → DualDeploymentOperator → ResourceStatus → Type 0
  IsOrphan keys cr rs =
      (one_of keys (status_identity_key rs) ≡ false) × (is_retained_crd cr rs ≡ false)

module _ {S : Type 0} ⦃k : Library⦄ (P : S → Type 0) (applier : Applier S) where
  -- The calls for one orphan keep `P`.
  pub record CallsKeep (owned_by : String) (rs : ResourceStatus) : Type 0 where
    pub get : Keeps P (applier.get (manifest_from_status rs))
    pub delete : Keeps P (applier.delete (manifest_from_status rs) owned_by)

  prune_live-Keeps :
      (rs : ResourceStatus) (owned_by : String) (live : Result Fields)
      → Keeps P (applier.delete (manifest_from_status rs) owned_by)
      → Keeps P (prune_live applier (manifest_from_status rs) owned_by live)
  unfolding prune_live
  prune_live-Keeps rs owned_by (err e) h = Keeps-pure _
  prune_live-Keeps rs owned_by (ok live) h =
      Keeps-if (owner_of live == owned_by) _ _ (λ _. h) (λ _. Keeps-pure none)

  prune_one-Keeps :
      (keys : List String) (cr : DualDeploymentOperator) (owned_by : String) (rs : ResourceStatus)
      → (IsOrphan keys cr rs → CallsKeep owned_by rs)
      → Keeps P (prune_one applier keys cr owned_by rs)
  unfolding prune_one prune_orphan
  prune_one-Keeps keys cr owned_by rs h =
      Keeps-if _ _ _ (λ _. Keeps-pure none)
        λ absent.
          Keeps-if _ _ _ (λ _. Keeps-pure none)
            λ free.
              let calls = h (absent, free) in
              Keeps-bind _ _ calls.get λ live. prune_live-Keeps rs owned_by live calls.delete

  prune_loop-Keeps :
      (keys : List String) (cr : DualDeploymentOperator) (owned_by : String)
      (prev : List ResourceStatus)
      → All (λ rs. IsOrphan keys cr rs → CallsKeep owned_by rs) prev
      → Keeps P (prune_loop applier keys cr owned_by prev)
  unfolding prune_loop
  prune_loop-Keeps keys cr owned_by [] h = Keeps-pure _
  prune_loop-Keeps keys cr owned_by (rs ∷ prev) h = record {
    at = λ s p.
        (prune_loop-Keeps keys cr owned_by prev h.1).at _
          ((prune_one-Keeps keys cr owned_by rs h.0).at s p);
  }

  -- Pruning calls the cluster only about entries of the inventory whose identity is not rendered
  -- any more and that are no protected CRDs: what these reads and deletes keep, pruning keeps.
  pub prune-Keeps :
      (prev : List ResourceStatus) (current : List Manifest) (cr : DualDeploymentOperator)
      (owned_by : String)
      → All (λ rs. IsOrphan (map manifest_identity_key current) cr rs → CallsKeep owned_by rs) prev
      → Keeps P (prune applier prev current cr owned_by)
  unfolding prune sort_status_for_delete
  prune-Keeps prev current cr owned_by h = record {
    at =
        (prune_loop-Keeps (map manifest_identity_key current) cr owned_by
          (sort_status_for_delete prev) (All-sort _ _ prev h)).at;
  }

-- The entry is an orphan, and the cluster has refused, in some world, to read it, other than because it
-- does not exist, or to delete it.
pub data IsRefused {S : Type 0} ⦃k : Library⦄ (applier : Applier S) (keys : List String)
    (cr : DualDeploymentOperator) (owned_by : String) (rs : ResourceStatus) : Type 0 where
  unread :
      (s : S) (e : Error)
      → IsOrphan keys cr rs
      → (applier.get (manifest_from_status rs) s).0 ≡ err e
      → (is_not_found e || is_no_match_error e) ≡ false
      → IsRefused applier keys cr owned_by rs
  undeleted :
      (s : S) (e : Error)
      → IsOrphan keys cr rs
      → (applier.delete (manifest_from_status rs) owned_by s).0 ≡ some e
      → IsRefused applier keys cr owned_by rs

-- What the loop retains, and what becomes of the rest.
pub record IsAccounted {S : Type 0} ⦃k : Library⦄ (applier : Applier S) (keys : List String)
    (cr : DualDeploymentOperator) (owned_by : String) (prev : List ResourceStatus) (p : Pruned)
    : Type 0 where
  pub settled : AreSettled applier keys cr owned_by p.retained prev
  pub refused : All (IsRefused applier keys cr owned_by) p.retained
  pub one_error_each : length p.retained ≡ length p.errors

module _ {S : Type 0} ⦃k : Library⦄ (applier : Applier S) (keys : List String)
    (cr : DualDeploymentOperator) (owned_by : String) where
  prune_live-IsRefused :
      (rs : ResourceStatus) (live : Result Fields) (s s' : S) (e : Error)
      → IsOrphan keys cr rs
      → (applier.get (manifest_from_status rs) s).0 ≡ live
      → (prune_live applier (manifest_from_status rs) owned_by live s').0 ≡ some e
      → IsRefused applier keys cr owned_by rs
  unfolding prune_live
  prune_live-IsRefused rs (err e') s s' e orphan read h =
      elim (Bool-cases (is_not_found e' || is_no_match_error e')) [
        | inl missing ↦ absurd (ground (arith, missing, h))
        | inr other ↦ unread s e' orphan read other
      ]
  prune_live-IsRefused rs (ok live) s s' e orphan read h =
      elim (Bool-cases (owner_of live == owned_by)) [
        | inl own ↦ undeleted s' e orphan (rw (own, prune_live) at h)
        | inr other ↦ absurd (ground (arith, other, h))
      ]

  prune_one-IsRefused :
      (rs : ResourceStatus) (s : S) (e : Error)
      → (prune_one applier keys cr owned_by rs s).0 ≡ some e
      → IsRefused applier keys cr owned_by rs
  unfolding prune_one prune_orphan
  prune_one-IsRefused rs s e h = elim (Bool-cases (one_of keys (status_identity_key rs))) [
    | inl present ↦ absurd (ground (arith, present, h))
    | inr absent ↦ elim (Bool-cases (is_retained_crd cr rs)) [
      | inl crd ↦ absurd (ground (arith, absent, crd, h))
      | inr free ↦
          prune_live-IsRefused rs _ s _ e (absent, free) refl (rw (absent, free, prune_one) at h)
    ]
  ]

  prune_loop-AreRefused :
      (prev : List ResourceStatus) (s : S)
      → All
          (IsRefused applier keys cr owned_by)
          (prune_loop applier keys cr owned_by prev s).0.retained
        × (length (prune_loop applier keys cr owned_by prev s).0.retained
            ≡ length (prune_loop applier keys cr owned_by prev s).0.errors)
  unfolding prune_loop
  prune_loop-AreRefused [] s = (tt, refl)
  prune_loop-AreRefused (rs ∷ prev) s =
      elim (Option-cases (prune_one applier keys cr owned_by rs s).0) [
        | inl e ↦ rw e (prune_loop-AreRefused prev _)
        | inr (failure, e) ↦
            (let rest = prune_loop-AreRefused prev (prune_one applier keys cr owned_by rs s).1 in
              rw e ((prune_one-IsRefused rs s failure e, rest.0), ap suc rest.1))
      ]

  -- An entry that the loop visits is still rendered, or is a protected CRD, or is retained, or the
  -- cluster has answered that it does not exist, that its owner is another one, or that it is
  -- deleted. Only orphans that the cluster has refused to read or to delete are retained, and there
  -- are as many errors as retained entries.
  pub prune_loop-IsAccounted :
      (prev : List ResourceStatus) (s : S)
      → IsAccounted applier keys cr owned_by prev (prune_loop applier keys cr owned_by prev s).0
  prune_loop-IsAccounted prev s = record {
    settled = prune_loop-AreSettled applier keys cr owned_by prev s;
    refused = (prune_loop-AreRefused prev s).0;
    one_error_each = (prune_loop-AreRefused prev s).1;
  }

length-zero : {A : Type 0} (xs : List A) → length xs ≡ 0 → xs ≡ []
length-zero [] h = refl
length-zero (x ∷ xs) h = absurd (omega (arith, h))

AllNone-map : (errs : List Error) → All (λ e. e ≡ none) (map some errs) → errs ≡ []
AllNone-map [] h = refl
AllNone-map (e ∷ errs) h = cc

module _ {S : Type 0} ⦃k : Library⦄ (doc : Documented) (applier : Applier S) where
  -- If the library behaves as documented, pruning reports no error if and only if it retains
  -- nothing.
  pub prune_iff :
      (prev : List ResourceStatus) (current : List Manifest) (cr : DualDeploymentOperator)
      (owned_by : String) (s : S)
      → ((prune applier prev current cr owned_by s).0.error ≡ none)
        ↔ ((prune applier prev current cr owned_by s).0.retained ≡ [])
  unfolding prune
  prune_iff prev current cr owned_by s =
      let keys = map manifest_identity_key current in
      let p = (prune_loop applier keys cr owned_by (sort_status_for_delete prev) s).0 in
      let each =
        (prune_loop-IsAccounted applier keys cr owned_by (sort_status_for_delete prev)
          s).one_error_each in
      (
        λ h.
            let clean = AllNone-map p.errors ((doc.aggregate_none (map some p.errors)).0 h) in
            length-zero p.retained (each ∙ ap length clean),
        λ h.
            let clean = length-zero p.errors (sym each ∙ ap length h) in
            (doc.aggregate_none (map some p.errors)).1
              (subst (λ errs. All (λ e. e ≡ none) (map some errs)) (sym clean) tt),
      )
