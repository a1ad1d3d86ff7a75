-- ===== src/Controller/Prune/Accounted.antt =====
-- What becomes of the entries of an inventory that is pruned.
use dual_deployment_operator.Base.{
  ◌≡◌, refl, inl, inr, String, true, false, Option, none, some, List, [], ◌∷◌, ◌==◌, ◌||◌, map, All,
  In, Error, Result, ok, err, Bool-cases, arith, one_of, is_not_found, is_no_match_error,
}
use dual_deployment_operator.Json.{Fields}
use dual_deployment_operator.Library.{Library}
use dual_deployment_operator.Api.{ResourceStatus, DualDeploymentOperator}
use dual_deployment_operator.Manifest.{Manifest}
use dual_deployment_operator.Deliver.Order.{
  sort_status_for_delete, manifest_from_status, status_identity_key, manifest_identity_key,
}
use dual_deployment_operator.Deliver.Order.Buckets.{All-of_sort}
use dual_deployment_operator.Deliver.Applier.{Applier, owner_of}
use dual_deployment_operator.Controller.Prune.{
  is_retained_crd, prune_live, prune_orphan, prune_one, prune_loop, prune, Pruned, add_pruned,
}

-- What became of one entry: it is still rendered, or a retention policy protects it, or it is kept in
-- the inventory, or the cluster has said in some world that it is not there, or that it belongs to
-- another owner, or that it is deleted.
pub data IsSettled {S : Type 0} ⦃k : Library⦄ (applier : Applier S) (keys : List String)
    (cr : DualDeploymentOperator) (owned_by : String) (retained : List ResourceStatus)
    (rs : ResourceStatus) : Type 0 where
  rendered :
      one_of keys (status_identity_key rs) ≡ true → IsSettled applier keys cr owned_by retained rs
  protected : is_retained_crd cr rs ≡ true → IsSettled applier keys cr owned_by retained rs
  stays : In rs retained → IsSettled applier keys cr owned_by retained rs
  gone :
      (s : S) (e : Error)
      → (applier.get (manifest_from_status rs) s).0 ≡ err e
      → (is_not_found e || is_no_match_error e) ≡ true
      → IsSettled applier keys cr owned_by retained rs
  foreign :
      (s : S) (live : Fields)
      → (applier.get (manifest_from_status rs) s).0 ≡ ok live
      → (owner_of live == owned_by) ≡ false
      → IsSettled applier keys cr owned_by retained rs
  deleted :
      (s : S)
      → (applier.delete (manifest_from_status rs) owned_by s).0 ≡ none
      → IsSettled applier keys cr owned_by retained rs

module _ {S : Type 0} ⦃k : Library⦄ (applier : Applier S) (keys : List String)
    (cr : DualDeploymentOperator) (owned_by : String) where
  abbrev pub AreSettled : List ResourceStatus → List ResourceStatus → Type 0
  AreSettled retained prev = All (IsSettled applier keys cr owned_by retained) prev

  prune_live-IsSettled :
      (retained : List ResourceStatus) (rs : ResourceStatus) (live : Result Fields) (s s' : S)
      → (applier.get (manifest_from_status rs) s).0 ≡ live
      → (prune_live applier (manifest_from_status rs) owned_by live s').0 ≡ none
      → IsSettled applier keys cr owned_by retained rs
  unfolding prune_live
  prune_live-IsSettled retained rs (err e) s s' read h =
      elim (Bool-cases (is_not_found e || is_no_match_error e)) [
        | inl missing ↦ gone s e read missing
        | inr other ↦ absurd (ground (arith, other, h))
      ]
  prune_live-IsSettled retained rs (ok live) s s' read h =
      elim (Bool-cases (owner_of live == owned_by)) [
        | inl own ↦ deleted s' (rw (own, prune_live) at h)
        | inr other ↦ foreign s live read other
      ]

  prune_one-IsSettled :
      (retained : List ResourceStatus) (rs : ResourceStatus) (s : S)
      → (prune_one applier keys cr owned_by rs s).0 ≡ none
      → IsSettled applier keys cr owned_by retained rs
  unfolding prune_one prune_orphan
  prune_one-IsSettled retained rs s h = elim (Bool-cases (one_of keys (status_identity_key rs))) [
    | inl present ↦ rendered present
    | inr absent ↦ elim (Bool-cases (is_retained_crd cr rs)) [
      | inl crd ↦ protected crd
      | inr free ↦ prune_live-IsSettled retained rs _ s _ refl (rw (absent, free, prune_one) at h)
    ]
  ]

  later :
      (rs' : ResourceStatus) (failure : Option Error) (p : Pruned) (rs : ResourceStatus)
      → IsSettled applier keys cr owned_by p.retained rs
      → IsSettled applier keys cr owned_by (add_pruned rs' failure p).retained rs
  later rs' failure p rs (rendered e) = rendered e
  later rs' failure p rs (protected e) = protected e
  later rs' none p rs (stays i) = stays i
  later rs' (some e) p rs (stays i) = stays (inr i)
  later rs' failure p rs (gone s e read missing) = gone s e read missing
  later rs' failure p rs (foreign s live read other) = foreign s live read other
  later rs' failure p rs (deleted s done) = deleted s done

  AreSettled-later :
      (rs' : ResourceStatus) (failure : Option Error) (p : Pruned) (prev : List ResourceStatus)
      → AreSettled p.retained prev
      → AreSettled (add_pruned rs' failure p).retained prev
  AreSettled-later rs' failure p [] h = tt
  AreSettled-later rs' failure p (rs ∷ prev) h =
      (later rs' failure p rs h.0, AreSettled-later rs' failure p prev h.1)

  first-IsSettled :
      (rs : ResourceStatus) (s : S) (p : Pruned) (failure : Option Error)
      → (prune_one applier keys cr owned_by rs s).0 ≡ failure
      → IsSettled applier keys cr owned_by (add_pruned rs failure p).retained rs
  first-IsSettled rs s p none h = prune_one-IsSettled _ rs s h
  first-IsSettled rs s p (some e) h = stays (inl refl)

  pub prune_loop-AreSettled :
      (prev : List ResourceStatus) (s : S)
      → AreSettled (prune_loop applier keys cr owned_by prev s).0.retained prev
  unfolding prune_loop
  prune_loop-AreSettled [] s = tt
  prune_loop-AreSettled (rs ∷ prev) s =
      let (failure, s') = prune_one applier keys cr owned_by rs s in
      let rest = (prune_loop applier keys cr owned_by prev s').0 in
      (
        first-IsSettled rs s rest failure refl,
        AreSettled-later rs failure rest prev (prune_loop-AreSettled prev s'),
      )

module _ {S : Type 0} ⦃k : Library⦄ (applier : Applier S) where
  -- Pruning loses no resource: an entry of the inventory is still rendered, or is a protected CRD, or
  -- stays in the inventory, or the cluster has answered that it does not exist, that its owner is
  -- another one, or that it is deleted.
  pub prune-AreSettled :
      (prev : List ResourceStatus) (current : List Manifest) (cr : DualDeploymentOperator)
      (owned_by : String) (s : S)
      → All
          (IsSettled applier
            (map manifest_identity_key current)
            cr
            owned_by
            (prune applier prev current cr owned_by s).0.retained)
          prev
  unfolding prune sort_status_for_delete
  prune-AreSettled prev current cr owned_by s = All-of_sort _ _ prev (
      prune_loop-AreSettled applier (map manifest_identity_key current) cr owned_by
        (sort_status_for_delete prev) s)
