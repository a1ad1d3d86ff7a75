-- ===== src/Controller/Prune/Settled.antt =====
-- What is pruned after a render that has not changed.
use dual_deployment_operator.Base.{
  ◌≡◌, refl, sym, ◌∙◌, subst, String, true, none, List, [], ◌∷◌, map, All, arith, one_of, eq_refl,
}
use dual_deployment_operator.Library.{Library, Documented}
use dual_deployment_operator.Api.{ResourceStatus, DualDeploymentOperator}
use dual_deployment_operator.Manifest.{Manifest}
use dual_deployment_operator.Deliver.Order.{
  sort_status_for_delete, status_identity_key, manifest_identity_key,
}
use dual_deployment_operator.Deliver.Order.Buckets.{All-sort}
use dual_deployment_operator.Deliver.Applier.{Applier, SsaApplier, prepare, as_applier}
use dual_deployment_operator.Deliver.Applier.Identified.{
  ReturnsSame, IsVersioned, Identifies, as_applier-Identifies,
}
use dual_deployment_operator.Controller.Delivery.{apply_loop, apply_all}
use dual_deployment_operator.Controller.Prune.{prune_one, prune_loop, prune}

module _ {S : Type 0} ⦃k : Library⦄ (applier : Applier S) where
  prune_loop-current :
      (keys : List String) (cr : DualDeploymentOperator) (owned_by : String)
      (prev : List ResourceStatus) (s : S)
      → All (λ rs. one_of keys (status_identity_key rs) ≡ true) prev
      → prune_loop applier keys cr owned_by prev s ≡ (record { retained = []; errors = [] }, s)
  unfolding prune_loop prune_one
  prune_loop-current keys cr owned_by [] s h = refl
  prune_loop-current keys cr owned_by (rs ∷ prev) s h =
      rw (h.0, prune_one) (rw (prune_loop-current keys cr owned_by prev s h.1) refl)

  -- If every entry of the inventory is still rendered, pruning makes no call, retains nothing, and
  -- reports no error, if the library behaves as documented.
  pub prune-current :
      (doc : Documented) (prev : List ResourceStatus) (current : List Manifest)
      (cr : DualDeploymentOperator) (owned_by : String) (s : S)
      → All (λ rs. one_of (map manifest_identity_key current) (status_identity_key rs) ≡ true) prev
      → prune applier prev current cr owned_by s ≡ (record { retained = []; error = none }, s)
  unfolding prune sort_status_for_delete
  prune-current doc prev current cr owned_by s h =
      let keys = map manifest_identity_key current in
      rw (prune_loop-current keys cr owned_by (sort_status_for_delete prev) s (All-sort _ _ prev h))
        (rw ((doc.aggregate_none []).1 tt) refl)

one_of-later :
    (x y : String) (keys : List String) → one_of keys x ≡ true → one_of (y ∷ keys) x ≡ true
one_of-later x y keys h = ground (arith, h)

All-later :
    {A : Type 0} (f : A → String) (y : String) (keys : List String) (xs : List A)
    → All (λ x. one_of keys (f x) ≡ true) xs
    → All (λ x. one_of (y ∷ keys) (f x) ≡ true) xs
All-later f y keys [] h = tt
All-later f y keys (x ∷ xs) h = (one_of-later (f x) y keys h.0, All-later f y keys xs h.1)

All-own : {A : Type 0} (f : A → String) (xs : List A) → All (λ x. one_of (map f xs) (f x) ≡ true) xs
All-own f [] = tt
All-own f (x ∷ xs) = (ground (arith, eq_refl (f x)), All-later f (f x) (map f xs) xs (All-own f xs))

module _ ⦃k : Library⦄ (owned_by : String) where
  -- The keys of a render, as it is applied.
  abbrev pub keys_of : List Manifest → List String
  keys_of = map (λ m. manifest_identity_key (prepare m owned_by))

module _ {S : Type 0} ⦃k : Library⦄ (applier : Applier S) (owned_by : String) where
  pub apply_loop-keys :
      (ms : List Manifest) (s : S)
      → Identifies applier owned_by ms
      → (map status_identity_key (apply_loop applier ms owned_by s).0.statuses
          ≡ keys_of owned_by ms)
        × (map manifest_identity_key (apply_loop applier ms owned_by s).0.manifests
            ≡ keys_of owned_by ms)
  unfolding apply_loop
  apply_loop-keys [] s h = (refl, refl)
  apply_loop-keys (m ∷ ms) s h =
      let first = h.0 s in
      let rest = apply_loop-keys ms (applier.apply m owned_by s).1 h.1 in
      (rw (first.recorded, rest.0) refl, rw (first.left, rest.1) refl)

module _ {S : Type 0} ⦃k : Library⦄ (a : SsaApplier S) (doc : Documented) (returns : ReturnsSame a)
    (owned_by : String) where
  -- If the library behaves as documented, the server returns what it was sent under the same
  -- identity, and the apiVersions can be parsed: what a delivery has recorded of a render is not
  -- pruned when the same render is applied again, in any later world. No call is made, nothing is
  -- retained, and there is no error.
  pub prune_unchanged :
      (ms : List Manifest) (cr : DualDeploymentOperator) (s s' s'' : S)
      → All (IsVersioned a owned_by) ms
      → prune
          (as_applier a)
          (apply_all (as_applier a) ms owned_by s).0.statuses
          (apply_all (as_applier a) ms owned_by s').0.manifests
          cr
          owned_by
          s''
        ≡ (record { retained = []; error = none }, s'')
  unfolding apply_all
  prune_unchanged ms cr s s' s'' h =
      let same_identity = as_applier-Identifies a doc owned_by ms returns h in
      let prev = (apply_loop (as_applier a) ms owned_by s).0.statuses in
      let current = (apply_loop (as_applier a) ms owned_by s').0.manifests in
      let same : map status_identity_key prev ≡ map manifest_identity_key current =
        (apply_loop-keys (as_applier a) owned_by ms s same_identity).0
        ∙ sym (apply_loop-keys (as_applier a) owned_by ms s' same_identity).1 in
      prune-current (as_applier a) doc prev current cr owned_by s'' (
        subst (λ keys. All (λ rs. one_of keys (status_identity_key rs) ≡ true) prev) same
          (All-own status_identity_key prev))
