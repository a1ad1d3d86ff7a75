-- ===== src/Deliver/Applier/Guard.antt =====
-- The calls that `SSAApplier` makes, and those that it refuses to make.
use dual_deployment_operator.Base.{
  ◌≡◌, refl, ap, ◌≢◌, String, true, false, Option, none, some, ◌==◌, Result, ok, err, inl, inr,
  Bool-cases, arith, Keeps, Keeps-if, is_some, eq_iff,
}
use dual_deployment_operator.Json.{Fields}
use dual_deployment_operator.Library.{Library, Documented, GroupVersionKind}
use dual_deployment_operator.Api.{ResourceStatus, degraded}
use dual_deployment_operator.Manifest.{Manifest, is_cluster_scoped}
use dual_deployment_operator.Deliver.Applier.{
  Applied, Applier, Client, SsaApplier, owner_of, get_live, judge_owner, foreign_owner, prepare,
  initial_status, guard_failure, guard, read_back, unless_refused, ssa_apply, ssa_delete,
  delete_owned, delete_live, unless_not_found,
}
use dual_deployment_operator.Deliver.Applier.Prepared.{IsPrepared, prepare-IsPrepared}

-- The calls of an applier for one owner keep `P`.
pub record ApplierKeeps {S : Type 0} (P : S → Type 0) (owned_by : String) (a : Applier S)
    : Type 0 where
  pub apply : (m : Manifest) → Keeps P (a.apply m owned_by)
  pub delete : (m : Manifest) → Keeps P (a.delete m owned_by)
  pub get : (m : Manifest) → Keeps P (a.get m)

-- The reads of a client, and its clock, keep `P`.
pub record ReadsKeep {S : Type 0} (P : S → Type 0) (c : Client S) : Type 0 where
  pub get : (gvk : GroupVersionKind) (ns name : String) → Keeps P (c.get gvk ns name)
  pub now : Keeps P c.now

module _ {S : Type 0} ⦃k : Library⦄ (P : S → Type 0) (a : SsaApplier S)
    (reads : ReadsKeep P a.client) where
  pub get_live-Keeps : (u : Fields) → Keeps P (get_live a u)
  unfolding get_live
  get_live-Keeps u = reads.get _ _ _

  pub guard-Keeps :
      (status : ResourceStatus) (m : Manifest) (owned_by : String)
      → Keeps P (guard a status m owned_by)
  unfolding guard foreign_owner
  guard-Keeps status m owned_by =
      elim (Bool-cases (is_cluster_scoped (k.get_kind m.unstructured))) [
        | inl e ↦ rw (e, guard) (record { at = (get_live-Keeps m.unstructured).at })
        | inr e ↦ rw (e, guard) (record { at = λ s h. h })
      ]

  read_back-Keeps :
      (status : ResourceStatus) (m : Manifest) (patched : Result Fields)
      → Keeps P (read_back a status m patched)
  unfolding read_back
  read_back-Keeps status m (err e) = record { at = λ s h. h }
  read_back-Keeps status m (ok u) = record { at = (get_live-Keeps u).at }

  pub unless_refused-Keeps :
      (status : ResourceStatus) (m : Manifest) (refused : Option Applied)
      → Keeps P (a.client.patch m.unstructured a.field_manager)
      → Keeps P (unless_refused a status m refused)
  unfolding unless_refused
  unless_refused-Keeps status m (some r) h = record { at = λ s p. p }
  unless_refused-Keeps status m none h = record {
    at = λ s p. (read_back-Keeps status m _).at _ (h.at s p);
  }

  -- If the library behaves as documented, the only writes of `Apply` are patches, under the
  -- applier's field manager, of an object that carries the label of the owner given and no origin
  -- annotation: what these patches, the client's reads and its clock keep, `Apply` keeps.
  pub ssa_apply-Keeps :
      (doc : Documented) (m : Manifest) (owned_by : String)
      → ((u : Fields) → IsPrepared owned_by u → Keeps P (a.client.patch u a.field_manager))
      → Keeps P (ssa_apply a m owned_by)
  unfolding ssa_apply
  ssa_apply-Keeps doc m owned_by patches = record {
    at = λ s p.
        let m' = prepare m owned_by in
        let status = initial_status m'.unstructured (a.client.now s).0 in
        (unless_refused-Keeps status m' _ (patches _ (prepare-IsPrepared doc m owned_by))).at _
          ((guard-Keeps status m' owned_by).at _ (reads.now.at s p));
  }

  -- Deleting through the applier makes no other write than deletions of the object given: what
  -- these and the client's reads keep, `Delete` keeps.
  pub ssa_delete-Keeps :
      (m : Manifest) (owned_by : String)
      → Keeps P (a.client.delete m.unstructured)
      → Keeps P (ssa_delete a m owned_by)
  unfolding ssa_delete delete_owned
  ssa_delete-Keeps m owned_by h = record {
    at = λ s p. delete_live-keep _ _ ((get_live-Keeps m.unstructured).at s p);
  }
    where
      delete_live-keep :
          (live : Result Fields) (s : S) → P s → P (delete_live a m owned_by live s).1
      delete_live-keep (err e) s p = p
      delete_live-keep (ok live) s p =
          (Keeps-if (owner_of live == owned_by) _ _ (λ _. record { at = h.at })
              (λ _. record { at = λ s' p'. p' })).at
            s p

module _ {S : Type 0} ⦃k : Library⦄ (a : SsaApplier S) where
  judge-conflict :
      (live : Fields) (owned_by : String)
      → owner_of live ≢ ""
      → owner_of live ≢ owned_by
      → judge_owner owned_by (ok live) ≡ ok (record { owner = owner_of live; conflict = true })
  unfolding judge_owner
  judge-conflict live owned_by some_owner other =
      ground (arith, eq_iff (owner_of live) "", eq_iff (owner_of live) owned_by)

  guard-conflict :
      (status : ResourceStatus) (m : Manifest) (owned_by : String) (live : Fields) (s : S)
      → is_cluster_scoped (k.get_kind m.unstructured) ≡ true
      → (get_live a m.unstructured s).0 ≡ ok live
      → owner_of live ≢ ""
      → owner_of live ≢ owned_by
      → guard a status m owned_by s ≡ (
        guard_failure status m (ok (record { owner = owner_of live; conflict = true })),
        (get_live a m.unstructured s).1,
      )
  unfolding guard foreign_owner
  guard-conflict status m owned_by live s scoped read some_owner other =
      rw (scoped, guard)
        (rw read (
          ap (λ o. (guard_failure status m o, (get_live a m.unstructured s).1))
            (judge-conflict live owned_by some_owner other)))

  -- A cluster-scoped object that another owner's label claims is refused: the resource is recorded
  -- as Degraded with an error, and the cluster is as the clock and the read have left it.
  pub ssa_apply-conflict :
      (m : Manifest) (owned_by : String) (s : S) (live : Fields)
      → is_cluster_scoped (k.get_kind (prepare m owned_by).unstructured) ≡ true
      → (get_live a (prepare m owned_by).unstructured (a.client.now s).1).0 ≡ ok live
      → owner_of live ≢ ""
      → owner_of live ≢ owned_by
      → ((ssa_apply a m owned_by s).0.status.health ≡ degraded)
        × (is_some (ssa_apply a m owned_by s).0.error ≡ true)
        × ((ssa_apply a m owned_by s).1
            ≡ (get_live a (prepare m owned_by).unstructured (a.client.now s).1).1)
  unfolding ssa_apply guard_failure
  ssa_apply-conflict m owned_by s live scoped read some_owner other =
      let m' = prepare m owned_by in
      let s' = (a.client.now s).1 in
      let status = initial_status m'.unstructured (a.client.now s).0 in
      let refused = guard-conflict status m' owned_by live s' scoped read some_owner other in
      (rw refused refl, rw refused refl, rw refused refl)

  -- An object that is labelled for another owner is left alone by `Delete`, with no error.
  pub ssa_delete-foreign :
      (m : Manifest) (owned_by : String) (s : S) (live : Fields)
      → (get_live a m.unstructured s).0 ≡ ok live
      → owner_of live ≢ owned_by
      → ssa_delete a m owned_by s ≡ (none, (get_live a m.unstructured s).1)
  unfolding ssa_delete
  ssa_delete-foreign m owned_by s live read other =
      let e : (owner_of live == owned_by) ≡ false =
        ground (arith, eq_iff (owner_of live) owned_by) in
      rw read (rw (e, delete_live) refl)

  -- An object that is labelled for the owner is deleted, and one that is gone by then counts as
  -- deleted.
  pub ssa_delete-owned :
      (m : Manifest) (owned_by : String) (s : S) (live : Fields)
      → (get_live a m.unstructured s).0 ≡ ok live
      → owner_of live ≡ owned_by
      → ssa_delete a m owned_by s ≡ (
        unless_not_found (a.client.delete m.unstructured (get_live a m.unstructured s).1).0,
        (a.client.delete m.unstructured (get_live a m.unstructured s).1).1,
      )
  unfolding ssa_delete delete_owned
  ssa_delete-owned m owned_by s live read own =
      let e : (owner_of live == owned_by) ≡ true = (eq_iff (owner_of live) owned_by).1 own in
      rw read (rw (e, delete_live) refl)
