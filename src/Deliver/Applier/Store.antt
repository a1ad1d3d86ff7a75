-- ===== src/Deliver/Applier/Store.antt =====
-- Clients as views of a store of objects, and what `SSAApplier` does to an object in it that another
-- owner's label claims.
use dual_deployment_operator.Base.{
  ◌≡◌, ap, ◌≢◌, inl, inr, String, true, false, Option, none, some, ◌==◌, Error, ok, err, Bool-cases,
  Result-cases, is_not_found, arith, Keeps, eq_iff, ◌∙◌, subst,
}
use dual_deployment_operator.Json.{Fields}
use dual_deployment_operator.Library.{Library, GroupVersionKind}
use dual_deployment_operator.Api.{ResourceStatus}
use dual_deployment_operator.Manifest.{Manifest, is_cluster_scoped}
use dual_deployment_operator.Deliver.Applier.{
  Client, SsaApplier, owner_of, get_live, judge_owner, foreign_owner, prepare, initial_status,
  guard_failure, guard, unless_refused, ssa_apply, ssa_delete, ssa_get, delete_live, as_applier,
}
use dual_deployment_operator.Deliver.Applier.Guard.{
  ReadsKeep, ApplierKeeps, get_live-Keeps, guard-Keeps, ssa_apply-conflict, ssa_delete-foreign,
  unless_refused-Keeps, ssa_delete-Keeps,
}

-- The objects of all clusters, each under a text that identifies it, and a client of one cluster:
-- reads leave them as they are and tell the truth when they answer, and a write changes no other
-- object than the one that it names.
pub record Stores {S : Type 0} ⦃k : Library⦄ (find : S → String → Option Fields) (c : Client S)
    : Type 0 where
  pub locate : GroupVersionKind → String → String → String
  pub read :
      (gvk : GroupVersionKind) (ns name key : String) (s : S)
      → find (c.get gvk ns name s).1 key ≡ find s key
  pub got :
      (gvk : GroupVersionKind) (ns name : String) (s : S) (live : Fields)
      → (c.get gvk ns name s).0 ≡ ok live
      → find s (locate gvk ns name) ≡ some live
  pub missing :
      (gvk : GroupVersionKind) (ns name : String) (s : S) (e : Error)
      → (c.get gvk ns name s).0 ≡ err e
      → is_not_found e ≡ true
      → find s (locate gvk ns name) ≡ none
  pub timed : (key : String) (s : S) → find (c.now s).1 key ≡ find s key
  pub patched :
      (u : Fields) (manager key : String) (s : S)
      → locate (k.group_version_kind u) (k.get_namespace u) (k.get_name u) ≢ key
      → find (c.patch u manager s).1 key ≡ find s key
  pub deleted :
      (u : Fields) (key : String) (s : S)
      → locate (k.group_version_kind u) (k.get_namespace u) (k.get_name u) ≢ key
      → find (c.delete u s).1 key ≡ find s key

module _ {S : Type 0} ⦃k : Library⦄ (find : S → String → Option Fields) where
  -- The object with this identity is this one.
  abbrev pub Holds : String → Fields → S → Type 0
  Holds key live s = find s key ≡ some live

  -- What identifies the object that a manifest names.
  abbrev pub located : {c : Client S} → Stores find c → Fields → String
  located stores u = stores.locate (k.group_version_kind u) (k.get_namespace u) (k.get_name u)

  -- Every manifest that names the object has one of the cluster-scoped kinds.
  abbrev pub IsClusterScoped : {c : Client S} → Stores find c → String → Type 0
  IsClusterScoped stores key =
      (u : Fields) → located stores u ≡ key → is_cluster_scoped (k.get_kind u) ≡ true

module _ {S : Type 0} ⦃k : Library⦄ (find : S → String → Option Fields) (a : SsaApplier S)
    (stores : Stores find a.client) (key owned_by : String) (live : Fields)
    (foreign : owner_of live ≢ owned_by) where
  reads : ReadsKeep (Holds find key live) a.client
  reads = record {
    get = λ gvk ns name. record { at = λ s p. stores.read gvk ns name key s ∙ p };
    now = record { at = λ s p. stores.timed key s ∙ p };
  }

  -- What is read of the object is the object.
  read_same :
      (u : Fields) (s : S) (read : Fields)
      → located find stores u ≡ key
      → Holds find key live s
      → (get_live a u s).0 ≡ ok read
      → read ≡ live
  unfolding get_live
  read_same u s read same p e =
      let there = stores.got _ _ _ s read e in
      let found = subst (λ at. find s at ≡ some read) same there in ground (arith, found, p)

  -- An object that is there is not reported missing.
  read_there :
      (u : Fields) (s : S) (e : Error)
      → located find stores u ≡ key
      → Holds find key live s
      → (get_live a u s).0 ≡ err e
      → is_not_found e ≡ false
  unfolding get_live
  read_there u s e same p failed = elim (Bool-cases (is_not_found e)) [
    | inr other ↦ other
    | inl gone ↦
        (let absent = subst (λ at. find s at ≡ none) same (stores.missing _ _ _ s e failed gone) in
          absurd (ground (arith, absent, p)))
  ]

  guard-unread :
      (m : Manifest) (status : ResourceStatus) (s : S) (e : Error)
      → is_cluster_scoped (k.get_kind m.unstructured) ≡ true
      → (get_live a m.unstructured s).0 ≡ err e
      → is_not_found e ≡ false
      → Holds find key live s
      → Holds find key live
          (unless_refused a status m
            (guard a status m owned_by s).0
            (guard a status m owned_by s).1).1
  unfolding guard foreign_owner judge_owner guard_failure unless_refused
  guard-unread m status s e scoped failed other p =
      rw (scoped, guard)
        (rw failed (rw (other, judge_owner) ((get_live-Keeps _ a reads m.unstructured).at s p)))

  apply_named :
      (m : Manifest) (s : S)
      → owner_of live ≢ ""
      → IsClusterScoped find stores key
      → located find stores (prepare m owned_by).unstructured ≡ key
      → Holds find key live s
      → Holds find key live (ssa_apply a m owned_by s).1
  unfolding ssa_apply
  apply_named m s claimed cluster_scoped same p =
      let m' = prepare m owned_by in
      let u = m'.unstructured in
      let s1 = (a.client.now s).1 in
      let p1 = reads.now.at s p in
      let scoped = cluster_scoped u same in
      elim (Result-cases (get_live a u s1).0) [
        | inl (e, failed) ↦
            guard-unread m' (initial_status u (a.client.now s).0) s1 e scoped failed
              (read_there u s1 e same p1 failed) p1
        | inr (read, e) ↦
            (let is_live = read_same u s1 read same p1 e in
              let refused =
                ssa_apply-conflict a m owned_by s live scoped (e ∙ ap ok is_live) claimed foreign in
              ap (λ after. find after key) refused.2 ∙ (get_live-Keeps _ a reads u).at s1 p1)
      ]

  apply_elsewhere :
      (m : Manifest) (s : S)
      → located find stores (prepare m owned_by).unstructured ≢ key
      → Holds find key live s
      → Holds find key live (ssa_apply a m owned_by s).1
  unfolding ssa_apply
  apply_elsewhere m s other p =
      let m' = prepare m owned_by in
      let status = initial_status m'.unstructured (a.client.now s).0 in
      (unless_refused-Keeps _ a reads status m' (guard a status m' owned_by (a.client.now s).1).0
          (record { at = λ s' p'. stores.patched m'.unstructured _ key s' other ∙ p' })).at
        _ ((guard-Keeps _ a reads status m' owned_by).at _ (reads.now.at s p))

  -- A cluster-scoped object that another owner's label claims is left as it is by applying any
  -- manifest, whether that names the object or not.
  pub apply-Holds :
      (m : Manifest)
      → owner_of live ≢ ""
      → IsClusterScoped find stores key
      → Keeps (Holds find key live) (ssa_apply a m owned_by)
  apply-Holds m claimed cluster_scoped = record {
    at = λ s p.
        let at = located find stores (prepare m owned_by).unstructured in
        elim (Bool-cases (at == key)) [
          | inl e ↦ apply_named m s claimed cluster_scoped ((eq_iff at key).0 e) p
          | inr e ↦ apply_elsewhere m s (λ same. ground (arith, e, (eq_iff at key).1 same)) p
        ];
  }

  delete_named :
      (m : Manifest) (s : S)
      → located find stores m.unstructured ≡ key
      → Holds find key live s
      → Holds find key live (ssa_delete a m owned_by s).1
  unfolding ssa_delete ssa_get delete_live
  delete_named m s same p = elim (Result-cases (get_live a m.unstructured s).0) [
    | inl (e, failed) ↦ rw (failed, ssa_delete) ((get_live-Keeps _ a reads m.unstructured).at s p)
    | inr (read, e) ↦
        (let is_live = read_same m.unstructured s read same p e in
          let spared = ssa_delete-foreign a m owned_by s live (e ∙ ap ok is_live) foreign in
          ap (λ x. find x.1 key) spared ∙ (get_live-Keeps _ a reads m.unstructured).at s p)
  ]

  -- An object of any kind that is not labelled for the owner is left as it is by deleting any
  -- manifest, whether that names the object or not.
  pub delete-Holds : (m : Manifest) → Keeps (Holds find key live) (ssa_delete a m owned_by)
  delete-Holds m = record {
    at = λ s p.
        let at = located find stores m.unstructured in
        elim (Bool-cases (at == key)) [
          | inl e ↦ delete_named m s ((eq_iff at key).0 e) p
          | inr e ↦
              (let other : at ≢ key = λ same. ground (arith, e, (eq_iff at key).1 same) in
                (ssa_delete-Keeps _ a reads m owned_by
                    (record { at = λ s' p'. stores.deleted m.unstructured key s' other ∙ p' })).at
                  s p)
        ];
  }

  pub applier_delete-Holds :
      (m : Manifest) → Keeps (Holds find key live) ((as_applier a).delete m owned_by)
  unfolding as_applier
  applier_delete-Holds = delete-Holds

  pub applier-Holds :
      owner_of live ≢ ""
      → IsClusterScoped find stores key
      → ApplierKeeps (Holds find key live) owned_by (as_applier a)
  unfolding as_applier ssa_get
  applier-Holds claimed cluster_scoped = record {
    apply = λ m. apply-Holds m claimed cluster_scoped;
    delete = delete-Holds;
    get = λ m. record { at = (get_live-Keeps _ a reads m.unstructured).at };
  }
