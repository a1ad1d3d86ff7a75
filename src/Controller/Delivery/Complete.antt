-- ===== src/Controller/Delivery/Complete.antt =====
-- A delivery that reports no error has applied every manifest.
use dual_deployment_operator.Base.{
  ◌≡◌, refl, String, Option, none, some, List, [], ◌∷◌, Error, Keeps, All, map, Result, ok, err,
  ◌≢◌, Bool-cases, inl, inr, arith,
}
use dual_deployment_operator.Json.{Fields}
use dual_deployment_operator.Api.{ResourceStatus}
use dual_deployment_operator.Library.{Library, Documented}
use dual_deployment_operator.Manifest.{Manifest, is_cluster_scoped}
use dual_deployment_operator.Deliver.Applier.{
  Applier, Applied, Owner, SsaApplier, patch_and_read, prepare, ssa_apply, unless_refused,
  read_back, as_applier, initial_status, guard_failure, guard, foreign_owner,
}
use dual_deployment_operator.Deliver.Applier.Guard.{ReadsKeep, get_live-Keeps}
use dual_deployment_operator.Controller.Delivery.{apply_loop, apply_all, add_error}

-- A call of `Apply` without an error brings `Q` about for its manifest.
abbrev pub Applies : {S : Type 0} → (Manifest → S → Type 0) → String → Applier S → Type 0
Applies {S} Q owned_by a =
    (m : Manifest) (s : S) → (a.apply m owned_by s).0.error ≡ none → Q m (a.apply m owned_by s).1

pub add_error-nil :
    (e : Option Error) (errs : List Error) → add_error e errs ≡ [] → (e ≡ none) × (errs ≡ [])
add_error-nil none errs h = (refl, h)
add_error-nil (some e) errs h = cc

no_errors : (errs : List Error) → All (λ e. e ≡ none) (map some errs) → errs ≡ []
no_errors [] h = refl
no_errors (e ∷ errs) h = cc

module _ {S : Type 0} (Q : Manifest → S → Type 0) (applier : Applier S) (owned_by : String)
    (applies : Applies Q owned_by applier)
    (keeps : (m m' : Manifest) → Keeps (Q m) (applier.apply m' owned_by)) where
  loop_kept : (m : Manifest) (ms : List Manifest) → Keeps (Q m) (apply_loop applier ms owned_by)
  unfolding apply_loop
  loop_kept m [] = record { at = λ s p. p }
  loop_kept m (m' ∷ ms) = record { at = λ s p. (loop_kept m ms).at _ ((keeps m m').at s p) }

  apply_loop-All :
      (ms : List Manifest) (s : S)
      → (apply_loop applier ms owned_by s).0.errors ≡ []
      → All (λ m. Q m (apply_loop applier ms owned_by s).1) ms
  unfolding apply_loop
  apply_loop-All [] s h = tt
  apply_loop-All (m ∷ ms) s h =
      let split = add_error-nil _ _ h in
      ((loop_kept m ms).at _ (applies m s split.0), apply_loop-All ms _ split.1)

  -- If no error is reported, every manifest has been applied.
  pub apply_all-All :
      ⦃k : Library⦄ (doc : Documented) (ms : List Manifest) (s : S)
      → (apply_all applier ms owned_by s).0.error ≡ none
      → All (λ m. Q m (apply_all applier ms owned_by s).1) ms
  unfolding apply_all
  apply_all-All doc ms s h = apply_loop-All ms s (no_errors _ ((doc.aggregate_none _).0 h))

module _ {S : Type 0} ⦃k : Library⦄ (R : Fields → S → Type 0) (a : SsaApplier S) where
  guard_failure-refuses :
      (status : ResourceStatus) (m : Manifest) (judged : Result Owner) (x : Applied)
      → guard_failure status m judged ≡ some x
      → x.error ≢ none
  unfolding guard_failure
  guard_failure-refuses status m (err e) x h gone = ground arith
  guard_failure-refuses status m (ok found) x h gone = ground arith

  guard-refuses :
      (status : ResourceStatus) (m : Manifest) (owned_by : String) (s : S) (x : Applied)
      → (guard a status m owned_by s).0 ≡ some x
      → x.error ≢ none
  unfolding guard foreign_owner
  guard-refuses status m owned_by s x =
      elim (Bool-cases (is_cluster_scoped (k.get_kind m.unstructured))) [
        | inl e ↦ rw (e, guard) (guard_failure-refuses status m _ x)
        | inr e ↦ rw (e, guard) λ h gone. ground arith
      ]

  module _ (reads : (u : Fields) → ReadsKeep (R u) a.client)
      (patched : (u : Fields) (s : S) (v : Fields)
        → (a.client.patch u a.field_manager s).0 ≡ ok v
        → R u (a.client.patch u a.field_manager s).1) where
    read_back-applied :
        (status : ResourceStatus) (m : Manifest) (r : Result Fields) (s : S)
        → ((v : Fields) → r ≡ ok v → R m.unstructured s)
        → (read_back a status m r s).0.error ≡ none
        → R m.unstructured (read_back a status m r s).1
    unfolding read_back
    read_back-applied status m (err e) s h done = cc
    read_back-applied status m (ok v) s h done =
        (get_live-Keeps (R m.unstructured) a (reads m.unstructured) v).at s (h v refl)

    unless_refused-applied :
        (status : ResourceStatus) (m : Manifest) (refused : Option Applied) (s : S)
        → ((x : Applied) → refused ≡ some x → x.error ≢ none)
        → (unless_refused a status m refused s).0.error ≡ none
        → R m.unstructured (unless_refused a status m refused s).1
    unfolding unless_refused patch_and_read
    unless_refused-applied status m (some x) s h done = absurd (h x refl done)
    unless_refused-applied status m none s h done =
        read_back-applied status m _ _ (patched m.unstructured s) done

    -- `Apply` has no error only if it has patched the object, as it is prepared: what a patch that
    -- succeeds brings about, and the reads keep.
    pub as_applier-Applies :
        (owned_by : String)
        → Applies (λ m. R (prepare m owned_by).unstructured) owned_by (as_applier a)
    unfolding as_applier ssa_apply
    as_applier-Applies owned_by m s done =
        let m' = prepare m owned_by in
        let status = initial_status m'.unstructured (a.client.now s).0 in
        unless_refused-applied status m' _ _ (guard-refuses status m' owned_by _) done
