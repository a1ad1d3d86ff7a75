-- ===== src/Deliver/Applier.antt =====
-- internal/deliver/applier.go: the `Applier` that the reconciler uses, and `SSAApplier`, which
-- implements it over a controller-runtime client. `S` is the world that the calls act on.
pub mod Prepared
pub mod Guard
pub mod Store
pub mod Identified
use dual_deployment_operator.Base.{
  ℕ, String, Bool, true, false, Option, none, some, [], ◌∷◌, ◌==◌, if◌then◌else◌, Error, Result, ok,
  err, plain, concat, M, pure, ◌>>=◌, is_not_found, not, ◌&&◌,
}
use dual_deployment_operator.Json.{Fields, get_text}
use dual_deployment_operator.Library.{Library, GroupVersionKind, entries}
use dual_deployment_operator.Api.{ResourceStatus, HealthState, healthy, degraded, unknown}
use dual_deployment_operator.Manifest.{
  Manifest, is_cluster_scoped, owned_by_label, strip_internal_annotations, set_owned_by_label,
}
use dual_deployment_operator.Deliver.CaBundle.{prepare_for_apply}
use dual_deployment_operator.Deliver.Health.{compute_health}

-- What a call of `Apply` returns, with the manifest that it has changed in place.
pub record Applied : Type 0 where
  pub status : ResourceStatus
  pub error : Option Error
  pub manifest : Manifest

pub record Applier (S : Type 0) : Type 0 where
  pub apply : Manifest → String → M S Applied
  pub delete : Manifest → String → M S (Option Error)
  pub get : Manifest → M S (Result Fields)

-- The calls of a controller-runtime client for unstructured objects. `get` names an object by kind,
-- namespace and name; `patch` is a forced server-side apply under a field manager, and gives back
-- the object that the server returns.
pub record Client (S : Type 0) : Type 0 where
  pub get : GroupVersionKind → String → String → M S (Result Fields)
  pub patch : Fields → String → M S (Result Fields)
  pub delete : Fields → M S (Option Error)
  pub now : M S ℕ

-- SSAApplier
pub record SsaApplier (S : Type 0) : Type 0 where
  pub client : Client S
  pub field_manager : String
  pub cluster : String

-- What `foreignOwner` returns.
pub record Owner : Type 0 where
  pub owner : String
  pub conflict : Bool

module _ ⦃k : Library⦄ where
  open k use {get_kind, get_api_version, get_namespace, get_name, get_labels, quote}

  abbrev pub owner_of : Fields → String
  owner_of live = get_text owned_by_label (entries (get_labels live))

  -- The object read, judged: its owner, and whether that is another one than `owned_by`.
  unfoldable pub judge_owner : String → Result Fields → Result Owner
  judge_owner owned_by (err e) =
      if is_not_found e then ok (record { owner = ""; conflict = false }) else err e
  judge_owner owned_by (ok live) =
      let owner = owner_of live in
      ok (record { owner = owner; conflict = not (owner == "") && not (owner == owned_by) })

  -- What `Apply` does to the manifest before any call.
  unfoldable pub prepare : Manifest → String → Manifest
  prepare m owned_by =
      let m' = set_owned_by_label (strip_internal_annotations m) owned_by in
      record m' { unstructured = prepare_for_apply m'.unstructured }

  -- Each path sets the health before it returns the status.
  unfoldable pub initial_status : Fields → ℕ → ResourceStatus
  initial_status u now = record {
    kind = get_kind u;
    api_version = get_api_version u;
    namespace = get_namespace u;
    name = get_name u;
    health = healthy;
    last_applied = some now;
    message = "";
  }

  abbrev failed : ResourceStatus → String → Error → Manifest → Applied
  failed status message e m = record {
    status = record status { health = degraded; message = message };
    error = some e;
    manifest = m;
  }

  -- The guard of the cluster-scoped kinds: the failure that it ends `Apply` with, if any.
  unfoldable pub guard_failure : ResourceStatus → Manifest → Result Owner → Option Applied
  guard_failure status m (err e) =
      let u = m.unstructured in
      some (
        failed status
          (concat (
            "cluster-scoped conflict pre-check failed for "
            ∷ get_kind u
            ∷ " "
            ∷ quote (get_name u)
            ∷ ": "
            ∷ e.message
            ∷ []))
          e m)
  guard_failure status m (ok found) =
      let u = m.unstructured in
      let message = concat (
        "cluster-scoped "
        ∷ get_kind u
        ∷ " "
        ∷ quote (get_name u)
        ∷ " already owned by CR "
        ∷ quote found.owner
        ∷ "; refusing to overwrite (single-install-per-seed)"
        ∷ []) in
      if found.conflict then some (failed status message (plain message) m) else none

  -- The read-back after a successful apply.
  unfoldable pub graded : ResourceStatus → Manifest → Result Fields → Applied
  graded status m (ok live) = record {
    status = record status { health = compute_health (some live) };
    error = none;
    manifest = m;
  }
  graded status m (err e) = record {
    status = record status {
      health = unknown;
      message = concat ("apply succeeded but read-back GET failed: " ∷ e.message ∷ []);
    };
    error = none;
    manifest = m;
  }

  -- An object that is gone by the time of the call counts as deleted.
  abbrev pub unless_not_found : Option Error → Option Error
  unless_not_found none = none
  unless_not_found (some e) = if is_not_found e then none else some e

module _ {S : Type 0} ⦃k : Library⦄ where
  open k use {get_kind, get_namespace, get_name, group_version_kind}

  unfoldable pub get_live : SsaApplier S → Fields → M S (Result Fields)
  get_live a u = a.client.get (group_version_kind u) (get_namespace u) (get_name u)

  unfoldable pub foreign_owner : SsaApplier S → Fields → String → M S (Result Owner)
  unfolding get_live judge_owner
  foreign_owner a u owned_by = do live ← get_live a u; pure (judge_owner owned_by live)

  unfoldable pub guard : SsaApplier S → ResourceStatus → Manifest → String → M S (Option Applied)
  unfolding foreign_owner guard_failure
  guard a status m owned_by =
      if is_cluster_scoped (get_kind m.unstructured)
      then (do found ← foreign_owner a m.unstructured owned_by; pure (guard_failure status m found))
      else pure none

  unfoldable pub read_back : SsaApplier S → ResourceStatus → Manifest → Result Fields → M S Applied
  unfolding get_live graded
  read_back a status m (err e) = pure (failed status e.message e m)
  read_back a status m (ok u) = do
    live ← get_live a u
    pure (graded status (record m { unstructured = u }) live)

  unfoldable pub patch_and_read : SsaApplier S → ResourceStatus → Manifest → M S Applied
  unfolding read_back
  patch_and_read a status m = do
    patched ← a.client.patch m.unstructured a.field_manager
    read_back a status m patched

  unfoldable pub unless_refused :
      SsaApplier S → ResourceStatus → Manifest → Option Applied → M S Applied
  unfolding patch_and_read
  unless_refused a status m (some refused) = pure refused
  unless_refused a status m none = patch_and_read a status m

  unfoldable pub ssa_apply : SsaApplier S → Manifest → String → M S Applied
  unfolding prepare initial_status guard unless_refused
  ssa_apply a m owned_by = do
    let m' = prepare m owned_by
    now ← a.client.now
    let status = initial_status m'.unstructured now
    refused ← guard a status m' owned_by
    unless_refused a status m' refused

  unfoldable pub ssa_get : SsaApplier S → Manifest → M S (Result Fields)
  unfolding get_live
  ssa_get a m = get_live a m.unstructured

  unfoldable pub delete_owned : SsaApplier S → Manifest → M S (Option Error)
  delete_owned a m = do failure ← a.client.delete m.unstructured; pure (unless_not_found failure)

  -- The object read before a deletion: gone, not readable, another's, or ours.
  unfoldable pub delete_live : SsaApplier S → Manifest → String → Result Fields → M S (Option Error)
  unfolding delete_owned
  delete_live a m owned_by (err e) = pure (if is_not_found e then none else some e)
  delete_live a m owned_by (ok live) =
      if owner_of live == owned_by then delete_owned a m else pure none

  unfoldable pub ssa_delete : SsaApplier S → Manifest → String → M S (Option Error)
  unfolding ssa_get delete_live
  ssa_delete a m owned_by = do live ← ssa_get a m; delete_live a m owned_by live

  -- SSAApplier implements Applier.
  unfoldable pub as_applier : SsaApplier S → Applier S
  unfolding ssa_apply ssa_delete ssa_get
  as_applier a = record { apply = ssa_apply a; delete = ssa_delete a; get = ssa_get a }
