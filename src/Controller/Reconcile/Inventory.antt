-- ===== src/Controller/Reconcile/Inventory.antt =====
-- The inventories that a delivery writes.
use dual_deployment_operator.Base.{
  ◌≡◌, refl, inl, inr, ◌⊎◌, true, subst, String, List, [], ◌∷◌, ◌++◌, Bool-cases, ok, map,
}
use dual_deployment_operator.Library.{Library}
use dual_deployment_operator.Api.{ResourceStatus, DualDeploymentOperator}
use dual_deployment_operator.Manifest.{Manifest}
use dual_deployment_operator.Deliver.Order.{status_identity_key}
use dual_deployment_operator.Deliver.Applier.{Applier}
use dual_deployment_operator.Deliver.Applier.Identified.{Identifies}
use dual_deployment_operator.Controller.Reconciler.{Reconciler, Outcome}
use dual_deployment_operator.Controller.Conditions.{any_failed}
use dual_deployment_operator.Controller.Delivery.{apply_all, apply_loop, add_error}
use dual_deployment_operator.Controller.Prune.{prune}
use dual_deployment_operator.Controller.Prune.Settled.{keys_of, apply_loop-keys}
use dual_deployment_operator.Controller.Prune.Accounted.{AreSettled, prune-AreSettled}
use dual_deployment_operator.Controller.Reconcile.Written.{
  Wrote, write_status-Wrote, defer_seed-Wrote,
}
use dual_deployment_operator.Controller.Reconcile.{
  is_shoot_first, prune_applied, continue_with_seed, deliver_shoot_first, deliver_seed_first,
  deliver_with,
}

module _ {S : Type 0} ⦃k : Library⦄ (applier : Applier S) (owned_by : String) where
  -- One entry for each manifest of the render, in its order, and then entries of the inventory before,
  -- each entry of which is settled.
  pub record IsInventory (cr : DualDeploymentOperator) (prev : List ResourceStatus)
      (ms : List Manifest) (statuses : List ResourceStatus) : Type 0 where
    pub applied : List ResourceStatus
    pub retained : List ResourceStatus
    pub parts : statuses ≡ applied ++ retained
    pub one_each : map status_identity_key applied ≡ keys_of owned_by ms
    pub settled : AreSettled applier (keys_of owned_by ms) cr owned_by retained prev

  prune_applied-IsInventory :
      (cr : DualDeploymentOperator) (prev : List ResourceStatus) (ms : List Manifest) (s s' : S)
      → Identifies applier owned_by ms
      → IsInventory cr prev ms
          (prune_applied applier cr owned_by prev (apply_all applier ms owned_by s).0 s').0.statuses
  unfolding prune_applied apply_all
  prune_applied-IsInventory cr prev ms s s' h =
      let d = (apply_loop applier ms owned_by s).0 in
      let same = apply_loop-keys applier owned_by ms s h in
      record {
        applied = d.statuses;
        retained = (prune applier prev d.manifests cr owned_by s').0.retained;
        parts = refl;
        one_each = same.0;
        settled =
            subst
              (λ keys.
                AreSettled applier keys cr owned_by
                  (prune applier prev d.manifests cr owned_by s').0.retained prev)
              same.1 (prune-AreSettled applier prev d.manifests cr owned_by s');
      }

module _ {S : Type 0} ⦃k : Library⦄ (r : Reconciler S) (a : Applier S) (cr : DualDeploymentOperator)
    (owned_by : String) (seed shoot : List Manifest) where
  -- The last call writes a status with an inventory for the shoot's render, and one for the seed's,
  -- unless the seed waits for the shoot: then its inventory is as it was.
  pub record IsRecorded (x : Outcome × S) : Type 0 where
    pub seed_inventory : List ResourceStatus
    pub shoot_inventory : List ResourceStatus
    pub wrote : Wrote r seed_inventory shoot_inventory x
    pub of_shoot : IsInventory a owned_by cr cr.status.shoot_resources shoot shoot_inventory
    pub of_seed :
        IsInventory r.seed_applier owned_by cr cr.status.seed_resources seed seed_inventory
        ⊎ ((is_shoot_first cr ≡ true) × (seed_inventory ≡ cr.status.seed_resources))

  -- After a shoot render that was applied.
  continue_with_seed-IsRecorded :
      (s s' : S)
      → is_shoot_first cr ≡ true
      → Identifies r.seed_applier owned_by seed
      → Identifies a owned_by shoot
      → IsRecorded (continue_with_seed r a cr owned_by seed (apply_all a shoot owned_by s).0 s')
  unfolding continue_with_seed
  continue_with_seed-IsRecorded s s' first of_seed of_shoot =
      let applied = (apply_all a shoot owned_by s).0 in
      let (b, s1) = apply_all r.seed_applier seed owned_by s' in
      let (ds, s2) = prune_applied r.seed_applier cr owned_by cr.status.seed_resources b s1 in
      let (dt, s3) = prune_applied a cr owned_by cr.status.shoot_resources applied s2 in
      elim (Bool-cases (any_failed applied.statuses)) [
        | inl e ↦
            rw (e, continue_with_seed)
              (record {
                seed_inventory = cr.status.seed_resources;
                shoot_inventory =
                    (prune_applied a cr owned_by cr.status.shoot_resources applied s').0.statuses;
                wrote = defer_seed-Wrote r a cr owned_by applied s';
                of_shoot = prune_applied-IsInventory a owned_by cr _ shoot s s' of_shoot;
                of_seed = inr (first, refl);
              })
        | inr e ↦
            rw (e, continue_with_seed)
              (record {
                seed_inventory = ds.statuses;
                shoot_inventory = dt.statuses;
                wrote =
                    write_status-Wrote r cr ds.statuses dt.statuses
                      (add_error applied.error (add_error b.error []))
                      (ds.prune_error ∷ dt.prune_error ∷ []) s3;
                of_shoot = prune_applied-IsInventory a owned_by cr _ shoot s s2 of_shoot;
                of_seed =
                    inl (prune_applied-IsInventory r.seed_applier owned_by cr _ seed s' s1 of_seed);
              })
      ]

  deliver_seed_first-IsRecorded :
      (s : S)
      → Identifies r.seed_applier owned_by seed
      → Identifies a owned_by shoot
      → IsRecorded (deliver_seed_first r a cr owned_by seed shoot s)
  unfolding deliver_seed_first
  deliver_seed_first-IsRecorded s of_seed of_shoot =
      let (b, s1) = apply_all r.seed_applier seed owned_by s in
      let (applied, s2) = apply_all a shoot owned_by s1 in
      let (dt, s3) = prune_applied a cr owned_by cr.status.shoot_resources applied s2 in
      let (ds, s4) = prune_applied r.seed_applier cr owned_by cr.status.seed_resources b s3 in
      record {
        seed_inventory = ds.statuses;
        shoot_inventory = dt.statuses;
        wrote =
            write_status-Wrote r cr ds.statuses dt.statuses
              (add_error b.error (add_error applied.error []))
              (dt.prune_error ∷ ds.prune_error ∷ []) s4;
        of_shoot = prune_applied-IsInventory a owned_by cr _ shoot s1 s2 of_shoot;
        of_seed = inl (prune_applied-IsInventory r.seed_applier owned_by cr _ seed s s3 of_seed);
      }

  -- A delivery to both clusters, if its appliers record each manifest under the identity that it is
  -- applied with, ends with a status write, whatever fails. The inventory of the shoot has one entry
  -- for each manifest of its render, and so has that of the seed, unless under ShootFirst the seed
  -- was deferred: then it is as it was. No resource is lost: an entry of an inventory before is still
  -- rendered, or is a protected CRD, or is retained, or the cluster has answered that it does not
  -- exist, that its owner is another one, or that it is deleted.
  pub deliver_with-IsRecorded :
      (s : S)
      → Identifies r.seed_applier owned_by seed
      → Identifies a owned_by shoot
      → IsRecorded (deliver_with r cr owned_by seed shoot (ok a) s)
  unfolding deliver_with deliver_shoot_first
  deliver_with-IsRecorded s of_seed of_shoot = elim (Bool-cases (is_shoot_first cr)) [
    | inl first ↦
        rw (first, deliver_with)
          (continue_with_seed-IsRecorded s (apply_all a shoot owned_by s).1 first of_seed of_shoot)
    | inr e ↦ rw (e, deliver_with) (deliver_seed_first-IsRecorded s of_seed of_shoot)
  ]
