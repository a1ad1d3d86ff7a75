-- ===== src/Controller/Runs/Foreign.antt =====
-- What runs of the operator do to an object of another owner.
use dual_deployment_operator.Base.{
  ◌≡◌, ◌≢◌, refl, ap, sym, ◌∙◌, subst, String, Option, none, Result, ok, err, Result-cases, inl,
  inr, M, Keeps, Keeps-bind, Keeps-pure, arith, List,
}
use dual_deployment_operator.Json.{Fields, StringMap}
use dual_deployment_operator.Library.{Library}
use dual_deployment_operator.Api.{DualDeploymentOperator, SourceSpec, ShootAccessRef}
use dual_deployment_operator.Manifest.{Manifest, owned_by_value}
use dual_deployment_operator.Clients.{RestConfig}
use dual_deployment_operator.Deliver.Applier.{Applier, Client, SsaApplier, as_applier, owner_of}
use dual_deployment_operator.Deliver.Applier.Guard.{ApplierKeeps}
use dual_deployment_operator.Deliver.Applier.Store.{
  Stores, Holds, IsClusterScoped, applier-Holds, applier_delete-Holds,
}
use dual_deployment_operator.Controller.Reconciler.{
  Reconciler, Source, Mode, mode_seed, mode_shoot, event, shoot_applier, applier_of_config,
  applier_of_secret, build_shoot_applier, build_shoot_applier_or_default,
}
use dual_deployment_operator.Controller.Render.{with_seed_render, with_source, render_both}
use dual_deployment_operator.Controller.Deletion.Finalizer.{OthersKeep}
use dual_deployment_operator.Controller.Reconcile.Calls.{CallsKeep}

-- The call leaves the object `key` as it is.
abbrev pub Leaves : {S A : Type 0} → (S → String → Option Fields) → String → M S A → Type 0
Leaves {S} find key m = (s : S) → find (m s).1 key ≡ find s key

-- A reconciler as it is deployed: the seed applier works on a client of the seed, and the appliers of
-- the shoots are built from their Secrets. All its clients are views of one store. The other calls
-- leave the object `key` as it is, and the custom resource that is read is the one that was asked for.
pub record IsDeployed {S : Type 0} ⦃k : Library⦄ (find : S → String → Option Fields) (key : String)
    (r : Reconciler S) : Type 0 where
  pub seed : SsaApplier S
  pub is_seed : r.seed_applier ≡ as_applier seed
  pub from_secret : r.shoot_applier_for ≡ none
  pub seed_stores : Stores find seed.client
  pub shoot_stores :
      (config : RestConfig) (s : S) (c : Client S)
      → (r.new_client config s).0 ≡ ok c
      → Stores find c
  pub asked :
      (namespace name : String) (s : S) (cr : DualDeploymentOperator)
      → (r.get_cr namespace name s).0 ≡ ok cr
      → owned_by_value cr.namespace cr.name ≡ owned_by_value namespace name
  pub get_cr : (namespace name : String) → Leaves find key (r.get_cr namespace name)
  pub get_secret : (namespace name : String) → Leaves find key (r.get_secret namespace name)
  pub update : (cr : DualDeploymentOperator) → Leaves find key (r.update cr)
  pub update_status : (cr : DualDeploymentOperator) → Leaves find key (r.update_status cr)
  pub new_client : (config : RestConfig) → Leaves find key (r.new_client config)
  pub recorded : (reason note : String) → Leaves find key (event r reason note)
  pub render :
      (spec : SourceSpec) (cr_namespace : String) (src : Source S)
      → r.source_from spec cr_namespace ≡ ok src
      → (mode : Mode) (namespace : String) → Leaves find key (src.render mode namespace)
  pub now : Leaves find key r.now

-- The object `key` has one of the cluster-scoped kinds, on whichever cluster a manifest names it.
pub record IsScoped {S : Type 0} ⦃k : Library⦄ (find : S → String → Option Fields) (key : String)
    (r : Reconciler S) (deployed : IsDeployed find key r) : Type 0 where
  pub seed : IsClusterScoped find deployed.seed_stores key
  pub shoot :
      (config : RestConfig) (s : S) (c : Client S) (made : (r.new_client config s).0 ≡ ok c)
      → IsClusterScoped find (deployed.shoot_stores config s c made) key

module _ {S : Type 0} ⦃k : Library⦄ (find : S → String → Option Fields) (key : String)
    (r : Reconciler S) (deployed : IsDeployed find key r) (live : Fields) where
  kept : {A : Type 0} (m : M S A) → Leaves find key m → Keeps (Holds find key live) m
  kept m leaves = record { at = λ s p. leaves s ∙ p }

  render_both-Holds : (cr : DualDeploymentOperator) → Keeps (Holds find key live) (render_both r cr)
  unfolding render_both with_source with_seed_render
  render_both-Holds cr = from (r.source_from cr.spec.source cr.namespace) refl
    where
      second :
          (src : Source S) (seed : Result (List Manifest))
          → ((mode : Mode) (ns : String) → Leaves find key (src.render mode ns))
          → Keeps (Holds find key live) (with_seed_render src cr seed)
      second src (err e) leaves = record { at = λ s p. p }
      second src (ok seed) leaves = record {
        at = λ s p. leaves mode_shoot cr.spec.shoot_namespace s ∙ p;
      }

      from :
          (source : Result (Source S))
          → r.source_from cr.spec.source cr.namespace ≡ source
          → Keeps (Holds find key live) (with_source cr source)
      from (err e) same = record { at = λ s p. p }
      from (ok src) same = record {
        at = λ s p.
            let leaves = deployed.render cr.spec.source cr.namespace src same in
            (second src _ leaves).at _ (leaves mode_seed cr.namespace s ∙ p);
      }

  -- The applier over a client that was made.
  abbrev IsOfShoot : Applier S → Type 0
  IsOfShoot a =
      (config : RestConfig) × (s : S) × (c : Client S) × ((r.new_client config s).0 ≡ ok c)
      × (a ≡ shoot_applier c)

  of_config-Holds :
      (config : Result RestConfig) → Keeps (Holds find key live) (applier_of_config r config)
  unfolding applier_of_config
  of_config-Holds (err e) = Keeps-pure _
  of_config-Holds (ok config) = record { at = λ s p. deployed.new_client config s ∙ p }

  of_secret-Holds :
      (ref : ShootAccessRef) (secret : Result StringMap)
      → Keeps (Holds find key live) (applier_of_secret r ref secret)
  unfolding applier_of_secret
  of_secret-Holds ref (err e) = Keeps-pure _
  of_secret-Holds ref (ok secret) = record { at = (of_config-Holds _).at }

  build-Holds :
      (cr : DualDeploymentOperator)
      → Keeps (Holds find key live) (build_shoot_applier_or_default r cr)
  unfolding build_shoot_applier_or_default build_shoot_applier
  build-Holds cr =
      rw (deployed.from_secret, build_shoot_applier_or_default)
        (Keeps-bind _ _ (kept _ (deployed.get_secret cr.namespace _))
          λ secret. of_secret-Holds cr.spec.shoot_access secret)

  of_config-IsOfShoot :
      (config : Result RestConfig) (s : S) (a : Applier S)
      → (applier_of_config r config s).0 ≡ ok a
      → IsOfShoot a
  unfolding applier_of_config
  of_config-IsOfShoot (err e) s a h = absurd (ground (arith, h))
  of_config-IsOfShoot (ok config) s a h = elim (Result-cases (r.new_client config s).0) [
    | inl (e, failed) ↦ absurd (ground (arith, h, failed))
    | inr (c, made) ↦ (config, s, c, made, ground (arith, h, made))
  ]

  of_secret-IsOfShoot :
      (ref : ShootAccessRef) (secret : Result StringMap) (s : S) (a : Applier S)
      → (applier_of_secret r ref secret s).0 ≡ ok a
      → IsOfShoot a
  unfolding applier_of_secret
  of_secret-IsOfShoot ref (err e) s a h = cc
  of_secret-IsOfShoot ref (ok secret) s a h = of_config-IsOfShoot _ s a h

  build-IsOfShoot :
      (cr : DualDeploymentOperator) (s : S) (a : Applier S)
      → (build_shoot_applier_or_default r cr s).0 ≡ ok a
      → IsOfShoot a
  unfolding build_shoot_applier_or_default build_shoot_applier
  build-IsOfShoot cr s a h =
      let from_secret : build_shoot_applier_or_default r cr ≡ build_shoot_applier r cr =
        rw deployed.from_secret refl in
      of_secret-IsOfShoot cr.spec.shoot_access
        (r.get_secret cr.namespace cr.spec.shoot_access.secret_name s).0
        (r.get_secret cr.namespace cr.spec.shoot_access.secret_name s).1 a
        (ap (λ m. (m s).0) (sym from_secret) ∙ h)

  pub others-Holds :
      (owned_by : String) → owner_of live ≢ owned_by → OthersKeep (Holds find key live) r owned_by
  others-Holds owned_by foreign = record {
    status = λ cr. kept _ (deployed.update_status cr);
    event = λ reason note. kept _ (deployed.recorded reason note);
    build = build-Holds;
    seed =
        subst (λ a. (m : Manifest) → Keeps (Holds find key live) (a.delete m owned_by))
          (sym deployed.is_seed)
          (applier_delete-Holds find deployed.seed deployed.seed_stores key owned_by live foreign);
    shoot = λ cr s a built.
        let (config, s', c, made, same) = build-IsOfShoot cr s a built in
        subst (λ a'. (m : Manifest) → Keeps (Holds find key live) (a'.delete m owned_by)) (sym same)
          (applier_delete-Holds find _ (deployed.shoot_stores config s' c made) key owned_by live
            foreign);
  }

  pub calls-Holds :
      (owned_by : String)
      → owner_of live ≢ owned_by
      → owner_of live ≢ ""
      → IsScoped find key r deployed
      → CallsKeep (Holds find key live) r owned_by
  calls-Holds owned_by foreign claimed scoped = record {
    update = λ cr. kept _ (deployed.update cr);
    status = λ cr. kept _ (deployed.update_status cr);
    now = kept _ deployed.now;
    event = λ reason note. kept _ (deployed.recorded reason note);
    build = build-Holds;
    render = render_both-Holds;
    seed = subst (ApplierKeeps _ owned_by) (sym deployed.is_seed) (
        applier-Holds find deployed.seed deployed.seed_stores key owned_by live foreign claimed
          scoped.seed);
    shoot = λ cr s a built.
        let (config, s', c, made, same) = build-IsOfShoot cr s a built in
        subst (ApplierKeeps _ owned_by) (sym same) (
          applier-Holds find _ (deployed.shoot_stores config s' c made) key owned_by live foreign
            claimed (scoped.shoot config s' c made));
  }
