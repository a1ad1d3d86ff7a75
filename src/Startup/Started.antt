-- ===== src/Startup/Started.antt =====
-- When the manager is started.
use dual_deployment_operator.Base.{
  ◌≡◌, refl, inl, inr, ◌⊎◌, String, Option, none, some, Error, Result, ok, err, Keeps, M, ◌>>=◌,
  ◌==◌, ◌≢◌, Bool-cases, eq_iff, arith,
}
use dual_deployment_operator.Library.{Library}
use dual_deployment_operator.Source.Select.{Calls}
use dual_deployment_operator.Webhook.{Validator, setup_webhook_with_manager, custom_validator}
use dual_deployment_operator.Startup.Options.{Flags, ManagerOptions, manager_options}
use dual_deployment_operator.Startup.{
  Exit, Manager, Host, setup_with_manager, or_exit, reconciler_of, add_checks, setup_webhook,
  with_manager, with_config, main,
}

module _ {S : Type 0} where
  -- A step of the set-up that has failed ends the process there.
  or_exit-kept :
      (P : S → Type 0) (Q : Type 0) (failure : Option Error) (rest : M S Exit) (s : S)
      → P s
      → (failure ≡ none → P (rest s).1 ⊎ Q)
      → P (or_exit failure rest s).1 ⊎ Q
  unfolding or_exit
  or_exit-kept P Q none rest s p h = h refl
  or_exit-kept P Q (some e) rest s p h = inl p

module _ {S Config H Client File Chart Url Repo Remote Worktree Tree : Type 0} ⦃k : Library⦄
    (host : Host S Config) (calls : Calls S H Client File Chart Url Repo Remote Worktree Tree)
    (flags : Flags) where
  abbrev pub options : ManagerOptions
  options = manager_options flags (host.getenv "POD_NAMESPACE")

  abbrev pub controller_set_up : Manager S → M S (Option Error)
  controller_set_up mgr =
      mgr.complete_controller "dualdeploymentoperator" (reconciler_of host calls flags mgr)

  -- The webhook is registered without an error, or the environment has switched it off.
  pub data IsGuarded (mgr : Manager S) (s : S) : S → Type 0 where
    registered :
        host.getenv "ENABLE_WEBHOOKS" ≢ "false"
        → (mgr.complete_webhook custom_validator s).0 ≡ none
        → IsGuarded mgr s (mgr.complete_webhook custom_validator s).1
    switched_off : host.getenv "ENABLE_WEBHOOKS" ≡ "false" → IsGuarded mgr s s

  -- The steps that set up a manager have all succeeded, one after the other; `guarded_at` is the world
  -- after the webhook's.
  pub record IsPrepared (mgr : Manager S) (s : S) : Type 0 where
    pub guarded_at : S
    pub controlled : (controller_set_up mgr s).0 ≡ none
    pub guarded : IsGuarded mgr (controller_set_up mgr s).1 guarded_at
    pub healthy : (mgr.add_healthz_check "healthz" guarded_at).0 ≡ none
    pub ready :
        (mgr.add_readyz_check "readyz" (mgr.add_healthz_check "healthz" guarded_at).1).0 ≡ none

  -- There is a configuration and a manager, and that is set up.
  pub record IsSetUp (s : S) : Type 0 where
    pub config : Config
    pub configured : (host.get_config s).0 ≡ ok config
    pub mgr : Manager S
    pub managed : (host.new_manager config options (host.get_config s).1).0 ≡ ok mgr
    pub prepared : IsPrepared mgr (host.new_manager config options (host.get_config s).1).1

  -- The calls that set up this manager keep `P`.
  pub record ManagerKeeps (P : S → Type 0) (mgr : Manager S) : Type 0 where
    pub controller : Keeps P (controller_set_up mgr)
    pub webhook : (v : Validator S) → Keeps P (mgr.complete_webhook v)
    pub healthz : (name : String) → Keeps P (mgr.add_healthz_check name)
    pub readyz : (name : String) → Keeps P (mgr.add_readyz_check name)

  -- The calls of the set-up keep `P`: all but the start of a manager.
  pub record SetUpKeeps (P : S → Type 0) : Type 0 where
    pub config : Keeps P host.get_config
    pub manager : (config : Config) → Keeps P (host.new_manager config options)
    pub made :
        (config : Config) (s : S) (mgr : Manager S)
        → (host.new_manager config options s).0 ≡ ok mgr
        → ManagerKeeps P mgr

  module _ (P : S → Type 0) (keeps : SetUpKeeps P) where
    -- What follows the webhook, in a world that keeps `P`.
    checked-kept :
        (mgr : Manager S) (s s' : S)
        → ManagerKeeps P mgr
        → (controller_set_up mgr s).0 ≡ none
        → IsGuarded mgr (controller_set_up mgr s).1 s'
        → P s'
        → P (add_checks host calls flags mgr s').1 ⊎ IsPrepared mgr s
    unfolding add_checks
    checked-kept mgr s s' calls_keep controlled guarded p =
        let p3 = (calls_keep.healthz "healthz").at _ p in
        let p4 = (calls_keep.readyz "readyz").at _ p3 in
        or_exit-kept P _ _ _ _ p3 λ healthy. or_exit-kept P _ _ _ _ p4 λ ready. inr (record {
          guarded_at = s';
          controlled = controlled;
          guarded = guarded;
          healthy = healthy;
          ready = ready;
        })

    -- What follows the controller.
    webhook-kept :
        (mgr : Manager S) (s : S)
        → ManagerKeeps P mgr
        → (controller_set_up mgr s).0 ≡ none
        → P (controller_set_up mgr s).1
        → P
            ((setup_webhook host calls flags mgr >>= λ unguarded.
                or_exit unguarded (add_checks host calls flags mgr))
              (controller_set_up mgr s).1).1
          ⊎ IsPrepared mgr s
    unfolding setup_webhook setup_webhook_with_manager or_exit
    webhook-kept mgr s calls_keep controlled p =
        elim (Bool-cases (host.getenv "ENABLE_WEBHOOKS" == "false")) [
          | inl e ↦
              rw (e, setup_webhook)
                (checked-kept mgr s _ calls_keep controlled
                  (switched_off ((eq_iff (host.getenv "ENABLE_WEBHOOKS") "false").0 e)) p)
          | inr e ↦
              rw (e, setup_webhook)
                (or_exit-kept P _ _ _ _ ((calls_keep.webhook custom_validator).at _ p) λ done.
                  checked-kept mgr s _ calls_keep controlled
                    (registered (ground (arith, e, eq_iff (host.getenv "ENABLE_WEBHOOKS") "false"))
                      done)
                    ((calls_keep.webhook custom_validator).at _ p))
        ]

    with_manager-kept :
        (mgr : Manager S) (s : S)
        → ManagerKeeps P mgr
        → P s
        → P (with_manager host calls flags (ok mgr) s).1 ⊎ IsPrepared mgr s
    unfolding with_manager setup_with_manager
    with_manager-kept mgr s calls_keep p =
        let p1 = calls_keep.controller.at s p in
        or_exit-kept P _ _ _ _ p1 λ controlled. webhook-kept mgr s calls_keep controlled p1

    made-kept :
        (config : Config) (s : S) (made : Result (Manager S))
        → (host.get_config s).0 ≡ ok config
        → (host.new_manager config options (host.get_config s).1).0 ≡ made
        → P (host.new_manager config options (host.get_config s).1).1
        → P
            (with_manager host calls flags made
              (host.new_manager config options (host.get_config s).1).1).1
          ⊎ IsSetUp s
    unfolding with_manager
    made-kept config s (err e) configured managed p = inl p
    made-kept config s (ok mgr) configured managed p =
        elim (with_manager-kept mgr _ (keeps.made config _ mgr managed) p) [
          | inl p' ↦ inl p'
          | inr prepared ↦ inr (record {
            config = config;
            configured = configured;
            mgr = mgr;
            managed = managed;
            prepared = prepared;
          })
        ]

    configured-kept :
        (s : S) (config : Result Config)
        → (host.get_config s).0 ≡ config
        → P (host.get_config s).1
        → P (with_config host calls flags config (host.get_config s).1).1 ⊎ IsSetUp s
    unfolding with_config
    configured-kept s (err e) configured p = inl p
    configured-kept s (ok config) configured p =
        made-kept config s _ configured refl ((keeps.manager config).at _ p)

    -- The manager is not started unless there is a configuration, the manager is made, and then its
    -- controller is set up, with the reconciler that main makes, its webhook is registered, unless
    -- the environment says "false" of webhooks, and both checks are added, in this order and without
    -- an error: otherwise main keeps whatever the other calls keep.
    pub main-kept : (s : S) → P s → P (main host calls flags s).1 ⊎ IsSetUp s
    unfolding main
    main-kept s p = configured-kept s _ refl (keeps.config.at s p)
