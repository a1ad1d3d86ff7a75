-- ===== src/Tests/Starting.antt =====
-- The theorems on the start of the process, at concrete inputs: a host whose second check fails, and
-- one on which all goes well. The world is a list of the calls.
use dual_deployment_operator.Base.{
  ◌≡◌, ◌⊎◌, refl, subst, arith, String, false, Option, none, some, [], ◌∷◌, ◌==◌, if◌then◌else◌, M,
  Error, ok, err, plain, one_of,
}
use dual_deployment_operator.Startup.Options.{default_flags}
use dual_deployment_operator.Startup.{Host, Manager, ApiClient, main}
use dual_deployment_operator.Startup.Started.{IsSetUp, SetUpKeeps, ManagerKeeps, main-kept}
use dual_deployment_operator.Tests.Machinery.{demo}
use dual_deployment_operator.Tests.Fetching.{Log, calls}

abbrev no_object : Error
no_object = plain "no object"

abbrev said : {A : Type 0} → String → A → M Log A
said call a log = (a, call ∷ log)

abbrev client : ApiClient Log
client = record {
  get_cr = λ ns name. said "get" (err no_object);
  get_secret = λ ns name. said "get" (err no_object);
  update = λ cr. said "update" none;
  update_status = λ cr. said "status" none;
  objects = record {
    get = λ gvk ns name. said "get" (err no_object);
    patch = λ u manager. said "patch" (ok u);
    delete = λ u. said "delete" none;
    now = said "now" 7;
  };
}

abbrev manager : Option Error → Manager Log
manager ready = record {
  client = client;
  event_recorder = λ name reason note. said "event" tt;
  complete_controller = λ name r. said "controller" none;
  complete_webhook = λ v. said "webhook" none;
  add_healthz_check = λ name. said "healthz" none;
  add_readyz_check = λ name. said "readyz" ready;
  start = said "start" none;
}

abbrev host : Option Error → Host Log String
host ready = record {
  getenv = λ name. if name == "POD_NAMESPACE" then "operators" else "";
  get_config = said "config" (ok "in-cluster");
  new_manager = λ config o. said "manager" (ok (manager ready));
  new_client = λ config. said "client" (err no_object);
  new_lru = λ size. err no_object;
  now = said "now" 7;
}

abbrev failing : Host Log String
failing = host (some (plain "no check"))

-- The manager was not started.
abbrev NotStarted : Log → Type 0
NotStarted log = one_of log "start" ≡ false

same_manager :
    (mgr : Manager Log)
    → ok (manager (some (plain "no check"))) ≡ ok mgr
    → manager (some (plain "no check")) ≡ mgr
same_manager mgr h = ground (arith, h)

keeps : SetUpKeeps ⦃k = demo⦄ failing calls default_flags NotStarted
keeps = record {
  config = record { at = λ s p. p };
  manager = λ config. record { at = λ s p. p };
  made = λ config s mgr h.
      subst (ManagerKeeps ⦃k = demo⦄ failing calls default_flags NotStarted) (same_manager mgr h)
        (record {
          controller = record { at = λ s' p. p };
          webhook = λ v. record { at = λ s' p. p };
          healthz = λ name. record { at = λ s' p. p };
          readyz = λ name. record { at = λ s' p. p };
        });
}

main-kept_example :
    NotStarted (main ⦃k = demo⦄ failing calls default_flags []).1
    ⊎ IsSetUp ⦃k = demo⦄ failing calls default_flags []
main-kept_example = main-kept ⦃k = demo⦄ failing calls default_flags NotStarted keeps [] refl
