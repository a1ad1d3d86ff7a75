-- ===== src/Startup/Options.antt =====
-- cmd/main.go, the first half of main: the flags with their defaults, and the options of the servers,
-- of the cache and of the manager.
use dual_deployment_operator.Base.{
  String, Bool, true, false, List, [], ◌∷◌, ◌==◌, not, if◌then◌else◌,
}

-- The variables that the flags set. The flags of zap and of the client's kubeconfig are the
-- libraries' own.
pub record Flags : Type 0 where
  pub metrics_addr : String
  pub metrics_cert_path : String
  pub metrics_cert_name : String
  pub metrics_cert_key : String
  pub webhook_cert_path : String
  pub webhook_cert_name : String
  pub webhook_cert_key : String
  pub enable_leader_election : Bool
  pub probe_addr : String
  pub secure_metrics : Bool
  pub enable_http2 : Bool
  pub source_scratch_dir : String

-- What they are without arguments.
abbrev pub default_flags : Flags
default_flags = record {
  metrics_addr = "0";
  metrics_cert_path = "";
  metrics_cert_name = "tls.crt";
  metrics_cert_key = "tls.key";
  webhook_cert_path = "";
  webhook_cert_name = "tls.crt";
  webhook_cert_key = "tls.key";
  enable_leader_election = false;
  probe_addr = ":8081";
  secure_metrics = true;
  enable_http2 = false;
  source_scratch_dir = "";
}

-- tls.Config, with the field that is set.
pub record TlsConfig : Type 0 where
  pub next_protos : List String

abbrev pub TlsOpts : Type 0
TlsOpts = List (TlsConfig → TlsConfig)

unfoldable pub disable_http2 : TlsConfig → TlsConfig
disable_http2 c = record c { next_protos = "http/1.1" ∷ [] }

unfoldable pub tls_opts : Flags → TlsOpts
unfolding disable_http2
tls_opts flags = if not flags.enable_http2 then disable_http2 ∷ [] else []

-- The certificate files of a server; the server has its own without a directory.
pub record CertFiles : Type 0 where
  pub cert_dir : String
  pub cert_name : String
  pub key_name : String

abbrev pub no_files : CertFiles
no_files = record { cert_dir = ""; cert_name = ""; key_name = "" }

unfoldable pub cert_files : String → String → String → CertFiles
cert_files path name key =
    if not (path == "")
    then record { cert_dir = path; cert_name = name; key_name = key }
    else no_files

-- webhook.Options
pub record WebhookOptions : Type 0 where
  pub tls_opts : TlsOpts
  pub files : CertFiles

unfoldable pub webhook_server_options : Flags → WebhookOptions
unfolding tls_opts cert_files
webhook_server_options flags = record {
  tls_opts = tls_opts flags;
  files = cert_files flags.webhook_cert_path flags.webhook_cert_name flags.webhook_cert_key;
}

-- metricsserver.Options; `filtered` says that requests are authenticated and authorized.
pub record MetricsOptions : Type 0 where
  pub bind_address : String
  pub secure_serving : Bool
  pub tls_opts : TlsOpts
  pub filtered : Bool
  pub files : CertFiles

unfoldable pub metrics_server_options : Flags → MetricsOptions
unfolding tls_opts cert_files
metrics_server_options flags = record {
  bind_address = flags.metrics_addr;
  secure_serving = flags.secure_metrics;
  tls_opts = tls_opts flags;
  filtered = if flags.secure_metrics then true else false;
  files = cert_files flags.metrics_cert_path flags.metrics_cert_name flags.metrics_cert_key;
}

-- The namespaces that the cache watches; none stands for all.
unfoldable pub cache_namespaces : String → List String
cache_namespaces pod_namespace = if not (pod_namespace == "") then pod_namespace ∷ [] else []

-- ctrl.Options, but for the scheme.
pub record ManagerOptions : Type 0 where
  pub metrics : MetricsOptions
  pub webhook_server : WebhookOptions
  pub default_namespaces : List String
  pub health_probe_bind_address : String
  pub leader_election : Bool
  pub leader_election_id : String
  pub release_on_cancel : Bool

unfoldable pub manager_options : Flags → String → ManagerOptions
unfolding metrics_server_options webhook_server_options cache_namespaces
manager_options flags pod_namespace = record {
  metrics = metrics_server_options flags;
  webhook_server = webhook_server_options flags;
  default_namespaces = cache_namespaces pod_namespace;
  health_probe_bind_address = flags.probe_addr;
  leader_election = flags.enable_leader_election;
  leader_election_id = "9ca8e82a.cc.sap";
  release_on_cancel = true;
}
