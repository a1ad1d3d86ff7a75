-- ===== src/Clients.antt =====
-- internal/clients/clients.go: the configuration of the shoot client, from the token-requestor
-- Secret. Durations are in seconds.
pub mod Credentials
use dual_deployment_operator.Base.{
  ℕ, String, ◌==◌, ◌||◌, if◌then◌else◌, Error, shoot_credentials_not_ready, Result, ok, err,
}
use dual_deployment_operator.Json.{StringMap, get_text}

abbrev pub shoot_request_timeout : ℕ
shoot_request_timeout = 30

abbrev pub err_shoot_credentials_not_ready : Error
err_shoot_credentials_not_ready = record {
  kind = shoot_credentials_not_ready;
  message = "shoot credentials not yet populated";
}

-- rest.Config, with the fields that are set.
pub record RestConfig : Type 0 where
  pub host : String
  pub bearer_token : String
  pub ca_data : String
  pub timeout : ℕ

abbrev pub or_default : String → String → String
or_default s default = if s == "" then default else s

-- The Secret is given by its data.
unfoldable pub shoot_rest_config : StringMap → String → String → String → Result RestConfig
shoot_rest_config secret token_key ca_key server =
    let token = get_text (or_default token_key "token") secret in
    let ca_data = get_text (or_default ca_key "bundle.crt") secret in
    if token == "" || ca_data == ""
    then err err_shoot_credentials_not_ready
    else ok (record {
      host = server;
      bearer_token = token;
      ca_data = ca_data;
      timeout = shoot_request_timeout;
    })
