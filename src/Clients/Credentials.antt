-- ===== src/Clients/Credentials.antt =====
-- When the shoot can be reached with a Secret.
use dual_deployment_operator.Base.{◌≡◌, ◌↔◌, ◌≢◌, String, arith, ok, eq_iff}
use dual_deployment_operator.Json.{StringMap, get_text}
use dual_deployment_operator.Clients.{
  RestConfig, or_default, shoot_rest_config, shoot_request_timeout,
}

module _ (secret : StringMap) (token_key ca_key server : String) where
  abbrev pub token : String
  token = get_text (or_default token_key "token") secret

  abbrev pub ca_data : String
  ca_data = get_text (or_default ca_key "bundle.crt") secret

  -- A configuration is made exactly when the Secret has a token and a CA bundle under the keys asked
  -- for, or under the default keys; and then it holds these, the server and the fixed timeout.
  pub shoot_rest_config_iff :
      (config : RestConfig)
      → (shoot_rest_config secret token_key ca_key server ≡ ok config) ↔ (
          (token ≢ "")
          × (ca_data ≢ "")
          × (config ≡ record {
            host = server;
            bearer_token = token;
            ca_data = ca_data;
            timeout = shoot_request_timeout;
          }))
  unfolding shoot_rest_config
  shoot_rest_config_iff config = (
    λ h. ground (arith, eq_iff token "", eq_iff ca_data ""),
    λ h. ground (arith, eq_iff token "", eq_iff ca_data ""),
  )
