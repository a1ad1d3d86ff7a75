-- ===== src/Transform/RewriteWebhookUrl/Config.antt =====
-- What the rewriting of one client config does.
use dual_deployment_operator.Base.{
  ◌≡◌, String, true, Option, none, some, ◌==◌, arith, text_append, Bool-cases, inl, inr,
  if◌then◌else◌, is_some,
}
use dual_deployment_operator.Json.{
  Value, Fields, text, object, lookup, insert, delete, lookup-insert, lookup-delete,
}
use dual_deployment_operator.Api.{RewriteWebhookUrlSpec}
use dual_deployment_operator.Transform.RewriteWebhookUrl.{
  text_or_empty, rewrite_client_config, use_url,
}

-- A config with a service and no URL gets the URL of the prefix and the service's path, and loses
-- the service; every other key keeps its value.
pub rewrite_client_config-lookup :
    (spec : RewriteWebhookUrlSpec) (cc svc : Fields) (key : String)
    → lookup "url" cc ≡ none
    → lookup "service" cc ≡ some (object svc)
    → (cc' : Fields) × (rewrite_client_config spec cc ≡ some cc')
      × (lookup key cc' ≡ (
          if "service" == key
          then none
          else if "url" == key
          then some (text (text_append spec.url_prefix (text_or_empty (lookup "path" svc))))
          else lookup key cc))
unfolding rewrite_client_config
rewrite_client_config-lookup spec cc svc key no_url has_service = (
  delete "service"
      (insert "url" (text (text_append spec.url_prefix (text_or_empty (lookup "path" svc)))) cc),
  simp (no_url, has_service),
  simp (lookup-delete, lookup-insert),
)

use_url-has_url :
    (prefix : String) (config config' : Fields) (service : Option Value)
    → use_url prefix config service ≡ some config'
    → is_some (lookup "url" config') ≡ true
use_url-has_url prefix config config' (some (object svc)) h =
    let changed : delete "service"
          (insert "url" (text (text_append prefix (text_or_empty (lookup "path" svc)))) config)
        ≡ config' =
      ground arith in
    rw (← changed) (simp (lookup-delete, lookup-insert))
use_url-has_url prefix config config' _ h = cc

-- A config that the rewriting has changed is not changed again, whatever the prefix.
pub rewrite_client_config_once :
    (spec spec' : RewriteWebhookUrlSpec) (cc cc' : Fields)
    → rewrite_client_config spec cc ≡ some cc'
    → rewrite_client_config spec' cc' ≡ none
unfolding rewrite_client_config
rewrite_client_config_once spec spec' cc cc' h =
    let url : is_some (lookup "url" cc') ≡ true = elim (Bool-cases (is_some (lookup "url" cc))) [
      | inl e ↦ ground arith
      | inr e ↦ use_url-has_url spec.url_prefix cc cc' (lookup "service" cc) (ground arith)
    ] in
    rw url
