-- ===== src/Transform/RewriteWebhookUrl.antt =====
-- internal/transform/rewrite_webhook_url.go
pub mod Config
use dual_deployment_operator.Base.{
  String, Bool, true, false, Option, none, some, List, [], ◌∷◌, ◌==◌, if◌then◌else◌, ◌||◌, Result,
  ok, err, concat, cons_ok, one_of, text_append, is_some,
}
use dual_deployment_operator.Json.{
  Value, Items, Fields, text, object, done, item, lookup, insert, delete,
}
use dual_deployment_operator.Library.{Library}
use dual_deployment_operator.Api.{RewriteWebhookUrlSpec}
use dual_deployment_operator.Manifest.{Manifest}

-- s, _ := m[key].(string)
abbrev pub text_or_empty : Option Value → String
text_or_empty (some (text s)) = s
text_or_empty _ = ""

abbrev pub use_url : String → Fields → Option Value → Option Fields
use_url prefix cc (some (object svc)) = some (
    delete "service"
      (insert "url" (text (text_append prefix (text_or_empty (lookup "path" svc)))) cc))
use_url prefix cc _ = none

-- The changed client config, or nothing if it stays.
unfoldable pub rewrite_client_config : RewriteWebhookUrlSpec → Fields → Option Fields
rewrite_client_config spec cc =
    if is_some (lookup "url" cc) then none else use_url spec.url_prefix cc (lookup "service" cc)

abbrev set_client_config : Fields → Option Fields → Option Value
set_client_config wh none = none
set_client_config wh (some cc) = some (object (insert "clientConfig" (object cc) wh))

abbrev rewrite_config_of : RewriteWebhookUrlSpec → Fields → Option Value → Option Value
rewrite_config_of spec wh (some (object cc)) = set_client_config wh (rewrite_client_config spec cc)
rewrite_config_of spec wh _ = none

-- One entry of `webhooks`, if it changes.
unfoldable pub rewrite_webhook : RewriteWebhookUrlSpec → Value → Option Value
unfolding rewrite_client_config
rewrite_webhook spec (object wh) = rewrite_config_of spec wh (lookup "clientConfig" wh)
rewrite_webhook spec v = none

abbrev or_same : Value → Option Value → Value
or_same v none = v
or_same v (some w) = w

-- The entries, and whether one of them has changed.
unfoldable pub rewrite_webhooks : RewriteWebhookUrlSpec → Items → Items × Bool
unfolding rewrite_webhook
rewrite_webhooks spec done = (done, false)
rewrite_webhooks spec (item v vs) =
    let (rest, changed) = rewrite_webhooks spec vs in
    let w = rewrite_webhook spec v in (item (or_same v w) rest, is_some w || changed)

module _ ⦃k : Library⦄ where
  open k use {
    get_kind, get_name, nested_slice, nested_map, nested_string, set_nested_slice, set_nested_map,
  }

  unfoldable pub rewrite_webhook_list : RewriteWebhookUrlSpec → Fields → Result Fields
  unfolding rewrite_webhooks
  rewrite_webhook_list spec u = elim (nested_slice u ("webhooks" ∷ [])) [
    | err e ↦ err e
    | ok none ↦ ok u
    | ok (some whs) ↦
        (let (whs', changed) = rewrite_webhooks spec whs in
          if changed then set_nested_slice u whs' ("webhooks" ∷ []) else ok u)
  ]

  abbrev client_config_path : List String
  client_config_path = "spec" ∷ "conversion" ∷ "webhook" ∷ "clientConfig" ∷ []

  abbrev or_empty : Option String → String
  or_empty none = ""
  or_empty (some s) = s

  -- The client config of a conversion webhook, read and changed.
  unfoldable pub rewrite_found_config :
      RewriteWebhookUrlSpec → Fields → Result (Option Fields) → Result Fields
  unfolding rewrite_client_config
  rewrite_found_config spec u (err e) = err e
  rewrite_found_config spec u (ok none) = ok u
  rewrite_found_config spec u (ok (some cc)) = elim (rewrite_client_config spec cc) [
    | none ↦ ok u
    | some cc' ↦ set_nested_map u cc' client_config_path
  ]

  unfoldable pub rewrite_conversion : RewriteWebhookUrlSpec → Fields → Result Fields
  unfolding rewrite_found_config
  rewrite_conversion spec u = elim (nested_string u ("spec" ∷ "conversion" ∷ "strategy" ∷ [])) [
    | err e ↦ err e
    | ok strategy ↦
        (if or_empty strategy == "Webhook"
          then rewrite_found_config spec u (nested_map u client_config_path)
          else ok u)
  ]

  unfoldable pub rewrite_object : RewriteWebhookUrlSpec → Fields → Result Fields
  unfolding rewrite_webhook_list rewrite_conversion
  rewrite_object spec u =
      if one_of ("ValidatingWebhookConfiguration" ∷ "MutatingWebhookConfiguration" ∷ [])
        (get_kind u)
      then rewrite_webhook_list spec u
      else if get_kind u == "CustomResourceDefinition"
      then rewrite_conversion spec u
      else ok u

  -- The loop of `Apply`: the first failure ends it.
  unfoldable pub rewrite_webhook_url :
      RewriteWebhookUrlSpec → List Manifest → Result (List Manifest)
  unfolding rewrite_object
  rewrite_webhook_url spec [] = ok []
  rewrite_webhook_url spec (m ∷ ms) =
      let rest = rewrite_webhook_url spec ms in
      let u = m.unstructured in
      elim (rewrite_object spec u) [
        | err e ↦ err (record e {
          message =
              concat ("rewriteWebhookURL " ∷ get_kind u ∷ "/" ∷ get_name u ∷ ": " ∷ e.message ∷ []);
        })
        | ok u' ↦ cons_ok (record m { unstructured = u' }) rest
      ]
