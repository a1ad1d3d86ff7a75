-- ===== src/Deliver/CaBundle.antt =====
-- internal/deliver/cabundle.go
use dual_deployment_operator.Base.{
  String, none, some, List, [], ◌∷◌, ◌==◌, if◌then◌else◌, ok, err, one_of,
}
use dual_deployment_operator.Json.{Value, Items, Fields, object, done, item}
use dual_deployment_operator.Library.{Library}

abbrev pub webhook_kinds : List String
webhook_kinds = "ValidatingWebhookConfiguration" ∷ "MutatingWebhookConfiguration" ∷ []

module _ ⦃k : Library⦄ where
  open k use {get_kind, nested_slice, set_nested_slice, remove_nested_field}

  -- One entry of `webhooks`; what is no map stays.
  unfoldable pub strip_webhook : Value → Value
  strip_webhook (object wh) = object (remove_nested_field wh ("clientConfig" ∷ "caBundle" ∷ []))
  strip_webhook v = v

  unfoldable pub strip_webhooks : Items → Items
  strip_webhooks done = done
  strip_webhooks (item wh whs) = item (strip_webhook wh) (strip_webhooks whs)

  unfoldable pub strip_ca_bundle_from_webhooks : Fields → Fields
  strip_ca_bundle_from_webhooks u = elim (nested_slice u ("webhooks" ∷ [])) [
    | err e ↦ u
    | ok none ↦ u
    | ok (some whs) ↦ elim (set_nested_slice u (strip_webhooks whs) ("webhooks" ∷ [])) [
      | err e ↦ u
      | ok u' ↦ u'
    ]
  ]

  unfoldable pub strip_ca_bundle_from_crd_conversion : Fields → Fields
  strip_ca_bundle_from_crd_conversion u =
      remove_nested_field u ("spec" ∷ "conversion" ∷ "webhook" ∷ "clientConfig" ∷ "caBundle" ∷ [])

  unfoldable pub prepare_for_apply : Fields → Fields
  prepare_for_apply u =
      if one_of webhook_kinds (get_kind u)
      then strip_ca_bundle_from_webhooks u
      else if get_kind u == "CustomResourceDefinition"
      then strip_ca_bundle_from_crd_conversion u
      else u
