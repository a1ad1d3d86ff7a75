-- ===== src/Deliver/Identity.antt =====
-- The identity of a resource, as the inventory records it and as a manifest has it.
use dual_deployment_operator.Base.{ℕ, ◌≡◌, String, ok, Result-cases, inl, inr, arith}
use dual_deployment_operator.Json.{end}
use dual_deployment_operator.Library.{Library, Documented, GroupVersion, no_group_version}
use dual_deployment_operator.Api.{ResourceStatus}
use dual_deployment_operator.Manifest.{Manifest}
use dual_deployment_operator.Deliver.Order.{
  identity_namespace, manifest_from_status, status_identity_key, manifest_identity_key,
}
use dual_deployment_operator.Deliver.Applier.{initial_status}

identity_namespace_idem :
    (kind ns : String)
    → identity_namespace kind (identity_namespace kind ns) ≡ identity_namespace kind ns
unfolding identity_namespace
identity_namespace_idem kind ns = ground arith

module _ ⦃k : Library⦄ (doc : Documented) where
  -- If the library behaves as documented and the object's apiVersion can be parsed, what `Apply`
  -- records of an object has the same identity key as the object.
  pub recorded_identity :
      (m : Manifest) (now : ℕ) (gv : GroupVersion)
      → k.parse_group_version (k.get_api_version m.unstructured) ≡ ok gv
      → status_identity_key (initial_status m.unstructured now) ≡ manifest_identity_key m
  unfolding status_identity_key manifest_identity_key initial_status
  recorded_identity m now gv e = rw (doc.read_kind m.unstructured, e)

  -- If the library behaves as documented, the manifest that stands for a recorded resource has the
  -- same identity key as the record.
  pub manifest_from_status-identity :
      (rs : ResourceStatus)
      → manifest_identity_key (manifest_from_status rs) ≡ status_identity_key rs
  unfolding manifest_identity_key manifest_from_status status_identity_key
  manifest_from_status-identity rs = elim (Result-cases (k.parse_group_version rs.api_version)) [
    | inl (e, failed) ↦ simp (
      failed,
      doc.gvk_of_named,
      doc.gvk_of_placed,
      doc.namespace_of_named,
      doc.namespace_set,
      doc.name_set,
      doc.written_kind "" rs.kind no_group_version end doc.parse_empty,
      identity_namespace_idem,
    )
    | inr (gv, parsed) ↦ simp (
      parsed,
      doc.gvk_of_named,
      doc.gvk_of_placed,
      doc.namespace_of_named,
      doc.namespace_set,
      doc.name_set,
      doc.written_kind rs.api_version rs.kind gv end parsed,
      identity_namespace_idem,
    )
  ]
