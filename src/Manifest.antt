-- ===== src/Manifest.antt =====
-- internal/manifest: a rendered object with its origin, the labels and annotations that the
-- operator puts on it and takes off it (manifest.go), its namespace (namespace.go), and the reading
-- of a rendered stream (parse.go).
pub mod Placement
pub mod Documents
pub mod Ownership
use Prim.Native.String.{slice}
use dual_deployment_operator.Base.{
  ℕ, zero, ◌+◌, String, Bool, true, false, Option, none, some, List, [], ◌∷◌, ◌==◌, if◌then◌else◌,
  Error, Result, ok, err, plain, concat, cons_ok, join, one_of, nat_eq,
}
use dual_deployment_operator.Json.{Fields, StringMap, get_text, put_text, delete_text, size}
use dual_deployment_operator.Library.{Library, entries}

abbrev pub origin_annotation : String
origin_annotation = "dual-deployment-operator.cc.sap/origin"

abbrev pub origin_upstream : String
origin_upstream = "upstream"

abbrev pub origin_additions : String
origin_additions = "additions"

pub record Manifest : Type 0 where
  pub unstructured : Fields
  pub origin : String

abbrev pub owned_by_label : String
owned_by_label = "dual-deployment-operator.cc.sap/owned-by"

abbrev pub cluster_scoped_kinds : List String
cluster_scoped_kinds =
    "CustomResourceDefinition" ∷ "ClusterRole" ∷ "ClusterRoleBinding" ∷ "Namespace"
    ∷ "PriorityClass" ∷ "StorageClass" ∷ "ClusterIssuer" ∷ "APIService"
    ∷ "ValidatingWebhookConfiguration" ∷ "MutatingWebhookConfiguration" ∷ "PersistentVolume"
    ∷ "IngressClass" ∷ "RuntimeClass" ∷ "PriorityLevelConfiguration" ∷ "FlowSchema" ∷ "CSIDriver"
    ∷ "CSINode" ∷ "VolumeAttachment" ∷ "NodeClass" ∷ []

unfoldable pub is_cluster_scoped : String → Bool
is_cluster_scoped kind = one_of cluster_scoped_kinds kind

abbrev pub without_origin : StringMap → Option StringMap
without_origin [] = none
without_origin (x ∷ xs) = some (x ∷ xs)

module _ ⦃k : Library⦄ where
  open k use {
    get_kind, get_api_version, get_namespace, get_annotations, get_labels, set_annotations,
    set_labels, set_namespace, sha256_hex, decimal, decode_documents,
  }

  -- The first 16 characters of the sum.
  unfoldable pub owned_by_value : String → String → String
  owned_by_value namespace name = slice (sha256_hex (concat (namespace ∷ "/" ∷ name ∷ []))) 0 16

  unfoldable pub strip_internal_annotations : Manifest → Manifest
  strip_internal_annotations m = elim (get_annotations m.unstructured) [
    | none ↦ m
    | some anns ↦ record m {
      unstructured =
          set_annotations (without_origin (delete_text origin_annotation anns)) m.unstructured;
    }
  ]

  unfoldable pub set_owned_by_label : Manifest → String → Manifest
  set_owned_by_label m owned_by = record m {
    unstructured =
        set_labels (put_text owned_by_label owned_by (entries (get_labels m.unstructured)))
          m.unstructured;
  }

  -- The body of the loop: a cluster-scoped object loses its namespace, any other one that has none
  -- gets `ns`.
  unfoldable pub place : String → Manifest → Manifest
  place ns m =
      let u = m.unstructured in
      if is_cluster_scoped (get_kind u)
      then (if get_namespace u == "" then m else record m { unstructured = set_namespace "" u })
      else if ns == ""
      then m
      else if get_namespace u == ""
      then record m { unstructured = set_namespace ns u }
      else m

  unfoldable pub apply_namespace : List Manifest → String → List Manifest
  apply_namespace [] ns = []
  apply_namespace (m ∷ ms) ns = place ns m ∷ apply_namespace ms ns

  unfoldable pub origin_of : Fields → String → String
  origin_of u fallback =
      if get_text origin_annotation (entries (get_annotations u)) == origin_additions
      then origin_additions
      else fallback

  -- The loop over the decoded documents; `idx` counts those read so far.
  unfoldable pub parse_documents : List (Result Fields) → ℕ → String → Result (List Manifest)
  parse_documents [] idx fallback = ok []
  parse_documents (err e ∷ docs) idx fallback = err (record e {
    message = concat ("manifest: decode document " ∷ decimal idx ∷ ": " ∷ e.message ∷ []);
  })
  parse_documents (ok obj ∷ docs) idx fallback =
      let rest = parse_documents docs (idx + 1) fallback in
      if nat_eq (size obj) 0
      then rest
      else if get_api_version obj == ""
      then err
          (plain (concat ("manifest: document " ∷ decimal idx ∷ " is missing apiVersion" ∷ [])))
      else if get_kind obj == ""
      then err (plain (concat ("manifest: document " ∷ decimal idx ∷ " is missing kind" ∷ [])))
      else cons_ok (record { unstructured = obj; origin = origin_of obj fallback }) rest

  unfoldable pub parse : String → String → Result (List Manifest)
  parse raw fallback = parse_documents (decode_documents raw) 0 fallback
