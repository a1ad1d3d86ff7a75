-- ===== src/Deliver/Order.antt =====
-- internal/deliver/order.go: the fixed order of kinds within a render, the manifest that stands for
-- a recorded resource, and the version-independent identity of both.
pub mod Buckets
pub mod Sequence
use mathlib.Core.List.{reverse}
use dual_deployment_operator.Base.{
  ℕ, String, Bool, List, [], ◌∷◌, ◌==◌, if◌then◌else◌, Result, ok, err, ltb, one_of, join,
}
use dual_deployment_operator.Json.{Fields, end}
use dual_deployment_operator.Library.{Library, GroupVersion, GroupVersionKind, no_group_version}
use dual_deployment_operator.Api.{ResourceStatus}
use dual_deployment_operator.Manifest.{Manifest, is_cluster_scoped}

abbrev pub rbac_kinds : List String
rbac_kinds = "ClusterRole" ∷ "ClusterRoleBinding" ∷ "Role" ∷ "RoleBinding" ∷ "ServiceAccount" ∷ []

unfoldable pub apply_priority : String → ℕ
apply_priority kind =
    if kind == "Namespace"
    then 0
    else if kind == "CustomResourceDefinition"
    then 1
    else if one_of rbac_kinds kind
    then 2
    else if one_of ("ValidatingWebhookConfiguration" ∷ "MutatingWebhookConfiguration" ∷ []) kind
    then 4
    else 3

-- `sort.SliceStable` by the test `less`: an element is placed before the first one that it is not
-- greater than.
module _ {A : Type 0} (less : A → A → Bool) where
  unfoldable pub place_stable : A → List A → List A
  place_stable x [] = x ∷ []
  place_stable x (y ∷ ys) = if less y x then y ∷ place_stable x ys else x ∷ y ∷ ys

  unfoldable pub sort_stable : List A → List A
  unfolding place_stable
  sort_stable [] = []
  sort_stable (x ∷ xs) = place_stable x (sort_stable xs)

abbrev pub status_priority : ResourceStatus → ℕ
status_priority rs = apply_priority rs.kind

unfoldable pub sort_status_for_delete : List ResourceStatus → List ResourceStatus
unfolding sort_stable
sort_status_for_delete = sort_stable (λ i j. ltb (status_priority j) (status_priority i))

unfoldable pub identity_namespace : String → String → String
identity_namespace kind ns = if is_cluster_scoped kind then "" else ns

-- What `schema.ParseGroupVersion` gives, and the empty group and version if it fails.
abbrev pub group_version_or_none : Result GroupVersion → GroupVersion
group_version_or_none (ok gv) = gv
group_version_or_none (err e) = no_group_version

module _ ⦃k : Library⦄ where
  open k use {
    get_kind, get_namespace, get_name, group_version_kind, set_group_version_kind, set_namespace,
    set_name, parse_group_version,
  }

  abbrev pub manifest_priority : Manifest → ℕ
  manifest_priority m = apply_priority (get_kind m.unstructured)

  unfoldable pub sort_for_apply : List Manifest → List Manifest
  unfolding sort_stable
  sort_for_apply = sort_stable (λ i j. ltb (manifest_priority i) (manifest_priority j))

  -- out[len(applied)-1-i] = applied[i]
  unfoldable pub sort_for_delete : List Manifest → List Manifest
  unfolding sort_for_apply
  sort_for_delete ms = reverse (sort_for_apply ms)

  unfoldable pub manifest_from_status : ResourceStatus → Manifest
  manifest_from_status rs =
      let gv = group_version_or_none (parse_group_version rs.api_version) in
      let gvk : GroupVersionKind = record {
        group = gv.group;
        version = gv.version;
        kind = rs.kind;
      } in
      record {
        unstructured = set_name rs.name (
            set_namespace (identity_namespace rs.kind rs.namespace)
              (set_group_version_kind gvk end));
        origin = "";
      }

  unfoldable pub status_identity_key : ResourceStatus → String
  status_identity_key rs =
      let gv = group_version_or_none (parse_group_version rs.api_version) in
      join "/" (gv.group ∷ rs.kind ∷ identity_namespace rs.kind rs.namespace ∷ rs.name ∷ [])

  unfoldable pub manifest_identity_key : Manifest → String
  manifest_identity_key m =
      let u = m.unstructured in
      let gvk = group_version_kind u in
      join "/"
        (gvk.group ∷ gvk.kind ∷ identity_namespace gvk.kind (get_namespace u) ∷ get_name u ∷ [])
