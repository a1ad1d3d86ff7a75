-- ===== src/Equivalence/Allowlist.antt =====
-- internal/equivalence/allowlist.go: labels and annotations that may differ.
use dual_deployment_operator.Base.{
  String, none, some, List, [], ◌∷◌, if◌then◌else◌, Result, ok, err, nat_eq,
}
use dual_deployment_operator.Json.{Fields, delete, size}
use dual_deployment_operator.Library.{Library}

abbrev pub allowlisted_label_keys : List String
allowlisted_label_keys =
    "helm.sh/chart" ∷ "helm.sh/resource-policy" ∷ "app.kubernetes.io/managed-by"
    ∷ "app.kubernetes.io/version" ∷ "app.kubernetes.io/instance"
    ∷ "dual-deployment-operator.cc.sap/origin" ∷ "dual-deployment-operator.cc.sap/owned-by" ∷ []

unfoldable pub delete_keys : List String → Fields → Fields
delete_keys [] m = m
delete_keys (key ∷ keys) m = delete_keys keys (delete key m)

-- What a failed change leaves.
abbrev pub or_unchanged : Fields → Result Fields → Fields
or_unchanged u (ok u') = u'
or_unchanged u (err e) = u

module _ ⦃k : Library⦄ where
  -- An empty map is removed, any other one is written back.
  abbrev pub put_or_remove : Fields → Fields → List String → Result Fields
  put_or_remove u m path =
      if nat_eq (size m) 0 then ok (k.remove_nested_field u path) else k.set_nested_map u m path

  unfoldable pub strip_keys : List String → Fields → Fields
  unfolding delete_keys
  strip_keys path u = elim (k.nested_map u path) [
    | err e ↦ u
    | ok none ↦ u
    | ok (some m) ↦ or_unchanged u (put_or_remove u (delete_keys allowlisted_label_keys m) path)
  ]

  unfoldable pub strip_allowlist : Fields → Fields
  unfolding strip_keys
  strip_allowlist u =
      strip_keys ("metadata" ∷ "annotations" ∷ []) (strip_keys ("metadata" ∷ "labels" ∷ []) u)
