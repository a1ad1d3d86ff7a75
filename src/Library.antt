-- ===== src/Library.antt =====
-- The code outside the repository that the program calls, as one record of operations: the
-- accessors of `unstructured.Unstructured` and the helpers of k8s.io/apimachinery and
-- controller-runtime. `Documented` states what the program relies on.
use dual_deployment_operator.Base.{
  ℕ, String, ◌≡◌, Bool, true, false, Option, none, some, List, [], ◌∷◌, Error, Result, ok, err, ℤ,
  ◌↔◌, ◌==◌, if◌then◌else◌, All,
}
use dual_deployment_operator.Json.{Items, Fields, StringMap}
use dual_deployment_operator.Api.{Condition, JsonPatchOp}

pub record GroupVersion : Type 0 where
  pub group : String
  pub version : String

pub record GroupVersionKind : Type 0 where
  pub group : String
  pub version : String
  pub kind : String

-- Reads of `nested_…` give nothing for a missing field and an error for a value of another type.
-- A setter returns the changed object. `quote` and `decimal` are the verbs %q and %d of `fmt`,
-- `sha256_hex` is the hexadecimal SHA-256 sum, and `decode_documents` gives what the decoder of a
-- YAML stream returns, call after call, up to the end of the stream. `path_match` is `path.Match`.
-- `scheme_new` looks a kind up in the client-go scheme and tells whether its object is an
-- unstructured one; the typed object that `strategic_merge_patch` takes is named by its kind.
-- `decode_patch` gives the `Apply` of the decoded JSON patch.
pub record Library : Type 0 where
  pub get_kind : Fields → String
  pub get_api_version : Fields → String
  pub get_namespace : Fields → String
  pub get_name : Fields → String
  pub get_labels : Fields → Option StringMap
  pub get_annotations : Fields → Option StringMap
  pub set_labels : StringMap → Fields → Fields
  pub set_annotations : Option StringMap → Fields → Fields
  pub set_namespace : String → Fields → Fields
  pub set_name : String → Fields → Fields
  pub group_version_kind : Fields → GroupVersionKind
  pub set_group_version_kind : GroupVersionKind → Fields → Fields
  pub nested_slice : Fields → List String → Result (Option Items)
  pub nested_map : Fields → List String → Result (Option Fields)
  pub nested_string : Fields → List String → Result (Option String)
  pub nested_int64 : Fields → List String → Result (Option ℤ)
  pub set_nested_slice : Fields → Items → List String → Result Fields
  pub set_nested_map : Fields → Fields → List String → Result Fields
  pub remove_nested_field : Fields → List String → Fields
  pub parse_group_version : String → Result GroupVersion
  pub new_aggregate : List (Option Error) → Option Error
  pub set_status_condition : List Condition → Condition → List Condition
  pub contains_finalizer : List String → String → Bool
  pub add_finalizer : List String → String → List String
  pub remove_finalizer : List String → String → List String
  pub sha256_hex : String → String
  pub quote : String → String
  pub decimal : ℕ → String
  pub decode_documents : String → List (Result Fields)
  pub path_match : String → String → Result Bool
  pub marshal_object : Fields → Result String
  pub unmarshal_object : String → Result Fields
  pub marshal_json_patch : List JsonPatchOp → Result String
  pub decode_patch : String → Result (String → Result String)
  pub merge_patch : String → String → Result String
  pub scheme_new : GroupVersionKind → Result Bool
  pub strategic_merge_patch : String → String → GroupVersionKind → Result String

abbrev pub no_group_version : GroupVersion
no_group_version = record { group = ""; version = "" }

-- Labels and annotations as the program reads them: a nil map has no entry.
abbrev pub entries : Option StringMap → StringMap
entries none = []
entries (some m) = m

abbrev pub with_kind : Result GroupVersion → String → GroupVersionKind
with_kind (ok gv) kind = record { group = gv.group; version = gv.version; kind = kind }
with_kind (err e) kind = record { group = ""; version = ""; kind = "" }

-- The condition of a type, as `meta.FindStatusCondition` finds it.
abbrev pub find_condition : String → List Condition → Option Condition
find_condition type [] = none
find_condition type (c ∷ cs) = if c.type == type then some c else find_condition type cs

-- The documented behaviour that the program relies on.
pub record Documented ⦃k : Library⦄ : Type 0 where
  -- An apiVersion that cannot be parsed gives the empty kind.
  pub read_kind :
      (u : Fields)
      → k.group_version_kind u
        ≡ with_kind (k.parse_group_version (k.get_api_version u)) (k.get_kind u)
  pub written_kind :
      (version kind : String) (gv : GroupVersion) (u : Fields)
      → k.parse_group_version version ≡ ok gv
      → k.group_version_kind (k.set_group_version_kind (with_kind (ok gv) kind) u)
        ≡ with_kind (ok gv) kind
  pub parse_empty : k.parse_group_version "" ≡ ok no_group_version
  pub namespace_set : (ns : String) (u : Fields) → k.get_namespace (k.set_namespace ns u) ≡ ns
  pub name_set : (name : String) (u : Fields) → k.get_name (k.set_name name u) ≡ name
  pub namespace_of_named :
      (name : String) (u : Fields) → k.get_namespace (k.set_name name u) ≡ k.get_namespace u
  pub kind_of_placed : (ns : String) (u : Fields) → k.get_kind (k.set_namespace ns u) ≡ k.get_kind u
  pub gvk_of_placed :
      (ns : String) (u : Fields)
      → k.group_version_kind (k.set_namespace ns u) ≡ k.group_version_kind u
  pub gvk_of_named :
      (name : String) (u : Fields)
      → k.group_version_kind (k.set_name name u) ≡ k.group_version_kind u
  pub labels_set : (m : StringMap) (u : Fields) → entries (k.get_labels (k.set_labels m u)) ≡ m
  pub annotations_set :
      (m : Option StringMap) (u : Fields)
      → entries (k.get_annotations (k.set_annotations m u)) ≡ entries m
  pub annotations_of_labelled :
      (m : StringMap) (u : Fields) → k.get_annotations (k.set_labels m u) ≡ k.get_annotations u
  -- A field outside the metadata changes neither the labels nor the annotations.
  pub labels_of_removed :
      (u : Fields) (key : String) (path : List String)
      → (key == "metadata") ≡ false
      → k.get_labels (k.remove_nested_field u (key ∷ path)) ≡ k.get_labels u
  pub annotations_of_removed :
      (u : Fields) (key : String) (path : List String)
      → (key == "metadata") ≡ false
      → k.get_annotations (k.remove_nested_field u (key ∷ path)) ≡ k.get_annotations u
  pub labels_of_slice :
      (u u' : Fields) (vs : Items) (key : String)
      → (key == "metadata") ≡ false
      → k.set_nested_slice u vs (key ∷ []) ≡ ok u'
      → k.get_labels u' ≡ k.get_labels u
  pub annotations_of_slice :
      (u u' : Fields) (vs : Items) (key : String)
      → (key == "metadata") ≡ false
      → k.set_nested_slice u vs (key ∷ []) ≡ ok u'
      → k.get_annotations u' ≡ k.get_annotations u
  -- An aggregate of no error is no error.
  pub aggregate_none :
      (errs : List (Option Error)) → (k.new_aggregate errs ≡ none) ↔ All (λ e. e ≡ none) errs
  pub condition_set :
      (conds : List Condition) (c : Condition)
      → find_condition c.type (k.set_status_condition conds c) ≡ some c
  pub finalizer_removed :
      (fs : List String) (f : String) → k.contains_finalizer (k.remove_finalizer fs f) f ≡ false
  pub finalizer_added :
      (fs : List String) (f : String) → k.contains_finalizer (k.add_finalizer fs f) f ≡ true
