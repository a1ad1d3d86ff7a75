-- ===== src/Tests/Machinery.antt =====
-- `Library` implemented over the values of Json.antt, as far as the theorems' examples run it, and
-- a proof that it behaves as documented. Every apiVersion is one of the core group.
use dual_deployment_operator.Base.{
  String, ◌≡◌, refl, ◌↔◌, true, false, Option, none, some, List, [], ◌∷◌, ◌==◌, arith, eq_iff,
  eq_refl, if◌then◌else◌, Error, ok, err, plain, All, one_of,
}
use dual_deployment_operator.Json.{
  Value, text, slice, object, Items, Fields, lookup, insert, delete, lookup-insert, lookup-delete,
  StringMap,
}
use dual_deployment_operator.Library.{Library, Documented, entries, find_condition}
use dual_deployment_operator.Api.{Condition}
use dual_deployment_operator.Tests.Objects.{
  text_of, fields_of, meta, set_meta, to_fields, of_fields, map_of, set_map, nested, remove_at,
  set_at, as_slice, as_map, as_string, as_int64, first_error, set_condition, without, documents_of,
}

instance unfoldable pub demo : Library
unfolding nested remove_at set_at lookup insert delete
demo = record {
  get_kind = λ u. text_of (lookup "kind" u);
  get_api_version = λ u. text_of (lookup "apiVersion" u);
  get_namespace = λ u. text_of (lookup "namespace" (meta u));
  get_name = λ u. text_of (lookup "name" (meta u));
  get_labels = λ u. map_of (lookup "labels" (meta u));
  get_annotations = λ u. map_of (lookup "annotations" (meta u));
  set_labels = λ m u. set_map "labels" (some m) u;
  set_annotations = λ m u. set_map "annotations" m u;
  set_namespace = λ ns u. set_meta "namespace" (text ns) u;
  set_name = λ name u. set_meta "name" (text name) u;
  group_version_kind = λ u. record {
    group = "";
    version = text_of (lookup "apiVersion" u);
    kind = text_of (lookup "kind" u);
  };
  set_group_version_kind =
      λ gvk u. insert "kind" (text gvk.kind) (insert "apiVersion" (text gvk.version) u);
  nested_slice = λ u path. as_slice (nested path u);
  nested_map = λ u path. as_map (nested path u);
  nested_string = λ u path. as_string (nested path u);
  nested_int64 = λ u path. as_int64 (nested path u);
  set_nested_slice = λ u vs path. set_at (slice vs) path u;
  set_nested_map = λ u m path. set_at (object m) path u;
  remove_nested_field = λ u path. remove_at path u;
  parse_group_version = λ s. ok (record { group = ""; version = s });
  new_aggregate = first_error;
  set_status_condition = set_condition;
  contains_finalizer = λ fs f. one_of fs f;
  add_finalizer = λ fs f. if one_of fs f then fs else f ∷ fs;
  remove_finalizer = λ fs f. without f fs;
  sha256_hex = λ s. s;
  quote = λ s. s;
  decimal = λ n. "";
  decode_documents = documents_of;
  path_match = λ pattern name. ok (pattern == name);
  marshal_object = λ u. err (plain "not supported");
  unmarshal_object = λ s. err (plain "not supported");
  marshal_json_patch = λ ops. err (plain "not supported");
  decode_patch = λ s. err (plain "not supported");
  merge_patch = λ orig patch. err (plain "not supported");
  scheme_new = λ gvk. err (plain "not registered");
  strategic_merge_patch = λ orig patch gvk. err (plain "not supported");
}

of_fields-to_fields : (m : StringMap) → of_fields (to_fields m) ≡ m
of_fields-to_fields [] = refl
of_fields-to_fields ((key, v) ∷ m) = rw (of_fields-to_fields m)

-- A change at one key leaves the metadata.
meta-insert :
    (u : Fields) (key : String) (v : Value)
    → (key == "metadata") ≡ false
    → meta (insert key v u) ≡ meta u
meta-insert u key v e = rw (lookup-insert key "metadata" v u, e)

meta-remove_at :
    (u : Fields) (key : String) (path : List String)
    → (key == "metadata") ≡ false
    → meta (remove_at (key ∷ path) u) ≡ meta u
unfolding remove_at
meta-remove_at u key [] e = rw (lookup-delete key "metadata" u, e)
meta-remove_at u key (next ∷ path) e = ground (
  arith,
  λ (m : Fields). lookup-insert key "metadata" (object (remove_at (next ∷ path) m)) u,
  lookup-insert key "metadata" (object (remove_at (next ∷ path) (fields_of (lookup key u)))) u,
)

meta-slice :
    (u u' : Fields) (vs : Items) (key : String)
    → (key == "metadata") ≡ false
    → demo.set_nested_slice u vs (key ∷ []) ≡ ok u'
    → meta u' ≡ meta u
unfolding demo
meta-slice u u' vs key e h =
    let changed : insert key (slice vs) u ≡ u' = ground arith in
    rw (← changed) (meta-insert u key (slice vs) e)

first_error_iff :
    (errs : List (Option Error)) → (first_error errs ≡ none) ↔ All (λ e. e ≡ none) errs
first_error_iff [] = (λ h. tt, λ h. refl)
first_error_iff (none ∷ errs) =
    (λ h. (refl, (first_error_iff errs).0 h), λ h. (first_error_iff errs).1 h.1)
first_error_iff (some e ∷ errs) = (λ h. cc, λ h. h.0)

find-set_condition :
    (conds : List Condition) (c : Condition)
    → find_condition c.type (set_condition conds c) ≡ some c
find-set_condition [] c = rw (eq_refl c.type)
find-set_condition (d ∷ conds) c = ground (arith, find-set_condition conds c, eq_refl c.type)

one_of-without : (fs : List String) (f : String) → one_of (without f fs) f ≡ false
one_of-without [] f = refl
one_of-without (g ∷ fs) f = ground (arith, one_of-without fs f, eq_iff g f, eq_iff f g)

one_of-add : (fs : List String) (f : String) → one_of (if one_of fs f then fs else f ∷ fs) f ≡ true
one_of-add fs f = ground (arith, eq_refl f)

annotations-set :
    (m : Option StringMap) (u : Fields)
    → entries (demo.get_annotations (demo.set_annotations m u)) ≡ entries m
unfolding demo
annotations-set none u = simp (lookup-insert, lookup-delete)
annotations-set (some m) u = simp (lookup-insert, of_fields-to_fields)

pub documented : Documented ⦃k = demo⦄
unfolding demo
documented = record {
  read_kind = λ u. refl;
  written_kind = λ version kind gv u h. simp lookup-insert (ground arith);
  parse_empty = refl;
  namespace_set = λ ns u. simp lookup-insert;
  name_set = λ name u. simp lookup-insert;
  namespace_of_named = λ name u. simp lookup-insert;
  kind_of_placed = λ ns u. simp lookup-insert;
  gvk_of_placed = λ ns u. simp lookup-insert;
  gvk_of_named = λ name u. simp lookup-insert;
  labels_set = λ m u. simp (lookup-insert, of_fields-to_fields);
  annotations_set = annotations-set;
  annotations_of_labelled = λ m u. simp lookup-insert;
  labels_of_removed = λ u key path e. rw (meta-remove_at u key path e);
  annotations_of_removed = λ u key path e. rw (meta-remove_at u key path e);
  labels_of_slice = λ u u' vs key e h. rw (meta-slice u u' vs key e h);
  annotations_of_slice = λ u u' vs key e h. rw (meta-slice u u' vs key e h);
  aggregate_none = first_error_iff;
  condition_set = find-set_condition;
  finalizer_removed = one_of-without;
  finalizer_added = one_of-add;
}
