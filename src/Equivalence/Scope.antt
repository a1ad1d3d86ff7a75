-- ===== src/Equivalence/Scope.antt =====
-- internal/equivalence/scope.go
pub mod Suppression
use mathlib.Core.List.{reverse}
use dual_deployment_operator.Base.{
  String, Bool, true, false, Option, none, some, List, [], ◌∷◌, ◌==◌, ◌&&◌, ◌||◌, not,
  if◌then◌else◌, Result, ok, err, any, keep, one_of, split,
}
use dual_deployment_operator.Json.{Value, text, object, Items, done, item, Fields, lookup, insert}
use dual_deployment_operator.Library.{Library}
use dual_deployment_operator.Transform.RewriteWebhookUrl.{text_or_empty}
use dual_deployment_operator.Equivalence.Objects.{ObjectSet, put_object, key_of_object}
use dual_deployment_operator.Equivalence.Allowlist.{delete_keys, or_unchanged, put_or_remove}
use dual_deployment_operator.Equivalence.Compare.{Report, is_nil, compare_sets}

pub record ExclusionEntry : Type 0 where
  pub kind : String
  pub name : String

pub record Scope : Type 0 where
  pub compared_kinds : List String
  pub known_divergences : List ExclusionEntry
  pub ignore_labels : List String
  pub canonical_namespace : String

unfoldable pub compares_kind : Scope → String → Bool
compares_kind s kind = is_nil s.compared_kinds || one_of s.compared_kinds kind

abbrev pub names_entry : String → String → ExclusionEntry → Bool
names_entry kind name e = e.kind == kind && e.name == name

-- The segments of a display key, from the last one: the name, the namespace, and the kind.
unfoldable pub segments_known : Scope → List String → Bool
segments_known s (name ∷ namespace ∷ kind ∷ version ∷ rest) =
    any (names_entry kind name) s.known_divergences
segments_known s _ = false

unfoldable pub key_is_known_divergence : Scope → String → Bool
unfolding segments_known
key_is_known_divergence s key = segments_known s (reverse (split b'/' key))

unfoldable pub drop_known_divergent : Scope → List String → List String
unfolding key_is_known_divergence
drop_known_divergent s keys = keep (λ key. not (key_is_known_divergence s key)) keys

-- The namespace of a subject, if it is another one: whether it changes, and to what.
abbrev pub moved : String → Fields → Bool
moved namespace m =
    let old = text_or_empty (lookup "namespace" m) in not (old == "") && not (old == namespace)

abbrev pub place_subject : String → Value → Value
place_subject namespace (object m) =
    if moved namespace m then object (insert "namespace" (text namespace) m) else object m
place_subject namespace v = v

abbrev pub subject_moves : String → Value → Bool
subject_moves namespace (object m) = moved namespace m
subject_moves namespace v = false

-- The loop over the subjects, and whether one of them has changed.
unfoldable pub place_subjects : String → Items → Items × Bool
place_subjects namespace done = (done, false)
place_subjects namespace (item v vs) =
    let (rest, changed) = place_subjects namespace vs in
    (item (place_subject namespace v) rest, subject_moves namespace v || changed)

module _ ⦃k : Library⦄ where
  -- The subjects of a binding, read and changed.
  unfoldable pub canonicalize_subjects : String → Fields → Fields
  unfolding place_subjects
  canonicalize_subjects namespace u = elim (k.nested_slice u ("subjects" ∷ [])) [
    | err e ↦ u
    | ok none ↦ u
    | ok (some subjects) ↦
        (let (placed, changed) = place_subjects namespace subjects in
          if changed then or_unchanged u (k.set_nested_slice u placed ("subjects" ∷ [])) else u)
  ]

  unfoldable pub canonicalize_namespace : Scope → Fields → Fields
  unfolding canonicalize_subjects
  canonicalize_namespace s u =
      let namespace = s.canonical_namespace in
      let old = k.get_namespace u in
      if namespace == ""
      then u
      else canonicalize_subjects namespace
          (if not (old == "") && not (old == namespace) then k.set_namespace namespace u else u)

  unfoldable pub strip_ignored_labels : Scope → Fields → Fields
  unfolding delete_keys
  strip_ignored_labels s u =
      if is_nil s.ignore_labels then u else elim (k.nested_map u ("metadata" ∷ "labels" ∷ [])) [
        | err e ↦ u
        | ok none ↦ u
        | ok (some labels) ↦
            or_unchanged u
              (put_or_remove u (delete_keys s.ignore_labels labels) ("metadata" ∷ "labels" ∷ []))
      ]

  -- The object that is compared.
  unfoldable pub scoped_object : Scope → Fields → Fields
  unfolding canonicalize_namespace strip_ignored_labels
  scoped_object s u = canonicalize_namespace s (strip_ignored_labels s u)

  -- The loop of `Apply`, with the objects that are put out so far.
  unfoldable pub apply_scope_from : Scope → ObjectSet → ObjectSet → ObjectSet
  unfolding compares_kind scoped_object key_of_object put_object
  apply_scope_from s [] out = out
  apply_scope_from s ((key, u) ∷ set) out = apply_scope_from s set (
      if compares_kind s (k.get_kind u)
      then put_object (key_of_object (scoped_object s u)) (scoped_object s u) out
      else out)

  unfoldable pub apply_scope : Scope → ObjectSet → ObjectSet
  unfolding apply_scope_from
  apply_scope s set = apply_scope_from s set []

  unfoldable pub compare_scoped : Scope → ObjectSet → ObjectSet → Report
  unfolding drop_known_divergent
  compare_scoped s golden op =
      let r = compare_sets golden op in
      if is_nil s.known_divergences then r else record r {
        missing_op = drop_known_divergent s r.missing_op;
        extra_op = drop_known_divergent s r.extra_op;
      }
