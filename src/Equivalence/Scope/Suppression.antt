-- ===== src/Equivalence/Scope/Suppression.antt =====
-- What known divergences suppress (CompareScoped in scope.go).
use Prim.Native.String.{String, char_at}
use Prim.Native.Char.{Char}
use mathlib.Core.List.{reverse, reverse-append, reverse-cons}
use dual_deployment_operator.Base.{
  ◌≡◌, refl, ◌↔◌, ap, ◌∙◌, true, false, List, [], ◌∷◌, ◌++◌, arith, In, any, not, In-keep_iff,
  split, Bool-cases, inl, inr, join, pieces, text_append,
}
use text.Mathlib.TextLemmas.{nil-append, cons-append}
use dual_deployment_operator.Base.Pieces.{Free, split-append, split-join}
use dual_deployment_operator.Json.{Fields}
use dual_deployment_operator.Library.{Library}
use dual_deployment_operator.Equivalence.Objects.{ObjectSet}
use dual_deployment_operator.Equivalence.Compare.{is_nil, compare_sets, display_key}
use dual_deployment_operator.Equivalence.Scope.{
  Scope, ExclusionEntry, names_entry, segments_known, key_is_known_divergence, drop_known_divergent,
  compare_scoped,
}

-- Without known divergences no key is one.
segments_of_none :
    (s : Scope) (segments : List String)
    → is_nil s.known_divergences ≡ true
    → segments_known s segments ≡ false
unfolding segments_known
segments_of_none s [] h = refl
segments_of_none s (a ∷ []) h = refl
segments_of_none s (a ∷ b ∷ []) h = refl
segments_of_none s (a ∷ b ∷ c ∷ []) h = refl
segments_of_none s (a ∷ b ∷ c ∷ d ∷ rest) h = none_known s.known_divergences h
  where
    none_known : (es : List ExclusionEntry) → is_nil es ≡ true → any (names_entry c a) es ≡ false
    none_known [] h' = refl
    none_known (e ∷ es) h' = cc

In-drop_iff :
    (s : Scope) (keys : List String) (key : String)
    → In key (drop_known_divergent s keys) ↔ (In key keys × (key_is_known_divergence s key ≡ false))
unfolding drop_known_divergent
In-drop_iff s keys key =
    ground (arith, In-keep_iff (λ j. not (key_is_known_divergence s j)) keys key)

In-all_iff :
    (s : Scope) (keys : List String) (key : String)
    → is_nil s.known_divergences ≡ true
    → In key keys ↔ (In key keys × (key_is_known_divergence s key ≡ false))
unfolding key_is_known_divergence
In-all_iff s keys key e = (λ h. (h, segments_of_none s (reverse (split b'/' key)) e), λ h. h.0)

module _ ⦃k : Library⦄ where
  -- Known divergences never hide a mismatch between two objects; a missing or an extra object is
  -- left out of the report if and only if its display key is that of a known divergence.
  pub compare_scoped_iff :
      (s : Scope) (golden op : ObjectSet) (key : String)
      → ((compare_scoped s golden op).mismatched ≡ (compare_sets golden op).mismatched)
        × (In key (compare_scoped s golden op).missing_op ↔ (
            In key (compare_sets golden op).missing_op × (key_is_known_divergence s key ≡ false)))
        × (In key (compare_scoped s golden op).extra_op
            ↔ (In key (compare_sets golden op).extra_op × (key_is_known_divergence s key ≡ false)))
  unfolding compare_scoped
  compare_scoped_iff s golden op key = elim (Bool-cases (is_nil s.known_divergences)) [
    | inl e ↦
        (let r = compare_sets golden op in
          rw (e, compare_scoped)
            (refl, In-all_iff s r.missing_op key e, In-all_iff s r.extra_op key e))
    | inr e ↦
        (let r = compare_sets golden op in
          rw (e, compare_scoped)
            (refl, In-drop_iff s r.missing_op key, In-drop_iff s r.extra_op key))
  ]

abbrev slash : Char
slash = char_at "/" 0

abbrev slashed : String → String
slashed t = text_append "/" t

slash-append : (t : String) → slashed t ≡ String.◌∷◌ slash t
slash-append t = cons-append slash "" t ∙ ap (String.◌∷◌ slash) (nil-append t)

-- A key of at least four segments.
segments-last :
    (s : Scope) (name namespace kind : String) (versions : List String) (version : String)
    → segments_known s (name ∷ namespace ∷ kind ∷ (versions ++ version ∷ []))
      ≡ any (names_entry kind name) s.known_divergences
unfolding segments_known
segments-last s name namespace kind [] version = refl
segments-last s name namespace kind (v ∷ versions) version = refl

module _ ⦃k : Library⦄ where
  -- A kind, a namespace and a name that have no slash.
  pub record IsPlain (u : Fields) : Type 0 where
    pub kind : Free b'/' (k.get_kind u)
    pub namespace : Free b'/' (k.get_namespace u)
    pub name : Free b'/' (k.get_name u)

  split-display_key :
      (u : Fields)
      → IsPlain u
      → split b'/' (display_key u)
        ≡ split b'/' (k.get_api_version u) ++ k.get_kind u ∷ k.get_namespace u ∷ k.get_name u ∷ []
  unfolding display_key
  split-display_key u plain =
      let rest = join "/" (k.get_kind u ∷ k.get_namespace u ∷ k.get_name u ∷ []) in
      ap (λ (t : String). split b'/' (text_append (k.get_api_version u) t)) (slash-append rest)
      ∙ (split-append slash (k.get_api_version u) rest
          ∙ ap (λ (xs : List String). split b'/' (k.get_api_version u) ++ xs)
              (split-join slash (k.get_kind u) (k.get_namespace u ∷ k.get_name u ∷ []) plain.kind
                (plain.namespace, (plain.name, tt))))

  -- The display key of an object without a slash in its kind, namespace and name is that of a known
  -- divergence if and only if some entry has this kind and this name.
  pub key_is_known_divergence-display_key :
      (s : Scope) (u : Fields)
      → IsPlain u
      → key_is_known_divergence s (display_key u)
        ≡ any (names_entry (k.get_kind u) (k.get_name u)) s.known_divergences
  unfolding key_is_known_divergence
  key_is_known_divergence-display_key s u plain =
      let versions = split b'/' (k.get_api_version u) in
      let last = k.get_kind u ∷ k.get_namespace u ∷ k.get_name u ∷ [] in
      ap (λ (xs : List String). segments_known s (reverse xs)) (split-display_key u plain)
      ∙ (ap (segments_known s) (reverse-append versions last)
          ∙ (ap
                (λ (xs : List String).
                  segments_known s (k.get_name u ∷ k.get_namespace u ∷ k.get_kind u ∷ xs))
                (reverse-cons (pieces b'/' (k.get_api_version u)).0
                  (pieces b'/' (k.get_api_version u)).1)
              ∙ segments-last s (k.get_name u) (k.get_namespace u) (k.get_kind u)
                  (reverse (pieces b'/' (k.get_api_version u)).1)
                  (pieces b'/' (k.get_api_version u)).0))
