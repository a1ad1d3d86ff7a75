-- ===== src/Equivalence/Compare/Paths.antt =====
-- The paths at which two values differ (diffPaths in compare.go).
use dual_deployment_operator.Base.{
  ℕ, ◌+◌, ◌≡◌, refl, ◌↔◌, String, Bool, true, false, Option, none, some, List, [], ◌++◌, ◌==◌,
  arith, Bool-cases, inl, inr,
}
use dual_deployment_operator.Json.{
  Value, nil, boolean, int64, float64, text, slice, object, Items, done, item, Fields, end, field,
  lookup,
}
use dual_deployment_operator.Library.{Library}
use dual_deployment_operator.Equivalence.Objects.{sort_strings}
use dual_deployment_operator.Equivalence.Compare.{
  same_at, find_named, field_keys, length_items, deep_equal, items_equal, value_tests, next_path,
  paths_at, unless_equal, without_repeats, diff_paths, diff_items, value_differs, index_path,
}
use dual_deployment_operator.Equivalence.Compare.Keys.{
  all_iff, append-eq-nil_iff, join_paths-eq-nil_iff, All-iff, All-sorted_keys_iff,
}

-- A difference and a test of one value agree.
abbrev Agree : Option (Value → String → List String) → Option (Value → Bool) → Type 0
Agree (some differ) (some test) =
    (b : Value) (path : String) → (differ b path ≡ []) ↔ (test b ≡ true)
Agree none none = Unit
Agree _ _ = ⊥

unless_equal_iff : (b : Bool) (path : String) → (unless_equal b path ≡ []) ↔ (b ≡ true)
unless_equal_iff true path = (λ h. refl, λ h. refl)
unless_equal_iff false path = (λ h. cc, λ h. cc)

paths_at_iff :
    (path : String) (differ : Option (Value → String → List String)) (test : Option (Value → Bool))
    (w : Option Value)
    → Agree differ test
    → (paths_at path differ w ≡ []) ↔ (same_at test w ≡ true)
paths_at_iff path (some differ) (some test) (some w) h = h w path
paths_at_iff path (some differ) (some test) none h = (λ e. cc, λ e. cc)
paths_at_iff path none none (some w) h = (λ e. cc, λ e. cc)
paths_at_iff path none none none h = (λ e. cc, λ e. cc)
paths_at_iff path (some differ) none w h = absurd h
paths_at_iff path none (some test) w h = absurd h

items_equal-length : (vs ws : Items) → items_equal vs ws ≡ true → length_items vs ≡ length_items ws
unfolding deep_equal
items_equal-length done done h = refl
items_equal-length done (item w ws) h = cc
items_equal-length (item v vs) done h = cc
items_equal-length (item v vs) (item w ws) h = ground (arith, items_equal-length vs ws)

module _ ⦃k : Library⦄ where
  mutual
    unfolding diff_paths deep_equal

    diff_paths_iff :
        (a b : Value) (prefix : String) → (diff_paths a b prefix ≡ []) ↔ (deep_equal a b ≡ true)
    diff_paths_iff nil b prefix = unless_equal_iff (deep_equal nil b) prefix
    diff_paths_iff (boolean x) b prefix = unless_equal_iff (deep_equal (boolean x) b) prefix
    diff_paths_iff (int64 x) b prefix = unless_equal_iff (deep_equal (int64 x) b) prefix
    diff_paths_iff (float64 x) b prefix = unless_equal_iff (deep_equal (float64 x) b) prefix
    diff_paths_iff (text x) b prefix = unless_equal_iff (deep_equal (text x) b) prefix
    diff_paths_iff (slice vs) (slice ws) prefix =
        ground (arith, diff_items_iff vs ws prefix 0, items_equal-length vs ws)
    diff_paths_iff (slice vs) nil prefix = (λ h. cc, λ h. cc)
    diff_paths_iff (slice vs) (boolean x) prefix = (λ h. cc, λ h. cc)
    diff_paths_iff (slice vs) (int64 x) prefix = (λ h. cc, λ h. cc)
    diff_paths_iff (slice vs) (float64 x) prefix = (λ h. cc, λ h. cc)
    diff_paths_iff (slice vs) (text x) prefix = (λ h. cc, λ h. cc)
    diff_paths_iff (slice vs) (object n) prefix = (λ h. cc, λ h. cc)
    diff_paths_iff (object m) (object n) prefix =
        let keys = field_keys m ++ field_keys n in
        let here = All-iff keys λ key.
          paths_at_iff (next_path prefix key) (find_named key (value_differs m))
            (find_named key (value_tests m)) (lookup key n) (find-Agree m key) in
        let listed = All-sorted_keys_iff _ keys in
        let joined = join_paths-eq-nil_iff _ (sort_strings (without_repeats keys)) in
        let tested = all_iff _ keys in
        (
          λ h. tested.1 (here.0 (listed.0 (joined.0 h))),
          λ h. joined.1 (listed.1 (here.1 (tested.0 h))),
        )
    diff_paths_iff (object m) nil prefix = (λ h. cc, λ h. cc)
    diff_paths_iff (object m) (boolean x) prefix = (λ h. cc, λ h. cc)
    diff_paths_iff (object m) (int64 x) prefix = (λ h. cc, λ h. cc)
    diff_paths_iff (object m) (float64 x) prefix = (λ h. cc, λ h. cc)
    diff_paths_iff (object m) (text x) prefix = (λ h. cc, λ h. cc)
    diff_paths_iff (object m) (slice ws) prefix = (λ h. cc, λ h. cc)

    diff_items_iff :
        (vs ws : Items) (prefix : String) (i : ℕ)
        → length_items vs ≡ length_items ws
        → (diff_items vs ws prefix i ≡ []) ↔ (items_equal vs ws ≡ true)
    diff_items_iff done done prefix i e = (λ h. refl, λ h. refl)
    diff_items_iff done (item w ws) prefix i e = absurd (omega (arith, e))
    diff_items_iff (item v vs) done prefix i e = absurd (omega (arith, e))
    diff_items_iff (item v vs) (item w ws) prefix i e = ground (
      arith,
      append-eq-nil_iff (diff_paths v w (index_path prefix i)) (diff_items vs ws prefix (i + 1)),
      diff_paths_iff v w (index_path prefix i),
      diff_items_iff vs ws prefix (i + 1),
    )

    find-Agree :
        (m : Fields) (key : String)
        → Agree (find_named key (value_differs m)) (find_named key (value_tests m))
    find-Agree end key = tt
    find-Agree (field j v m) key = elim (Bool-cases (j == key)) [
      | inl e ↦ rw e (λ b path. diff_paths_iff v b path)
      | inr e ↦ rw e (find-Agree m key)
    ]

  -- Two values have no differing path if and only if they are deeply equal, maps in any order.
  pub diff_paths-eq-nil_iff :
      (a b : Value) (prefix : String) → (diff_paths a b prefix ≡ []) ↔ (deep_equal a b ≡ true)
  diff_paths-eq-nil_iff a b prefix = diff_paths_iff a b prefix
