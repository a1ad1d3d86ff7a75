-- ===== src/Equivalence/Compare.antt =====
-- internal/equivalence/compare.go
pub mod Keys
pub mod Paths
pub mod Equal
use dual_deployment_operator.Base.{
  ℕ, ◌+◌, String, Bool, true, false, Option, none, some, List, [], ◌∷◌, ◌++◌, ◌==◌, ◌&&◌,
  if◌then◌else◌, map, all, one_of, join, concat, nat_eq, is_some, leb_ℤ,
}
use dual_deployment_operator.Json.{
  Value, nil, boolean, int64, float64, text, slice, object, Items, done, item, Fields, end, field,
  lookup, size,
}
use dual_deployment_operator.Library.{Library}
use dual_deployment_operator.Equivalence.Objects.{ObjectSet, find_object, sort_strings}
use dual_deployment_operator.Equivalence.Allowlist.{strip_allowlist}
use dual_deployment_operator.Equivalence.Normalize.{normalize}

pub record Report : Type 0 where
  pub mismatched : List String
  pub missing_op : List String
  pub extra_op : List String

abbrev pub is_nil {ℓ} : {A : Type ℓ} → List A → Bool
is_nil [] = true
is_nil (x ∷ xs) = false

-- Report.Equal
unfoldable pub reports_equal : Report → Bool
reports_equal r = is_nil r.mismatched && is_nil r.missing_op && is_nil r.extra_op

-- Each entry on a line of its own.
unfoldable pub report_lines : String → List String → String
report_lines label [] = ""
report_lines label (m ∷ ms) = concat (label ∷ m ∷ "\n" ∷ report_lines label ms ∷ [])

-- Report.String
unfoldable pub report_string : Report → String
unfolding report_lines
report_string r = concat (
    report_lines "MISMATCH " r.mismatched
    ∷ report_lines "MISSING on operator side: " r.missing_op
    ∷ report_lines "EXTRA on operator side: " r.extra_op
    ∷ [])

abbrev pub field_keys : Fields → List String
field_keys end = []
field_keys (field key v m) = key ∷ field_keys m

abbrev pub length_items : Items → ℕ
length_items done = 0
length_items (item v vs) = 1 + length_items vs

-- The keys of both maps, each once.
unfoldable pub without_repeats : List String → List String
without_repeats [] = []
without_repeats (key ∷ keys) =
    let rest = without_repeats keys in if one_of keys key then rest else key ∷ rest

abbrev pub find_named : {A : Type 0} → String → List (String × A) → Option A
find_named key [] = none
find_named key ((j, a) ∷ xs) = if j == key then some a else find_named key xs

abbrev pub same_boolean : Bool → Bool → Bool
same_boolean true b = b
same_boolean false b = if b then false else true

-- A key of either map: it has to be in both, with values that pass.
abbrev pub same_at : Option (Value → Bool) → Option Value → Bool
same_at (some test) (some w) = test w
same_at _ _ = false

-- `reflect.DeepEqual` on two values. Two maps are equal if they have the same keys with equal
-- values; the test of a value of the first map is kept under the value's key.
unfoldable mutual
  pub deep_equal : Value → Value → Bool
  deep_equal nil b = elim b [ nil ↦ true | _ ↦ false ]
  deep_equal (boolean x) b = elim b [ boolean y ↦ same_boolean x y | _ ↦ false ]
  deep_equal (int64 x) b = elim b [ int64 y ↦ leb_ℤ x y && leb_ℤ y x | _ ↦ false ]
  deep_equal (float64 x) b = elim b [ float64 y ↦ x == y | _ ↦ false ]
  deep_equal (text x) b = elim b [ text y ↦ x == y | _ ↦ false ]
  deep_equal (slice vs) b = elim b [ slice ws ↦ items_equal vs ws | _ ↦ false ]
  deep_equal (object m) b = elim b [
    | object n ↦
        all (λ key. same_at (find_named key (value_tests m)) (lookup key n))
          (field_keys m ++ field_keys n)
    | _ ↦ false
  ]

  pub items_equal : Items → Items → Bool
  items_equal done ws = elim ws [ done ↦ true | item w rest ↦ false ]
  items_equal (item v vs) ws = elim ws [
    | done ↦ false
    | item w rest ↦ deep_equal v w && items_equal vs rest
  ]

  pub value_tests : Fields → List (String × (Value → Bool))
  value_tests end = []
  value_tests (field key v m) = (key, deep_equal v) ∷ value_tests m

-- nextPath
unfoldable pub next_path : String → String → String
next_path prefix key = if prefix == "" then key else concat (prefix ∷ "." ∷ key ∷ [])

-- The paths of one key: of its values if both maps have it, and else its own.
abbrev pub paths_at : String → Option (Value → String → List String) → Option Value → List String
paths_at path (some differ) (some w) = differ w path
paths_at path _ _ = path ∷ []

-- The paths of all keys, in the order of the list.
unfoldable pub join_paths : (String → List String) → List String → List String
join_paths f [] = []
join_paths f (key ∷ keys) = f key ++ join_paths f keys

abbrev pub unless_equal : Bool → String → List String
unless_equal true prefix = []
unless_equal false prefix = prefix ∷ []

module _ ⦃k : Library⦄ where
  abbrev pub index_path : String → ℕ → String
  index_path prefix i = concat (prefix ∷ "[" ∷ k.decimal i ∷ "]" ∷ [])

  unfoldable mutual
    unfolding deep_equal next_path join_paths without_repeats sort_strings

    pub diff_paths : Value → Value → String → List String
    diff_paths nil b prefix = unless_equal (deep_equal nil b) prefix
    diff_paths (boolean x) b prefix = unless_equal (deep_equal (boolean x) b) prefix
    diff_paths (int64 x) b prefix = unless_equal (deep_equal (int64 x) b) prefix
    diff_paths (float64 x) b prefix = unless_equal (deep_equal (float64 x) b) prefix
    diff_paths (text x) b prefix = unless_equal (deep_equal (text x) b) prefix
    diff_paths (slice vs) b prefix = elim b [
      | slice ws ↦
          (if nat_eq (length_items vs) (length_items ws)
            then diff_items vs ws prefix 0
            else prefix ∷ [])
      | _ ↦ prefix ∷ []
    ]
    diff_paths (object m) b prefix = elim b [
      | object n ↦
          join_paths
            (λ key.
              paths_at (next_path prefix key) (find_named key (value_differs m)) (lookup key n))
            (sort_strings (without_repeats (field_keys m ++ field_keys n)))
      | _ ↦ prefix ∷ []
    ]

    -- The loop over two slices of one length, from the index `i`.
    pub diff_items : Items → Items → String → ℕ → List String
    diff_items done ws prefix i = []
    diff_items (item v vs) ws prefix i = elim ws [
      | done ↦ []
      | item w rest ↦ diff_paths v w (index_path prefix i) ++ diff_items vs rest prefix (i + 1)
    ]

    pub value_differs : Fields → List (String × (Value → String → List String))
    value_differs end = []
    value_differs (field key v m) = (key, diff_paths v) ∷ value_differs m

  unfoldable pub display_key : Fields → String
  display_key u =
      join "/" (k.get_api_version u ∷ k.get_kind u ∷ k.get_namespace u ∷ k.get_name u ∷ [])

  -- prep
  unfoldable pub prepared_object : Fields → Fields
  unfolding strip_allowlist normalize
  prepared_object u = normalize (strip_allowlist u)

  abbrev pub mismatch : Fields → Fields → List String
  mismatch g o =
      if deep_equal (object g) (object o)
      then []
      else concat (
          display_key g
          ∷ " (fields differ: "
          ∷ join ", " (diff_paths (object g) (object o) "")
          ∷ ")"
          ∷ [])
        ∷ []

  -- What an object of one set says against its counterpart in the other, if there is one.
  unfoldable pub compare_found : Fields → Option Fields → List String
  unfolding deep_equal diff_paths display_key prepared_object
  compare_found g none = []
  compare_found g (some o) = mismatch (prepared_object g) (prepared_object o)

  unfoldable pub report_absent : Fields → Option Fields → List String
  unfolding display_key
  report_absent g none = display_key g ∷ []
  report_absent g (some o) = []

  -- The first loop: the mismatches.
  unfoldable pub mismatches : ObjectSet → ObjectSet → List String
  unfolding compare_found
  mismatches [] op = []
  mismatches ((key, g) ∷ golden) op = compare_found g (find_object key op) ++ mismatches golden op

  -- The objects of the first set whose key is not in the second: the rest of the first loop, and
  -- the second one.
  unfoldable pub only_in : ObjectSet → ObjectSet → List String
  unfolding report_absent
  only_in [] op = []
  only_in ((key, g) ∷ golden) op = report_absent g (find_object key op) ++ only_in golden op

  unfoldable pub compare_sets : ObjectSet → ObjectSet → Report
  unfolding mismatches only_in sort_strings
  compare_sets golden op = record {
    mismatched = sort_strings (mismatches golden op);
    missing_op = sort_strings (only_in golden op);
    extra_op = sort_strings (only_in op golden);
  }
