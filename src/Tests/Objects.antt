-- ===== src/Tests/Objects.antt =====
-- Unstructured objects over the values of Json.antt: what the accessors of the examples are made of.
use dual_deployment_operator.Base.{
  String, Option, none, some, List, [], ◌∷◌, ◌==◌, if◌then◌else◌, Error, Result, ok, err, plain, ℤ,
}
use dual_deployment_operator.Json.{
  Value, int64, text, slice, object, Items, Fields, end, field, lookup, insert, delete, StringMap,
}
use dual_deployment_operator.Api.{Condition}

abbrev pub text_of : Option Value → String
text_of (some (text s)) = s
text_of _ = ""

abbrev pub fields_of : Option Value → Fields
fields_of (some (object m)) = m
fields_of _ = end

abbrev pub meta : Fields → Fields
meta u = fields_of (lookup "metadata" u)

abbrev pub set_meta : String → Value → Fields → Fields
set_meta key v u = insert "metadata" (object (insert key v (meta u))) u

abbrev pub to_fields : StringMap → Fields
to_fields [] = end
to_fields ((key, v) ∷ m) = field key (text v) (to_fields m)

abbrev pub of_fields : Fields → StringMap
of_fields end = []
of_fields (field key v m) = (key, text_of (some v)) ∷ of_fields m

abbrev pub map_of : Option Value → Option StringMap
map_of (some (object m)) = some (of_fields m)
map_of _ = none

abbrev pub set_map : String → Option StringMap → Fields → Fields
set_map key none u = insert "metadata" (object (delete key (meta u))) u
set_map key (some m) u = set_meta key (object (to_fields m)) u

-- The value at a path; an error where the path runs into a value that is no map.
unfoldable pub nested : List String → Fields → Result (Option Value)
nested [] u = ok none
nested (key ∷ []) u = ok (lookup key u)
nested (key ∷ next ∷ path) u = elim (lookup key u) [
  | some (object m) ↦ nested (next ∷ path) m
  | some _ ↦ err (plain "no map")
  | none ↦ ok none
]

unfoldable pub remove_at : List String → Fields → Fields
remove_at [] u = u
remove_at (key ∷ []) u = delete key u
remove_at (key ∷ next ∷ path) u = elim (lookup key u) [
  | some (object m) ↦ insert key (object (remove_at (next ∷ path) m)) u
  | _ ↦ u
]

abbrev pub inside : String → Fields → Result Fields → Result Fields
inside key u (ok m) = ok (insert key (object m) u)
inside key u (err e) = err e

unfoldable pub set_at : Value → List String → Fields → Result Fields
set_at v [] u = err (plain "no field")
set_at v (key ∷ []) u = ok (insert key v u)
set_at v (key ∷ next ∷ path) u = elim (lookup key u) [
  | some (object m) ↦ inside key u (set_at v (next ∷ path) m)
  | some _ ↦ err (plain "no map")
  | none ↦ inside key u (set_at v (next ∷ path) end)
]

abbrev pub as_slice : Result (Option Value) → Result (Option Items)
as_slice (ok none) = ok none
as_slice (ok (some (slice vs))) = ok (some vs)
as_slice (ok (some _)) = err (plain "no slice")
as_slice (err e) = err e

abbrev pub as_map : Result (Option Value) → Result (Option Fields)
as_map (ok none) = ok none
as_map (ok (some (object m))) = ok (some m)
as_map (ok (some _)) = err (plain "no map")
as_map (err e) = err e

abbrev pub as_string : Result (Option Value) → Result (Option String)
as_string (ok none) = ok none
as_string (ok (some (text s))) = ok (some s)
as_string (ok (some _)) = err (plain "no string")
as_string (err e) = err e

abbrev pub as_int64 : Result (Option Value) → Result (Option ℤ)
as_int64 (ok none) = ok none
as_int64 (ok (some (int64 n))) = ok (some n)
as_int64 (ok (some _)) = err (plain "no int64")
as_int64 (err e) = err e

abbrev pub first_error : List (Option Error) → Option Error
first_error [] = none
first_error (none ∷ errs) = first_error errs
first_error (some e ∷ errs) = some e

abbrev pub set_condition : List Condition → Condition → List Condition
set_condition [] c = c ∷ []
set_condition (d ∷ conds) c = if d.type == c.type then c ∷ conds else d ∷ set_condition conds c

abbrev pub without : String → List String → List String
without f [] = []
without f (g ∷ fs) = if g == f then without f fs else g ∷ without f fs

-- A stream is the name of a namespace, or empty.
abbrev pub documents_of : String → List (Result Fields)
documents_of s =
    if s == ""
    then []
    else ok (
        field "kind" (text "Namespace") (
          field "apiVersion" (text "v1")
            (field "metadata" (object (field "name" (text s) end)) end)))
      ∷ []
