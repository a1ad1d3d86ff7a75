-- ===== src/Equivalence/Objects.antt =====
-- internal/equivalence/set.go: objects under their version-independent key.
pub mod Keys
use dual_deployment_operator.Base.{
  String, Option, none, some, List, [], ◌∷◌, ◌==◌, ◌≡◌, refl, arith, eq_iff, if◌then◌else◌, join,
  map, text_less,
}
use dual_deployment_operator.Json.{Fields}
use dual_deployment_operator.Library.{Library, GroupVersionKind, with_kind}
use dual_deployment_operator.Deliver.Order.{sort_stable}

-- `sort.Strings`
unfoldable pub sort_strings : List String → List String
unfolding sort_stable
sort_strings = sort_stable text_less

-- A Go map from keys to objects, as an association list.
abbrev pub ObjectSet : Type 0
ObjectSet = List (String × Fields)

unfoldable pub find_object : String → ObjectSet → Option Fields
find_object key [] = none
find_object key ((j, u) ∷ set) = if j == key then some u else find_object key set

unfoldable pub put_object : String → Fields → ObjectSet → ObjectSet
put_object key u [] = (key, u) ∷ []
put_object key u ((j, v) ∷ set) = if j == key then (key, u) ∷ set else (j, v) ∷ put_object key u set

pub find-put_object :
    (key j : String) (u : Fields) (set : ObjectSet)
    → find_object j (put_object key u set) ≡ (if key == j then some u else find_object j set)
unfolding find_object put_object
find-put_object key j u [] = refl
find-put_object key j u ((i, v) ∷ set) =
    ground (arith, eq_iff key j, eq_iff i key, eq_iff i j, find-put_object key j u set)

abbrev pub object_keys : ObjectSet → List String
object_keys [] = []
object_keys ((j, u) ∷ set) = j ∷ object_keys set

unfoldable pub sorted_object_keys : ObjectSet → List String
unfolding sort_strings
sorted_object_keys set = sort_strings (object_keys set)

module _ ⦃k : Library⦄ where
  unfoldable pub key_of_object : Fields → String
  key_of_object u =
      let gvk = k.group_version_kind u in
      join "/" (gvk.group ∷ gvk.kind ∷ k.get_namespace u ∷ k.get_name u ∷ [])

  unfoldable pub schema_gvk : String → String → GroupVersionKind
  schema_gvk api_version kind = with_kind (k.parse_group_version api_version) kind

  -- set[KeyOf(u)] = u, for each object in turn
  unfoldable pub put_all : List Fields → ObjectSet → ObjectSet
  unfolding key_of_object
  put_all [] set = set
  put_all (u ∷ us) set = put_all us (put_object (key_of_object u) u set)
