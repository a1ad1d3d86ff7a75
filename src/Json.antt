-- ===== src/Json.antt =====
-- `any`, `[]any` and `map[string]any`: the values of a Kubernetes manifest, and Go's operations on
-- maps. A map is an association list; the code that this development models never depends on the
-- order in which a map is iterated over.
use dual_deployment_operator.Base.{
  ℕ, suc, String, ◌≡◌, refl, Bool, Option, none, some, List, [], ◌∷◌, arith, ◌==◌, eq_iff,
  if◌then◌else◌, ℤ,
}

-- A float64 is kept by its printed form, since no operation of the program computes with one.
mutual
  pub data Value : Type 0 where
    nil : Value
    boolean : Bool → Value
    int64 : ℤ → Value
    float64 : String → Value
    text : String → Value
    slice : Items → Value
    object : Fields → Value

  pub data Items : Type 0 where
    done : Items
    item : Value → Items → Items

  pub data Fields : Type 0 where
    end : Fields
    field : String → Value → Fields → Fields

-- v, ok := m[k]
unfoldable pub lookup : String → Fields → Option Value
lookup k end = none
lookup k (field j v m) = if j == k then some v else lookup k m

-- m[k] = v
unfoldable pub insert : String → Value → Fields → Fields
insert k v end = field k v end
insert k v (field j w m) = if j == k then field k v m else field j w (insert k v m)

-- delete(m, k)
unfoldable pub delete : String → Fields → Fields
delete k end = end
delete k (field j v m) = if j == k then delete k m else field j v (delete k m)

-- len(m)
abbrev pub size : Fields → ℕ
size end = 0
size (field k v m) = suc (size m)

pub lookup-insert :
    (k j : String) (v : Value) (m : Fields)
    → lookup j (insert k v m) ≡ (if k == j then some v else lookup j m)
unfolding lookup insert
lookup-insert k j v end = refl
lookup-insert k j v (field i w m) =
    ground (arith, eq_iff k j, eq_iff i k, eq_iff i j, lookup-insert k j v m)

pub lookup-delete :
    (k j : String) (m : Fields) → lookup j (delete k m) ≡ (if k == j then none else lookup j m)
unfolding lookup delete
lookup-delete k j end = ground arith
lookup-delete k j (field i w m) =
    ground (arith, eq_iff k j, eq_iff i k, eq_iff i j, lookup-delete k j m)

-- `map[string]string`, and the value "" of a missing key.
abbrev pub StringMap : Type 0
StringMap = List (String × String)

unfoldable pub get_text : String → StringMap → String
get_text k [] = ""
get_text k ((j, v) ∷ m) = if j == k then v else get_text k m

unfoldable pub put_text : String → String → StringMap → StringMap
put_text k v [] = (k, v) ∷ []
put_text k v ((j, w) ∷ m) = if j == k then (k, v) ∷ m else (j, w) ∷ put_text k v m

unfoldable pub delete_text : String → StringMap → StringMap
delete_text k [] = []
delete_text k ((j, v) ∷ m) = if j == k then delete_text k m else (j, v) ∷ delete_text k m

pub get_text-put_text :
    (k j v : String) (m : StringMap)
    → get_text j (put_text k v m) ≡ (if k == j then v else get_text j m)
unfolding get_text put_text
get_text-put_text k j v [] = refl
get_text-put_text k j v ((i, w) ∷ m) =
    ground (arith, eq_iff k j, eq_iff i k, eq_iff i j, get_text-put_text k j v m)

pub get_text-delete_text :
    (k j : String) (m : StringMap)
    → get_text j (delete_text k m) ≡ (if k == j then "" else get_text j m)
unfolding get_text delete_text
get_text-delete_text k j [] = ground arith
get_text-delete_text k j ((i, w) ∷ m) =
    ground (arith, eq_iff k j, eq_iff i k, eq_iff i j, get_text-delete_text k j m)
