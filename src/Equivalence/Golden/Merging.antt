-- ===== src/Equivalence/Golden/Merging.antt =====
-- What a merge of values holds under a key (deepMerge in golden_render.go).
use dual_deployment_operator.Base.{
  String, ◌≡◌, refl, subst, ap, ◌∙◌, sym, Bool, Option, none, some, ◌==◌, if◌then◌else◌, arith,
  eq_iff, Bool-cases, inl, inr,
}
use dual_deployment_operator.Json.{
  Value, nil, boolean, int64, float64, text, slice, object, Fields, end, field, lookup, insert,
  lookup-insert,
}
use dual_deployment_operator.Equivalence.Golden.{
  merged_map, merged_value, merge_into, merge_value, deep_merge,
}

-- No key of a map is there twice, as in Go.
abbrev pub HasDistinctKeys : Fields → Type 0
HasDistinctKeys end = Unit
HasDistinctKeys (field key v m) = (lookup key m ≡ none) × HasDistinctKeys m

-- What is under a key once a second map is merged into a first one: two maps are merged, and else the
-- value of the second map wins, if it has one.
abbrev pub map_at : Option Value → Fields → Value
map_at (some (object base)) over = object (deep_merge base over)
map_at b over = object over

abbrev pub merged_at : Option Value → Option Value → Option Value
merged_at b none = b
merged_at b (some (object over)) = some (map_at b over)
merged_at b (some v) = some v

merged_map-at :
    (before : Option Value) (over : Fields)
    → merged_map before over (merge_value (object over)) ≡ map_at before over
unfolding deep_merge merge_value
merged_map-at none over = refl
merged_map-at (some nil) over = refl
merged_map-at (some (boolean b)) over = refl
merged_map-at (some (int64 i)) over = refl
merged_map-at (some (float64 t)) over = refl
merged_map-at (some (text t)) over = refl
merged_map-at (some (slice vs)) over = refl
merged_map-at (some (object base)) over = refl

merged_value-at :
    (before : Option Value) (v : Value)
    → some (merged_value before v (merge_value v)) ≡ merged_at before (some v)
merged_value-at before nil = refl
merged_value-at before (boolean b) = refl
merged_value-at before (int64 i) = refl
merged_value-at before (float64 t) = refl
merged_value-at before (text t) = refl
merged_value-at before (slice vs) = refl
merged_value-at before (object over) = ap some (merged_map-at before over)

lookup-merge_into :
    (key : String) (over base : Fields)
    → HasDistinctKeys over
    → lookup key (merge_into over base) ≡ merged_at (lookup key base) (lookup key over)
unfolding merge_into lookup
lookup-merge_into key end base h = refl
lookup-merge_into key (field j v over) base h =
    let value = merged_value (lookup j base) v (merge_value v) in
    let rest = lookup-merge_into key over (insert j value base) h.1 in
    let inserted = lookup-insert j key value base in
    elim (Bool-cases (j == key)) [
      | inl e ↦
          (let p : j ≡ key = ground (arith, eq_iff j key) in
            let gone : lookup key over ≡ none =
              subst (λ (x : String). lookup x over ≡ none) p h.0 in
            let found = inserted ∙ ap (λ (b : Bool). if b then some value else lookup key base) e in
            rest
            ∙ (ap (λ (o : Option Value). merged_at o (lookup key over)) found
                ∙ (ap (λ (o : Option Value). merged_at (some value) o) gone
                    ∙ (merged_value-at (lookup j base) v
                        ∙ (ap (λ (x : String). merged_at (lookup x base) (some v)) p
                            ∙ ap
                                (λ (b : Bool).
                                  merged_at (lookup key base)
                                    (if b then some v else lookup key over))
                                (sym e))))))
      | inr e ↦
          (rest
            ∙ (ap (λ (o : Option Value). merged_at o (lookup key over))
                  (inserted ∙ ap (λ (b : Bool). if b then some value else lookup key base) e)
                ∙ ap
                    (λ (b : Bool).
                      merged_at (lookup key base) (if b then some v else lookup key over))
                    (sym e)))
    ]

-- If no key of the second map is repeated, a merge of two maps has under each key: what the first map
-- has, if the second one has nothing; the merge of both values, if both are maps; and else the value
-- of the second map.
pub lookup-deep_merge :
    (key : String) (base over : Fields)
    → HasDistinctKeys over
    → lookup key (deep_merge base over) ≡ merged_at (lookup key base) (lookup key over)
unfolding deep_merge
lookup-deep_merge key base over h = lookup-merge_into key over base h
