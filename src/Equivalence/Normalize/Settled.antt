-- ===== src/Equivalence/Normalize/Settled.antt =====
-- What normalising leaves (normalize.go).
use dual_deployment_operator.Base.{◌≡◌, refl, ap, false, arith, Bool-cases, inl, inr}
use dual_deployment_operator.Json.{
  Value, nil, boolean, int64, float64, text, slice, object, Items, done, item, Fields, end, field,
}
use dual_deployment_operator.Equivalence.Normalize.{
  is_empty, prune_empties, prune_items, prune_fields, normalize,
}

-- No map in the value, at any depth, has a nil value or an empty map.
mutual
  pub NoEmpties : Value → Type 0
  NoEmpties nil = Unit
  NoEmpties (boolean b) = Unit
  NoEmpties (int64 n) = Unit
  NoEmpties (float64 s) = Unit
  NoEmpties (text s) = Unit
  NoEmpties (slice vs) = NoEmptiesItems vs
  NoEmpties (object m) = NoEmptiesFields m

  pub NoEmptiesItems : Items → Type 0
  NoEmptiesItems done = Unit
  NoEmptiesItems (item v vs) = NoEmpties v × NoEmptiesItems vs

  pub NoEmptiesFields : Fields → Type 0
  NoEmptiesFields end = Unit
  NoEmptiesFields (field key v m) = (is_empty v ≡ false) × NoEmpties v × NoEmptiesFields m

mutual
  unfolding prune_empties NoEmpties

  prune_empties-NoEmpties : (v : Value) → NoEmpties (prune_empties v)
  prune_empties-NoEmpties nil = tt
  prune_empties-NoEmpties (boolean b) = tt
  prune_empties-NoEmpties (int64 n) = tt
  prune_empties-NoEmpties (float64 s) = tt
  prune_empties-NoEmpties (text s) = tt
  prune_empties-NoEmpties (slice vs) = prune_items-NoEmptiesItems vs
  prune_empties-NoEmpties (object m) = prune_fields-NoEmptiesFields m

  prune_items-NoEmptiesItems : (vs : Items) → NoEmptiesItems (prune_items vs)
  prune_items-NoEmptiesItems done = tt
  prune_items-NoEmptiesItems (item v vs) =
      (prune_empties-NoEmpties v, prune_items-NoEmptiesItems vs)

  prune_fields-NoEmptiesFields : (m : Fields) → NoEmptiesFields (prune_fields m)
  prune_fields-NoEmptiesFields end = tt
  prune_fields-NoEmptiesFields (field key v m) =
      let rest = prune_fields-NoEmptiesFields m in
      let here = prune_empties-NoEmpties v in
      elim (Bool-cases (is_empty (prune_empties v))) [
        | inl e ↦ rw e rest
        | inr e ↦ rw e (e, here, rest)
      ]

mutual
  unfolding prune_empties NoEmpties

  prune_empties_settled : (v : Value) → NoEmpties v → prune_empties v ≡ v
  prune_empties_settled nil h = refl
  prune_empties_settled (boolean b) h = refl
  prune_empties_settled (int64 n) h = refl
  prune_empties_settled (float64 s) h = refl
  prune_empties_settled (text s) h = refl
  prune_empties_settled (slice vs) h = ap slice (prune_items_settled vs h)
  prune_empties_settled (object m) h = ap object (prune_fields_settled m h)

  prune_items_settled : (vs : Items) → NoEmptiesItems vs → prune_items vs ≡ vs
  prune_items_settled done h = refl
  prune_items_settled (item v vs) h = rw (prune_empties_settled v h.0, prune_items_settled vs h.1)

  prune_fields_settled : (m : Fields) → NoEmptiesFields m → prune_fields m ≡ m
  prune_fields_settled end h = refl
  prune_fields_settled (field key v m) h =
      ground (arith, prune_empties_settled v h.1, prune_fields_settled m h.2)

-- A normalised object has no nil value and no empty map in any of its maps, at any depth, and to
-- normalise it again changes nothing.
pub normalize-NoEmptiesFields :
    (u : Fields) → NoEmptiesFields (normalize u) × (normalize (normalize u) ≡ normalize u)
unfolding normalize
normalize-NoEmptiesFields u = (
  prune_fields-NoEmptiesFields u,
  prune_fields_settled (prune_fields u) (prune_fields-NoEmptiesFields u),
)
