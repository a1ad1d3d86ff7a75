-- ===== src/Equivalence/Normalize.antt =====
-- internal/equivalence/normalize.go: nil values and empty maps are taken out of maps.
pub mod Settled
use dual_deployment_operator.Base.{Bool, true, false, if◌then◌else◌, nat_eq}
use dual_deployment_operator.Json.{
  Value, nil, boolean, int64, float64, text, slice, object, Items, done, item, Fields, end, field,
  size,
}

abbrev pub is_empty : Value → Bool
is_empty nil = true
is_empty (object m) = nat_eq (size m) 0
is_empty _ = false

unfoldable mutual
  pub prune_empties : Value → Value
  prune_empties nil = nil
  prune_empties (boolean b) = boolean b
  prune_empties (int64 n) = int64 n
  prune_empties (float64 s) = float64 s
  prune_empties (text s) = text s
  prune_empties (slice vs) = slice (prune_items vs)
  prune_empties (object m) = object (prune_fields m)

  pub prune_items : Items → Items
  prune_items done = done
  prune_items (item v vs) = item (prune_empties v) (prune_items vs)

  pub prune_fields : Fields → Fields
  prune_fields end = end
  prune_fields (field key v m) =
      let rest = prune_fields m in
      let pruned = prune_empties v in if is_empty pruned then rest else field key pruned rest

unfoldable pub normalize : Fields → Fields
unfolding prune_empties
normalize u = prune_fields u
