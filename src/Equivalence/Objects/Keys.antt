-- ===== src/Equivalence/Objects/Keys.antt =====
-- What a set of objects holds under its keys.
use dual_deployment_operator.Base.{
  ◌≡◌, refl, ◌∙◌, String, Option, none, some, List, [], ◌∷◌, ◌++◌, ◌==◌, arith, if◌then◌else◌,
  Option-cases, inl, inr,
}
use dual_deployment_operator.Json.{Fields}
use dual_deployment_operator.Library.{Library}
use dual_deployment_operator.Equivalence.Objects.{
  ObjectSet, find_object, put_object, find-put_object, key_of_object, put_all,
}

abbrev pub or_else {ℓ} : {A : Type ℓ} → Option A → Option A → Option A
or_else none other = other
or_else (some x) other = some x

module _ ⦃k : Library⦄ where
  -- The last of the objects with a key.
  abbrev pub last_of : String → List Fields → Option Fields
  last_of key [] = none
  last_of key (u ∷ us) = or_else (last_of key us) (if key_of_object u == key then some u else none)

  pub find-put_all :
      (key : String) (us : List Fields) (set : ObjectSet)
      → find_object key (put_all us set) ≡ or_else (last_of key us) (find_object key set)
  unfolding put_all
  find-put_all key [] set = refl
  find-put_all key (u ∷ us) set =
      find-put_all key us (put_object (key_of_object u) u set)
      ∙ rw (find-put_object (key_of_object u) key u set) (elim (Option-cases (last_of key us)) [
        | inl e ↦ rw e (ground arith)
        | inr (v, e) ↦ rw e refl
      ])

  pub put_all-append :
      (us vs : List Fields) (set : ObjectSet) → put_all (us ++ vs) set ≡ put_all vs (put_all us set)
  unfolding put_all
  put_all-append [] vs set = refl
  put_all-append (u ∷ us) vs set = put_all-append us vs (put_object (key_of_object u) u set)
