-- ===== src/Equivalence/Compare/Keys.antt =====
-- Keys that are sorted and made unique (diffPaths in compare.go).
use dual_deployment_operator.Base.{
  ◌≡◌, refl, ◌↔◌, sym, subst, String, Bool, true, List, [], ◌∷◌, ◌++◌, ◌==◌, eq_iff, arith, all,
  All, one_of, Bool-cases, inl, inr, text_less,
}
use dual_deployment_operator.Deliver.Order.{place_stable, sort_stable}
use dual_deployment_operator.Deliver.Order.Buckets.{All-sort}
use dual_deployment_operator.Equivalence.Objects.{sort_strings}
use dual_deployment_operator.Equivalence.Compare.{without_repeats, join_paths}

pub all_iff :
    {A : Type 0} (p : A → Bool) (xs : List A) → (all p xs ≡ true) ↔ All (λ x. p x ≡ true) xs
all_iff p [] = (λ h. tt, λ h. refl)
all_iff p (x ∷ xs) = ground (arith, all_iff p xs)

pub append-eq-nil_iff : {A : Type 0} (xs ys : List A) → (xs ++ ys ≡ []) ↔ ((xs ≡ []) × (ys ≡ []))
append-eq-nil_iff [] ys = (λ h. (refl, h), λ h. h.1)
append-eq-nil_iff (x ∷ xs) ys = (λ h. cc, λ h. cc)

pub join_paths-eq-nil_iff :
    (f : String → List String) (keys : List String)
    → (join_paths f keys ≡ []) ↔ All (λ key. f key ≡ []) keys
unfolding join_paths
join_paths-eq-nil_iff f [] = (λ h. tt, λ h. refl)
join_paths-eq-nil_iff f (key ∷ keys) =
    ground (arith, append-eq-nil_iff (f key) (join_paths f keys), join_paths-eq-nil_iff f keys)

pub All-iff :
    {A : Type 0} {P Q : A → Type 0} (xs : List A) → ((x : A) → P x ↔ Q x) → All P xs ↔ All Q xs
All-iff [] f = (λ h. tt, λ h. tt)
All-iff (x ∷ xs) f =
    (λ h. ((f x).0 h.0, (All-iff xs f).0 h.1), λ h. ((f x).1 h.0, (All-iff xs f).1 h.1))

module _ {A : Type 0} (less : A → A → Bool) (P : A → Type 0) where
  All-of_place : (x : A) (ys : List A) → All P (place_stable less x ys) → P x × All P ys
  unfolding place_stable
  All-of_place x [] h = h
  All-of_place x (y ∷ ys) h = elim (Bool-cases (less y x)) [
    | inl e ↦
        (let placed = rw (e, place_stable) at h in
          let rest = All-of_place x ys placed.1 in (rest.0, (placed.0, rest.1)))
    | inr e ↦ (let placed = rw (e, place_stable) at h in placed)
  ]

  pub All-of_sort : (xs : List A) → All P (sort_stable less xs) → All P xs
  unfolding sort_stable
  All-of_sort [] h = tt
  All-of_sort (x ∷ xs) h =
      let placed = All-of_place x (sort_stable less xs) h in (placed.0, All-of_sort xs placed.1)

module _ (P : String → Type 0) where
  All-one_of : (keys : List String) (key : String) → one_of keys key ≡ true → All P keys → P key
  All-one_of [] key e h = cc
  All-one_of (j ∷ keys) key e h = elim (Bool-cases (key == j)) [
    | inl same ↦ subst P (sym ((eq_iff key j).0 same)) h.0
    | inr other ↦ All-one_of keys key (ground arith) h.1
  ]

  All-without_repeats_iff : (keys : List String) → All P (without_repeats keys) ↔ All P keys
  unfolding without_repeats
  All-without_repeats_iff [] = (λ h. tt, λ h. tt)
  All-without_repeats_iff (key ∷ keys) =
      let rest = All-without_repeats_iff keys in
      elim (Bool-cases (one_of keys key)) [
        | inl e ↦ rw e (λ h. (All-one_of keys key e (rest.0 h), rest.0 h), λ h. rest.1 h.1)
        | inr e ↦ rw e (λ h. (h.0, rest.0 h.1), λ h. (h.0, rest.1 h.1))
      ]

  -- The keys that a comparison goes through are those of its list.
  pub All-sorted_keys_iff :
      (keys : List String) → All P (sort_strings (without_repeats keys)) ↔ All P keys
  unfolding sort_strings
  All-sorted_keys_iff keys =
      let repeats = All-without_repeats_iff keys in
      (
        λ h. repeats.0 (All-of_sort _ P (without_repeats keys) h),
        λ h. All-sort _ P (without_repeats keys) (repeats.1 h),
      )

place-ne-nil :
    {A : Type 0} (less : A → A → Bool) (x : A) (ys : List A) → place_stable less x ys ≡ [] → ⊥
unfolding place_stable
place-ne-nil less x [] h = cc
place-ne-nil less x (y ∷ ys) h = ground arith

pub sort_strings-eq-nil_iff : (xs : List String) → (sort_strings xs ≡ []) ↔ (xs ≡ [])
unfolding sort_strings sort_stable
sort_strings-eq-nil_iff [] = (λ h. refl, λ h. refl)
sort_strings-eq-nil_iff (x ∷ xs) =
    (λ h. absurd (place-ne-nil text_less x (sort_strings xs) h), λ h. cc)
