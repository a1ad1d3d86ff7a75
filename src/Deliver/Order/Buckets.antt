-- ===== src/Deliver/Order/Buckets.antt =====
-- A stable sort by a small key lists the classes of the key one after the other, each in the order
-- of the input.
use dual_deployment_operator.Base.{
  ℕ, zero, suc, ◌≤◌, ◌<◌, ◌≡◌, refl, sym, ap, ◌∙◌, inl, inr, Bool, List, [], ◌∷◌, ◌++◌, arith, ltb,
  nat_eq, Bool-cases, keep, All, All-append,
}
use dual_deployment_operator.Deliver.Order.{place_stable, sort_stable}

module _ {A : Type 0} (key : A → ℕ) where
  -- The elements with key `c`, in order.
  abbrev pub class : ℕ → List A → List A
  class c = keep (λ x. nat_eq (key x) c)

  -- The classes 0, 1, …, n - 1.
  abbrev pub classes : ℕ → List A → List A
  classes zero xs = []
  classes (suc n) xs = classes n xs ++ class n xs

  abbrev by_key : A → A → Bool
  by_key a b = ltb (key a) (key b)

  All-class : (c : ℕ) (xs : List A) → All (λ y. key y ≡ c) (class c xs)
  All-class c [] = tt
  All-class c (x ∷ xs) = ground (arith, All-class c xs)

  place-skip :
      (x : A) (ys zs : List A)
      → All (λ y. key y < key x) ys
      → place_stable by_key x (ys ++ zs) ≡ ys ++ place_stable by_key x zs
  unfolding place_stable
  place-skip x [] zs h = refl
  place-skip x (y ∷ ys) zs h = ground (arith, place-skip x ys zs h.1)

  place-stop :
      (x : A) (ys zs : List A)
      → All (λ z. key x ≤ key z) zs
      → place_stable by_key x (ys ++ zs) ≡ place_stable by_key x ys ++ zs
  unfolding place_stable
  place-stop x [] [] h = refl
  place-stop x [] (z ∷ zs) h = ground arith
  place-stop x (y ∷ ys) zs h = ground (arith, place-stop x ys zs h)

  All-mono : {P Q : A → Type 0} (ys : List A) → ((y : A) → P y → Q y) → All P ys → All Q ys
  All-mono [] f h = tt
  All-mono (y ∷ ys) f h = (f y h.0, All-mono ys f h.1)

  All-classes : (n : ℕ) (xs : List A) → All (λ y. key y < n) (classes n xs)
  All-classes zero xs = tt
  All-classes (suc n) xs =
      All-append _ (classes n xs) (class n xs)
        (All-mono (classes n xs) (λ y h. omega arith) (All-classes n xs))
        (All-mono (class n xs) (λ y h. omega arith) (All-class n xs))

  classes-nil : (n : ℕ) → classes n [] ≡ []
  classes-nil zero = refl
  classes-nil (suc n) = rw (classes-nil n)

  classes-above : (x : A) (n : ℕ) (xs : List A) → n ≤ key x → classes n (x ∷ xs) ≡ classes n xs
  classes-above x zero xs h = refl
  classes-above x (suc n) xs h = ground (arith, classes-above x n xs)

  place-classes :
      (x : A) (n : ℕ) (xs : List A)
      → key x < n
      → place_stable by_key x (classes n xs) ≡ classes n (x ∷ xs)
  unfolding place_stable
  place-classes x zero xs h = elim h [ ]
  place-classes x (suc n) xs h = elim (Bool-cases (nat_eq (key x) n)) [
    | inl same ↦ place_last (ground arith)
    | inr other ↦
        (let below : key x < n = ground arith in
          place-stop x (classes n xs) (class n xs)
            (All-mono (class n xs) (λ y e. omega arith) (All-class n xs))
          ∙ ground (arith, place-classes x n xs below))
  ]
    where
      place_last :
          key x ≡ n
          → place_stable by_key x (classes n xs ++ class n xs)
            ≡ classes n (x ∷ xs) ++ class n (x ∷ xs)
      place_last e =
          place-skip x (classes n xs) (class n xs)
            (All-mono (classes n xs) (λ y h'. omega arith) (All-classes n xs))
          ∙ ap (◌++◌ (classes n xs)) (
              place-stop x [] (class n xs)
                (All-mono (class n xs) (λ y e'. omega arith) (All-class n xs)))
          ∙ ground (arith, classes-above x n xs)

  pub sort-classes :
      (n : ℕ) (xs : List A) → All (λ x. key x < n) xs → sort_stable by_key xs ≡ classes n xs
  unfolding sort_stable
  sort-classes n [] h = sym (classes-nil n)
  sort-classes n (x ∷ xs) h =
      ap (place_stable by_key x) (sort-classes n xs h.1) ∙ place-classes x n xs h.0

-- A sort keeps what holds of every element.
module _ {A : Type 0} (less : A → A → Bool) (P : A → Type 0) where
  All-place : (x : A) (ys : List A) → P x → All P ys → All P (place_stable less x ys)
  unfolding place_stable
  All-place x [] hx hs = (hx, tt)
  All-place x (y ∷ ys) hx hs = elim (Bool-cases (less y x)) [
    | inl e ↦ rw e (hs.0, All-place x ys hx hs.1)
    | inr e ↦ rw e (hx, hs)
  ]

  pub All-sort : (xs : List A) → All P xs → All P (sort_stable less xs)
  unfolding sort_stable
  All-sort [] h = tt
  All-sort (x ∷ xs) h = All-place x (sort_stable less xs) h.0 (All-sort xs h.1)

  All-of_place : (x : A) (ys : List A) → All P (place_stable less x ys) → P x × All P ys
  unfolding place_stable
  All-of_place x [] h = h
  All-of_place x (y ∷ ys) h = elim (Bool-cases (less y x)) [
    | inl e ↦
        (let placed : P y × All P (place_stable less x ys) = rw (e, place_stable) at h in
          let rest = All-of_place x ys placed.1 in (rest.0, (placed.0, rest.1)))
    | inr e ↦ rw (e, place_stable) at h
  ]

  pub All-of_sort : (xs : List A) → All P (sort_stable less xs) → All P xs
  unfolding sort_stable
  All-of_sort [] h = tt
  All-of_sort (x ∷ xs) h =
      let (first, rest) = All-of_place x (sort_stable less xs) h in (first, All-of_sort xs rest)
