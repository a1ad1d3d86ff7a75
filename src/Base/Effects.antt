-- ===== src/Base/Effects.antt =====
-- Calls that act on the outside world: a state monad, the errors of Go, and the properties of the
-- world that an action keeps.
use mathlib.Core.Path.{◌≡◌, refl}
use mathlib.Core.Logic.{◌⊎◌, inl, inr}
use mathlib.Core.Bool.{Bool, true, false}
use mathlib.Core.List.{List, ◌∷◌}
use native.Mathlib.Omega.{arith}
use Prim.Native.String.{String, ◌++◌ as append}
use mathlib.Core.Option.{Option, none, some}
use dual_deployment_operator.Base.Tests.{if◌then◌else◌}

-- What `errors.Is`, `apierrors.IsNotFound` and `meta.IsNoMatchError` can tell of an error.
pub data ErrorKind : Type 0 where
  not_found no_match shoot_credentials_not_ready unkeyable other : ErrorKind

-- A non-nil `error`: what it wraps, and its text.
pub record Error : Type 0 where
  pub kind : ErrorKind
  pub message : String

abbrev pub is_not_found : Error → Bool
is_not_found e = elim e.kind [ not_found ↦ true | _ ↦ false ]

abbrev pub is_no_match_error : Error → Bool
is_no_match_error e = elim e.kind [ no_match ↦ true | _ ↦ false ]

abbrev pub plain : String → Error
plain text = record { kind = other; message = text }

-- `(value, error)`, where the value is used only if the error is nil.
pub data Result {ℓ} (A : Type ℓ) : Type ℓ where
  ok : A → Result A
  err : Error → Result A

-- One more value before the others, unless they have failed.
abbrev pub cons_ok {ℓ} : {A : Type ℓ} → A → Result (List A) → Result (List A)
cons_ok x (ok xs) = ok (x ∷ xs)
cons_ok x (err e) = err e

pub cons_ok-eq-ok {ℓ} :
    {A : Type ℓ} (x : A) (r : Result (List A)) (ys : List A)
    → cons_ok x r ≡ ok ys
    → (xs : List A) × (r ≡ ok xs) × (ys ≡ x ∷ xs)
cons_ok-eq-ok x (ok xs) ys h = (xs, refl, ground arith)
cons_ok-eq-ok x (err e) ys h = cc

pub Result-cases {ℓ} :
    {A : Type ℓ} (r : Result A) → ((e : Error) × (r ≡ err e)) ⊎ ((a : A) × (r ≡ ok a))
Result-cases (ok a) = inr (a, refl)
Result-cases (err e) = inl (e, refl)

abbrev pub M : Type 0 → Type 0 → Type 0
M S A = S → A × S

module _ {S A : Type 0} where
  abbrev pub pure : A → M S A
  pure a s = (a, s)

module _ {S A B : Type 0} where
  infixl 5 ◌>>=◌ ◌>>◌
  abbrev pub ◌>>=◌ : M S A → (A → M S B) → M S B
  ◌>>=◌ m f s = let (a, s') = m s in f a s'

  abbrev pub ◌>>◌ : M S A → M S B → M S B
  m >> n = m >>= λ _. n

module _ {S A B : Type 0} where
  abbrev pub or_return : (A → M S (Result B)) → Result A → M S (Result B)
  or_return f (ok a) = f a
  or_return f (err e) = pure (err e)

  -- The early return on an error.
  infixl 5 ◌>>?◌
  abbrev pub ◌>>?◌ : M S (Result A) → (A → M S (Result B)) → M S (Result B)
  m >>? f = m >>= or_return f

  or_return-ok :
      (f : A → M S (Result B)) (r : Result A) (s : S) (b : B)
      → (or_return f r s).0 ≡ ok b
      → (a : A) × (r ≡ ok a) × ((f a s).0 ≡ ok b)
  or_return-ok f (ok a) s b h = (a, refl, h)
  or_return-ok f (err e) s b h = cc

  -- A chain that succeeds has succeeded in both parts.
  pub chain-ok :
      (m : M S (Result A)) (f : A → M S (Result B)) (s : S) (b : B)
      → ((m >>? f) s).0 ≡ ok b
      → (a : A) × ((m s).0 ≡ ok a) × ((f a (m s).1).0 ≡ ok b)
  chain-ok m f s b h = or_return-ok f (m s).0 (m s).1 b h

module _ {S : Type 0} where
  -- A call that returns only an error.
  abbrev pub checked : M S (Option Error) → M S (Result (Unit {0}))
  checked m = m >>= λ e. pure (elim e [ none ↦ ok tt | some e ↦ err e ])

module _ {A : Type 0} where
  abbrev pub wrapped_result : String → Result A → Result A
  wrapped_result prefix (ok a) = ok a
  wrapped_result prefix (err e) = err (record e { message = append prefix e.message })

  wrapped_result-ok :
      (prefix : String) (r : Result A) (a : A) → wrapped_result prefix r ≡ ok a → r ≡ ok a
  wrapped_result-ok prefix (ok x) a h = h
  wrapped_result-ok prefix (err e) a h = cc

module _ {S A : Type 0} where
  -- The error of a call, wrapped by a message before it.
  abbrev pub wrapping : String → M S (Result A) → M S (Result A)
  wrapping prefix m = m >>= λ r. pure (wrapped_result prefix r)

  pub wrapping-ok :
      (prefix : String) (m : M S (Result A)) (s : S) (a : A)
      → (wrapping prefix m s).0 ≡ ok a
      → (m s).0 ≡ ok a
  wrapping-ok prefix m s a h = wrapped_result-ok prefix (m s).0 a h

-- `m` keeps `P`: what holds of the world before holds after.
pub record Keeps {S A : Type 0} (P : S → Type 0) (m : M S A) : Type 0 where
  pub at : (s : S) → P s → P (m s).1

module _ {S A : Type 0} {P : S → Type 0} where
  pub Keeps-pure : (a : A) → Keeps P (pure a)
  Keeps-pure a = record { at = λ s h. h }

  -- Each branch may use the value of its test.
  pub Keeps-if :
      (test : Bool) (first second : M S A)
      → (test ≡ true → Keeps P first)
      → (test ≡ false → Keeps P second)
      → Keeps P (if test then first else second)
  Keeps-if true first second on_yes on_no = on_yes refl
  Keeps-if false first second on_yes on_no = on_no refl

module _ {S A B : Type 0} {P : S → Type 0} where
  pub Keeps-bind :
      (m : M S A) (f : A → M S B) → Keeps P m → ((a : A) → Keeps P (f a)) → Keeps P (m >>= f)
  Keeps-bind m f km kf = record { at = λ s h. (kf (m s).0).at (m s).1 (km.at s h) }

module _ {S A B : Type 0} {P : S → Type 0} where
  Keeps-or_return :
      (f : A → M S (Result B)) (r : Result A) → ((a : A) → Keeps P (f a)) → Keeps P (or_return f r)
  Keeps-or_return f (ok a) keeps = keeps a
  Keeps-or_return f (err e) keeps = Keeps-pure (err e)

  pub Keeps-chain :
      (m : M S (Result A)) (f : A → M S (Result B))
      → Keeps P m
      → ((a : A) → Keeps P (f a))
      → Keeps P (m >>? f)
  Keeps-chain m f first rest = record {
    at = λ s p. (Keeps-or_return f (m s).0 rest).at (m s).1 (first.at s p);
  }

module _ {S : Type 0} {P : S → Type 0} where
  pub Keeps-checked : (m : M S (Option Error)) → Keeps P m → Keeps P (checked m)
  Keeps-checked m keeps = record { at = keeps.at }

module _ {S A : Type 0} {P : S → Type 0} where
  pub Keeps-wrapping :
      (prefix : String) (m : M S (Result A)) → Keeps P m → Keeps P (wrapping prefix m)
  Keeps-wrapping prefix m keeps = record { at = keeps.at }
