-- ===== src/Base/Pieces.antt =====
-- Cutting a joined text, and texts without a separator.
use Prim.Native.Nat.{ℕ}
use Prim.Native.Char.{Char, code}
use Prim.Native.String.{String, ◌++◌ as append}
use mathlib.Core.Path.{◌≡◌, refl, ap, ◌∙◌}
use mathlib.Core.Logic.{inl, inr}
use mathlib.Core.Bool.{true, false}
use mathlib.Core.List.{List, [], ◌∷◌, ◌++◌}
use native.Mathlib.Omega.{arith}
use text.Mathlib.TextLemmas.{nil-append, cons-append}
use dual_deployment_operator.Base.Tests.{nat_eq, Bool-cases}
use dual_deployment_operator.Base.Lists.{All}
use dual_deployment_operator.Base.Text.{join}
use dual_deployment_operator.Base.Split.{pieces, split}

-- No character of the text is the separator.
abbrev pub Free : ℕ → String → Type 0
Free sep String.[] = Unit
Free sep (String.◌∷◌ c s) = (nat_eq (code c) sep ≡ false) × Free sep s

pieces_of_Free : (sep : ℕ) (s : String) → Free sep s → pieces sep s ≡ (s, [])
unfolding pieces
pieces_of_Free sep String.[] h = refl
pieces_of_Free sep (String.◌∷◌ c s) h = rw (h.0, pieces_of_Free sep s h.1)

module _ (sep : Char) where
  nat_eq_self : (n : ℕ) → nat_eq n n ≡ true
  nat_eq_self n = ground arith

  pieces-cons : (t : String) → pieces (code sep) (String.◌∷◌ sep t) ≡ ("", split (code sep) t)
  unfolding pieces
  pieces-cons t = rw (nat_eq_self (code sep))

  pieces-append :
      (s t : String)
      → pieces (code sep) (append s (String.◌∷◌ sep t))
        ≡ ((pieces (code sep) s).0, (pieces (code sep) s).1 ++ split (code sep) t)
  unfolding pieces
  pieces-append String.[] t = rw nil-append (pieces-cons t)
  pieces-append (String.◌∷◌ c s) t = elim (Bool-cases (nat_eq (code c) (code sep))) [
    | inl e ↦ rw cons-append (rw (e, pieces-append s t))
    | inr e ↦ rw cons-append (rw (e, pieces-append s t))
  ]

  pub split-append :
      (s t : String)
      → split (code sep) (append s (String.◌∷◌ sep t)) ≡ split (code sep) s ++ split (code sep) t
  split-append s t = ap (λ p. p.0 ∷ p.1) (pieces-append s t)

  pub split_of_Free : (s : String) → Free (code sep) s → split (code sep) s ≡ s ∷ []
  split_of_Free s h = ap (λ p. p.0 ∷ p.1) (pieces_of_Free (code sep) s h)

  pub split-join :
      (s : String) (ss : List String)
      → Free (code sep) s
      → All (Free (code sep)) ss
      → split (code sep) (join (String.◌∷◌ sep "") (s ∷ ss)) ≡ s ∷ ss
  split-join s [] h hs = split_of_Free s h
  split-join s (t ∷ ss) h hs =
      let rest = join (String.◌∷◌ sep "") (t ∷ ss) in
      rw cons-append (
        rw nil-append (
          split-append s rest
          ∙ (ap (λ (xs : List String). xs ++ split (code sep) rest) (split_of_Free s h)
              ∙ ap (λ (xs : List String). s ∷ xs) (split-join t ss hs.0 hs.1))))
