-- ===== src/Base/Split.antt =====
-- Texts cut at a separator, and the order of texts.
use Prim.Native.Nat.{ℕ}
use Prim.Native.Char.{code}
use Prim.Native.String.{String, compare}
use mathlib.Core.Bool.{Bool}
use mathlib.Core.List.{List, [], ◌∷◌}
use text.Mathlib.Text.{is_lt}
use dual_deployment_operator.Base.Tests.{if◌then◌else◌, nat_eq}

abbrev pub text_less : String → String → Bool
text_less s t = is_lt (compare s t)

-- The part before the first separator, and the parts after it.
unfoldable pub pieces : ℕ → String → String × List String
pieces sep String.[] = ("", [])
pieces sep (String.◌∷◌ c s) =
    let (first, rest) = pieces sep s in
    if nat_eq (code c) sep then ("", first ∷ rest) else (String.◌∷◌ c first, rest)

-- `strings.Split` at one character.
abbrev pub split : ℕ → String → List String
split sep s = let (first, rest) = pieces sep s in first ∷ rest
