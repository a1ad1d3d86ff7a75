-- ===== src/Base/Affixes.antt =====
-- Go's `strings` package, as far as the program uses it: a text's start and end, its first part, and
-- the trimming of one character.
use Prim.Native.Nat.{ℕ}
use Prim.Native.Char.{Char, code}
use Prim.Native.String.{String}
use mathlib.Core.Bool.{Bool, true, ◌||◌, ◌&&◌}
use mathlib.Core.Option.{Option, none, some}
use text.Mathlib.Text.{◌==◌}
use dual_deployment_operator.Base.Tests.{if◌then◌else◌, nat_eq, is_some, leb}

-- What follows a prefix.
unfoldable pub after_prefix : String → String → Option String
after_prefix String.[] s = some s
after_prefix (String.◌∷◌ c p) String.[] = none
after_prefix (String.◌∷◌ c p) (String.◌∷◌ d s) =
    let rest = after_prefix p s in if nat_eq (code c) (code d) then rest else none

abbrev pub text_or : String → Option String → String
text_or s none = s
text_or s (some t) = t

abbrev pub has_prefix : String → String → Bool
has_prefix s prefix = is_some (after_prefix prefix s)

abbrev pub trim_prefix : String → String → String
trim_prefix s prefix = text_or s (after_prefix prefix s)

unfoldable pub has_suffix : String → String → Bool
has_suffix String.[] t = "" == t
has_suffix (String.◌∷◌ c s) t = String.◌∷◌ c s == t || has_suffix s t

unfoldable pub trim_suffix : String → String → String
trim_suffix String.[] t = ""
trim_suffix (String.◌∷◌ c s) t =
    let rest = trim_suffix s t in if String.◌∷◌ c s == t then "" else String.◌∷◌ c rest

abbrev pub cut_here : Char → Option (String × String) → Option String → Option (String × String)
cut_here c rest (some after) = some ("", after)
cut_here c none none = none
cut_here c (some (before, after)) none = some (String.◌∷◌ c before, after)

-- `strings.Cut` at a separator that is not empty: what is before and after it, if it is found.
unfoldable pub cut : String → String → Option (String × String)
cut sep String.[] = none
cut sep (String.◌∷◌ c s) = cut_here c (cut sep s) (after_prefix sep (String.◌∷◌ c s))

unfoldable pub trim_left : ℕ → String → String
trim_left sep String.[] = ""
trim_left sep (String.◌∷◌ c s) =
    let rest = trim_left sep s in if nat_eq (code c) sep then rest else String.◌∷◌ c s

-- A character is dropped if nothing is left after it.
unfoldable pub trim_right : ℕ → String → String
trim_right sep String.[] = ""
trim_right sep (String.◌∷◌ c s) =
    let rest = trim_right sep s in
    if nat_eq (code c) sep && rest == "" then "" else String.◌∷◌ c rest

-- Whether every character passes a test of its code.
unfoldable pub every_char : (ℕ → Bool) → String → Bool
every_char test String.[] = true
every_char test (String.◌∷◌ c s) = test (code c) && every_char test s

abbrev pub between : ℕ → ℕ → ℕ → Bool
between low high n = leb low n && leb n high
