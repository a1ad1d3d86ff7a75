-- ===== src/Base/Text.antt =====
-- Texts: `strings.Join`, `fmt.Sprintf` as a concatenation, and sets of texts.
use Prim.Native.String.{String, ◌++◌ as append}
use mathlib.Core.Bool.{Bool, false, ◌||◌}
use mathlib.Core.List.{List, [], ◌∷◌}
use text.Mathlib.Text.{◌==◌}

abbrev pub text_append : String → String → String
text_append = append

-- The parts of a formatted message, one after the other.
abbrev pub concat : List String → String
concat [] = ""
concat (s ∷ ss) = append s (concat ss)

abbrev pub join : String → List String → String
join sep [] = ""
join sep (s ∷ []) = s
join sep (s ∷ t ∷ ss) = append s (append sep (join sep (t ∷ ss)))

abbrev pub one_of : List String → String → Bool
one_of [] s = false
one_of (t ∷ ts) s = s == t || one_of ts s
