-- ===== src/Common/Text.antt =====
-- Texts: `str.lower`, `==` and the code points, for what the program does with them.
use Prim.Native.Nat.{ℕ, zero, suc, ◌-◌}
use Prim.Native.Char.{Char, code}
use Prim.Native.String.{String}
use mathlib.Core.Bool.{Bool, true, false, ◌&&◌, ◌||◌}
use mathlib.Core.Option.{Option, none, some}
use mathlib.Core.List.{List, [], ◌∷◌}
use text.Mathlib.Text.{◌==◌ as str_eq}
use uyuni_ai.Common.Tests.{ltb, leb, ◌==◌, if◌then◌else◌}

abbrev pub codes : String → List ℕ
codes String.[] = []
codes (String.◌∷◌ c s) = code c ∷ codes s

abbrev nth : String → ℕ → Char → Char
nth String.[] n c = c
nth (String.◌∷◌ d s) zero c = d
nth (String.◌∷◌ d s) (suc n) c = nth s n c

-- `str.lower` on the ASCII letters; every word that the program compares with is ASCII.
abbrev pub lower_char : Char → Char
lower_char c =
    if leb b'A' (code c) && leb (code c) b'Z'
    then nth "abcdefghijklmnopqrstuvwxyz" (code c - b'A') c
    else c

abbrev pub lower : String → String
lower String.[] = String.[]
lower (String.◌∷◌ c s) = String.◌∷◌ (lower_char c) (lower s)

-- s.lower() == word
abbrev pub lower_is : String → String → Bool
lower_is s word = str_eq (lower s) word

-- s or ""
abbrev pub text_or_empty : Option String → String
text_or_empty none = ""
text_or_empty (some s) = s

-- s < t, of texts by their code points
abbrev pub codes_lt : List ℕ → List ℕ → Bool
codes_lt [] [] = false
codes_lt [] (_ ∷ _) = true
codes_lt (_ ∷ _) [] = false
codes_lt (a ∷ as') (b ∷ bs) = ltb a b || (a == b && codes_lt as' bs)

-- the text, unless it is None or empty
abbrev pub given : Option String → Option String
given none = none
given (some s) = if str_eq s "" then none else some s
