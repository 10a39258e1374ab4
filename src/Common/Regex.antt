-- ===== src/Common/Regex.antt =====
-- Regular expressions as Python's `re` searches with them, for the patterns of the program: the
-- states that a match may end in, of which `search` only asks whether there is one.
use Prim.Native.Nat.{ℕ, zero, suc, ◌+◌}
use Prim.Native.String.{String}
use mathlib.Core.Bool.{Bool, true, false, not, ◌&&◌, ◌||◌}
use mathlib.Core.Option.{Option, none, some}
use mathlib.Core.List.{List, [], ◌∷◌, ◌++◌}
use uyuni_ai.Common.Tests.{◌==◌, leb, if◌then◌else◌}
use uyuni_ai.Common.Lists.{is_nonempty, length}
use uyuni_ai.Common.Text.{codes}

abbrev pub is_digit : ℕ → Bool
is_digit c = leb b'0' c && leb c b'9'

-- `\w`; of the characters above ASCII it holds as `unicode` says
abbrev pub is_word : (ℕ → Bool) → ℕ → Bool
is_word unicode c =
    is_digit c
    || ((leb b'A' c && leb c b'Z')
        || ((leb b'a' c && leb c b'z') || (c == b'_' || (leb 128 c && unicode c))))

-- `\s` and `str.isspace`
abbrev pub is_space : ℕ → Bool
is_space c =
    c == 32
    || ((leb 9 c && leb c 13)
        || ((leb 28 c && leb c 31)
            || (c == 0x85
                || (c == 0xa0
                    || (c == 0x1680
                        || ((leb 0x2000 c && leb c 0x200a)
                            || (c == 0x2028
                                || (c == 0x2029
                                    || (c == 0x202f || (c == 0x205f || c == 0x3000))))))))))

-- What `(?i)` compares with a letter of a pattern: the lower case, where a dotted or dotless i, a
-- long s and the Kelvin sign count as i, s and k.
abbrev pub fold_code : ℕ → ℕ
fold_code c =
    if leb b'A' c && leb c b'Z'
    then c + 32
    else if c == 0x130 || c == 0x131
    then b'i'
    else if c == 0x17f
    then b's'
    else if c == 0x212a
    then b'k'
    else c

pub data Regex : Type 0 where
  empty : Regex
  one : (ℕ → Bool) → Regex
  boundary line_end : Regex
  seq alt : Regex → Regex → Regex
  star : Regex → Regex

-- a position: the character before it, and the text from it on
abbrev pub Position : Type 0
Position = Option ℕ × List ℕ

abbrev word_before : (ℕ → Bool) → Option ℕ → Bool
word_before u none = false
word_before u (some c) = is_word u c

abbrev word_after : (ℕ → Bool) → List ℕ → Bool
word_after u [] = false
word_after u (c ∷ _) = is_word u c

abbrev differ : Bool → Bool → Bool
differ true b = not b
differ false b = b

abbrev step : (ℕ → Bool) → Position → List Position
step p (before, []) = []
step p (before, c ∷ rest) = if p c then (some c, rest) ∷ [] else []

-- `$`: the end, or a newline that ends the text
abbrev ends_line : List ℕ → Bool
ends_line [] = true
ends_line (c ∷ []) = c == 10
ends_line (_ ∷ _ ∷ _) = false

pub concat : (Position → List Position) → List Position → List Position
concat f [] = []
concat f (x ∷ xs) = f x ++ concat f xs

-- no more rounds than characters, since the body of each star takes one
pub rounds : (Position → List Position) → ℕ → Position → List Position
rounds f zero at = at ∷ []
rounds f (suc n) at = at ∷ concat (rounds f n) (f at)

pub matches : (ℕ → Bool) → Regex → Position → List Position
matches u empty at = at ∷ []
matches u (one p) at = step p at
matches u boundary at = if differ (word_before u at.0) (word_after u at.1) then at ∷ [] else []
matches u line_end at = if ends_line at.1 then at ∷ [] else []
matches u (seq r s) at = concat (matches u s) (matches u r at)
matches u (alt r s) at = matches u r at ++ matches u s at
matches u (star r) at = rounds (matches u r) (length at.1) at

pub search_from : (ℕ → Bool) → Regex → Option ℕ → List ℕ → Bool
search_from u r before [] = is_nonempty (matches u r (before, []))
search_from u r before (c ∷ cs) =
    let later = search_from u r (some c) cs in is_nonempty (matches u r (before, c ∷ cs)) || later

-- re.search(r, text) is not None
unfoldable pub search : (ℕ → Bool) → Regex → List ℕ → Bool
unfolding search_from matches rounds concat
search u r text = search_from u r none text

-- a literal under `(?i)`
abbrev pub word_codes : List ℕ → Regex
word_codes [] = empty
word_codes (c ∷ cs) = seq (one (λ d. fold_code d == c)) (word_codes cs)

abbrev pub word : String → Regex
word s = word_codes (codes s)

-- the patterns one after another, or one of them
abbrev pub sequence : List Regex → Regex
sequence [] = empty
sequence (r ∷ rs) = seq r (sequence rs)

abbrev pub choice : Regex → List Regex → Regex
choice r [] = r
choice r (s ∷ rs) = alt r (choice s rs)

-- `\s`, `\s+`, `\s*`, `.`, `.*`
abbrev pub space : Regex
space = one is_space

abbrev pub spaces : Regex
spaces = seq space (star space)

abbrev pub blanks : Regex
blanks = star space

abbrev pub dot : Regex
dot = one (λ c. not (c == 10))

abbrev pub dots : Regex
dots = star dot
