-- ===== src/Common/Shell.antt =====
-- `shlex.quote`, and how a POSIX shell splits the text of a command into words.
pub mod Quoted
use Prim.Native.Nat.{ℕ, zero, suc, ◌+◌, ◌/◌, ◌%◌}
use mathlib.Core.Bool.{Bool, true, false, not, ◌&&◌, ◌||◌}
use mathlib.Core.Option.{Option, none, some}
use mathlib.Core.List.{List, [], ◌∷◌, ◌++◌}
use uyuni_ai.Common.Tests.{◌==◌, ltb, leb, if◌then◌else◌}
use uyuni_ai.Common.Lists.{all, mem}
use uyuni_ai.Common.Text.{codes}

-- an ASCII letter or digit
abbrev pub is_alnum : ℕ → Bool
is_alnum c = leb b'0' c && leb c b'9' || (leb b'A' c && leb c b'Z' || leb b'a' c && leb c b'z')

-- what `shlex.quote` leaves as it is: `[\w@%+=:,./-]` in ASCII
abbrev pub is_safe : ℕ → Bool
is_safe c = is_alnum c || mem c (codes "_@%+=:,./-")

-- s.replace("'", "'\"'\"'")
abbrev pub escape : List ℕ → List ℕ
escape [] = []
escape (c ∷ cs) = let rest = escape cs in if c == b'\'' then codes "'\"'\"'" ++ rest else c ∷ rest

abbrev pub quoted : List ℕ → List ℕ
quoted s = b'\'' ∷ (escape s ++ b'\'' ∷ [])

-- shlex.quote(s)
abbrev pub quote : List ℕ → List ℕ
quote [] = codes "''"
quote (c ∷ cs) = if all is_safe (c ∷ cs) then c ∷ cs else quoted (c ∷ cs)

-- the decimal digits of a number, of which there are no more than the fuel and one
unfoldable pub decimal_on : ℕ → ℕ → List ℕ
decimal_on zero n = (b'0' + n % 10) ∷ []
decimal_on (suc fuel) n =
    let rest = decimal_on fuel (n / 10) in
    if ltb n 10 then (b'0' + n) ∷ [] else rest ++ (b'0' + n % 10) ∷ []

-- str(n)
abbrev pub decimal : ℕ → List ℕ
decimal n = decimal_on n n

-- what a shell reads: the words of the commands of a pipeline
pub data Part : Type 0 where
  word : List ℕ → Part
  bar : Part

-- What a shell reads in a text, if it begins between two words, inside a word, or between quotes. In
-- a word it is the rest of that word, with the parts after it. It is `none` where a quote is left
-- open, and where a character has a meaning beyond those of quotes, spaces and bars.
pub record Reading : Type 0 where
  pub outside : Option (List Part)
  pub plain : Option (List ℕ × List Part)
  pub single : Option (List ℕ × List Part)
  pub double : Option (List ℕ × List Part)

abbrev pub add_char : ℕ → Option (List ℕ × List Part) → Option (List ℕ × List Part)
add_char c none = none
add_char c (some (w, ps)) = some (c ∷ w, ps)

abbrev pub add_word : Option (List ℕ × List Part) → Option (List Part)
add_word none = none
add_word (some (w, ps)) = some (word w ∷ ps)

abbrev pub add_bar : Option (List Part) → Option (List Part)
add_bar none = none
add_bar (some ps) = some (bar ∷ ps)

abbrev pub end_word : Option (List Part) → Option (List ℕ × List Part)
end_word none = none
end_word (some ps) = some ([], ps)

-- the characters that are not read as themselves in a word
abbrev pub specials : List ℕ
specials = 9 ∷ 10 ∷ codes "&;<>()$`\\*?[]#~!{}^"

abbrev pub in_word : ℕ → Reading → Option (List ℕ × List Part)
in_word c r =
    if c == b'\''
    then r.single
    else if c == b'"'
    then r.double
    else if mem c specials
    then none
    else add_char c r.plain

abbrev pub read_char : ℕ → Reading → Reading
read_char c r = record {
  outside =
      if c == 32
      then r.outside
      else if c == b'|'
      then add_bar r.outside
      else add_word (in_word c r);
  plain =
      if c == 32
      then end_word r.outside
      else if c == b'|'
      then end_word (add_bar r.outside)
      else in_word c r;
  single = if c == b'\'' then r.plain else add_char c r.single;
  double =
      if c == b'"' then r.plain else if mem c (codes "$`\\!") then none else add_char c r.double;
}

pub readings : List ℕ → Reading
readings [] = record { outside = some []; plain = some ([], []); single = none; double = none }
readings (c ∷ cs) = read_char c (readings cs)

-- the words that a shell makes of the text
unfoldable pub shell_words : List ℕ → Option (List Part)
unfolding readings
shell_words s = (readings s).outside
