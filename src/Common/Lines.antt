-- ===== src/Common/Lines.antt =====
-- The methods of Python's `str` that the parsers of command output use.
use Prim.Native.Nat.{ℕ, zero, suc}
use Prim.Native.Char.{Char, code}
use Prim.Native.String.{String}
use package.text.Mathlib.Text.{◌==◌ as str_eq, starts_with}
use mathlib.Core.Bool.{Bool, ◌&&◌, ◌||◌}
use mathlib.Core.List.{List, [], ◌∷◌}
use uyuni_ai.Common.Tests.{◌==◌, leb, if◌then◌else◌}
use uyuni_ai.Common.Regex.{is_space}

-- s.lstrip(), of the characters that pass the test
abbrev pub lstrip_of : (ℕ → Bool) → String → String
lstrip_of p String.[] = String.[]
lstrip_of p (String.◌∷◌ c s) =
    let rest = lstrip_of p s in if p (code c) then rest else String.◌∷◌ c s

-- a character before a text that is stripped on its right
abbrev keep_right : Char → String → String
keep_right c String.[] = if is_space (code c) then String.[] else String.◌∷◌ c String.[]
keep_right c (String.◌∷◌ d s) = String.◌∷◌ c (String.◌∷◌ d s)

abbrev pub rstrip : String → String
rstrip String.[] = String.[]
rstrip (String.◌∷◌ c s) = keep_right c (rstrip s)

-- s.strip()
abbrev pub strip_text : String → String
strip_text s = rstrip (lstrip_of is_space s)

-- s[:n]
abbrev pub take_text : ℕ → String → String
take_text zero s = String.[]
take_text (suc n) String.[] = String.[]
take_text (suc n) (String.◌∷◌ c s) = String.◌∷◌ c (take_text n s)

-- needle in s
abbrev pub in_text : String → String → Bool
in_text needle String.[] = str_eq needle ""
in_text needle (String.◌∷◌ c s) = starts_with (String.◌∷◌ c s) needle || in_text needle s

-- s.endswith(suffix)
abbrev pub ends_with : String → String → Bool
ends_with String.[] suffix = str_eq suffix ""
ends_with (String.◌∷◌ c s) suffix = str_eq (String.◌∷◌ c s) suffix || ends_with s suffix

-- a character that ends a line for `str.splitlines`
abbrev pub is_line_end : ℕ → Bool
is_line_end c =
    (leb 10 c && leb c 13)
    || ((leb 0x1c c && leb c 0x1e) || (c == 0x85 || (c == 0x2028 || c == 0x2029)))

abbrev prepend : Char → List String → List String
prepend c [] = String.◌∷◌ c String.[] ∷ []
prepend c (line ∷ lines) = String.◌∷◌ c line ∷ lines

-- s.splitlines(); a carriage return and the newline after it end two lines here, of which the second
-- is empty, and the callers leave empty lines out
abbrev pub splitlines : String → List String
splitlines String.[] = []
splitlines (String.◌∷◌ c s) =
    let rest = splitlines s in if is_line_end (code c) then "" ∷ rest else prepend c rest

-- the first word of a text that does not start with a space, and what follows it
abbrev word_from : String → String × String
word_from String.[] = (String.[], String.[])
word_from (String.◌∷◌ c s) =
    let rest = word_from s in
    if is_space (code c) then (String.[], String.◌∷◌ c s) else (String.◌∷◌ c rest.0, rest.1)

-- s.split(None, n), of a text that is stripped
abbrev pub split_words : ℕ → String → List String
split_words zero String.[] = []
split_words zero (String.◌∷◌ c s) = String.◌∷◌ c s ∷ []
split_words (suc n) String.[] = []
split_words (suc n) (String.◌∷◌ c s) =
    let parts = word_from (String.◌∷◌ c s) in parts.0 ∷ split_words n (lstrip_of is_space parts.1)
