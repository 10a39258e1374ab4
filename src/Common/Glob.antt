-- ===== src/Common/Glob.antt =====
-- `fnmatch.fnmatch` on the code points of a pattern and a name.
use Prim.Native.Nat.{ℕ, zero, suc}
use mathlib.Core.Bool.{Bool, true, false, not, ◌&&◌, ◌||◌}
use mathlib.Core.Option.{Option, none, some}
use mathlib.Core.List.{List, [], ◌∷◌}
use uyuni_ai.Common.Tests.{◌==◌, leb, if◌then◌else◌}
use uyuni_ai.Common.Lists.{length}
use uyuni_ai.Common.Branch.{on_option}

-- the parts of a pattern; a set has its ranges, and whether it is negated
pub data Token : Type 0 where
  any_text any_char : Token
  literal : ℕ → Token
  set : Bool → List (ℕ × ℕ) → Token

-- the characters before the next `]`, and what follows it
abbrev until_bracket : List ℕ → Option (List ℕ × List ℕ)
until_bracket [] = none
until_bracket (c ∷ cs) =
    let rest = until_bracket cs in
    if c == b']' then some ([], cs) else on_option rest none (λ (s, after). some (c ∷ s, after))

-- a set whose first character counts even if it is `]`
abbrev set_text : List ℕ → Option (List ℕ × List ℕ)
set_text [] = none
set_text (c ∷ cs) = on_option (until_bracket cs) none (λ (s, after). some (c ∷ s, after))

-- the ranges of a set
abbrev ranges : ℕ → List ℕ → List (ℕ × ℕ)
ranges zero _ = []
ranges (suc n) [] = []
ranges (suc n) (a ∷ []) = (a, a) ∷ []
ranges (suc n) (a ∷ b ∷ []) = (a, a) ∷ (b, b) ∷ []
ranges (suc n) (a ∷ b ∷ c ∷ rest) =
    let far = ranges n rest in
    let near = ranges n (b ∷ c ∷ rest) in if b == b'-' then (a, c) ∷ far else (a, a) ∷ near

-- a set after its `[`, and what follows it
abbrev read_set : List ℕ → Option (Token × List ℕ)
read_set [] = none
read_set (c ∷ cs) =
    if c == b'!'
    then on_option (set_text cs) none (λ (s, after). some (set true (ranges (length s) s), after))
    else on_option (set_text (c ∷ cs)) none
        λ (s, after). some (set false (ranges (length s) s), after)

-- the tokens of a pattern, each of at least one character; a `[` without a `]` is a literal
pub tokens : ℕ → List ℕ → List Token
tokens zero _ = []
tokens (suc n) [] = []
tokens (suc n) (c ∷ cs) =
    let rest = tokens n cs in
    if c == b'*'
    then any_text ∷ rest
    else if c == b'?'
    then any_char ∷ rest
    else if c == b'['
    then on_option (read_set cs) (literal c ∷ rest) (λ (t, after). t ∷ tokens n after)
    else literal c ∷ rest

abbrev in_ranges : ℕ → List (ℕ × ℕ) → Bool
in_ranges c [] = false
in_ranges c ((a, b) ∷ rest) = leb a c && leb c b || in_ranges c rest

-- a rest of the text that passes the test
abbrev some_rest : (List ℕ → Bool) → List ℕ → Bool
some_rest p [] = p []
some_rest p (c ∷ cs) = p (c ∷ cs) || some_rest p cs

-- the text after its first character, if that passes the test
abbrev after_char : (ℕ → Bool) → (List ℕ → Bool) → List ℕ → Bool
after_char p next [] = false
after_char p next (c ∷ cs) = p c && next cs

pub match_tokens : List Token → List ℕ → Bool
match_tokens [] [] = true
match_tokens [] (_ ∷ _) = false
match_tokens (any_text ∷ ts) text = some_rest (match_tokens ts) text
match_tokens (any_char ∷ ts) text = after_char (λ _. true) (match_tokens ts) text
match_tokens (literal c ∷ ts) text = after_char (λ d. d == c) (match_tokens ts) text
match_tokens (set true rs ∷ ts) text = after_char (λ d. not (in_ranges d rs)) (match_tokens ts) text
match_tokens (set false rs ∷ ts) text = after_char (λ d. in_ranges d rs) (match_tokens ts) text

-- fnmatch(name, pattern)
unfoldable pub fnmatch : List ℕ → List ℕ → Bool
unfolding tokens match_tokens
fnmatch name pattern = match_tokens (tokens (length pattern) pattern) name
