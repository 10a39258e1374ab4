-- ===== src/Common/Shell/Quoted.antt =====
-- A shell reads back what `shlex.quote` has quoted.
use Prim.Native.Nat.{ℕ, zero, suc, ◌+◌, ◌<◌, ◌/◌, ◌%◌}
use mathlib.Core.Path.{◌≡◌, refl, ap, ◌∙◌, sym}
use mathlib.Core.Logic.{inl, inr}
use mathlib.Core.Bool.{Bool, true, false, not, ◌||◌}
use mathlib.Core.Option.{some}
use mathlib.Core.List.{List, [], ◌∷◌, ◌++◌}
use native.Mathlib.Omega.{arith}
use uyuni_ai.Common.Tests.{◌==◌, ==→eq, ltb→lt, le→leb, ltb, Bool-cases}
use uyuni_ai.Common.Lists.{all, mem, all-mem, is_nonempty}
use uyuni_ai.Common.Shell.{
  is_safe, escape, quote, decimal_on, Part, word, bar, Reading, add_char, add_word, add_bar,
  end_word, specials, in_word, read_char, readings,
}

-- the characters that have a meaning in a word
abbrev meaning : List ℕ
meaning = 32 ∷ b'|' ∷ b'\'' ∷ b'"' ∷ specials

append_nil : (s : List ℕ) → s ++ [] ≡ s
append_nil [] = refl
append_nil (c ∷ s) = ap (λ t. c ∷ t) (append_nil s)

append_assoc : (s t u : List ℕ) → (s ++ t) ++ u ≡ s ++ (t ++ u)
append_assoc [] t u = refl
append_assoc (c ∷ s) t u = ap (λ v. c ∷ v) (append_assoc s t u)

safe_meaning : (c : ℕ) → is_safe c ≡ true → mem c meaning ≡ false
safe_meaning c h = elim (Bool-cases (mem c meaning)) [
  | inl m ↦ cc (all-mem (λ d. not (is_safe d)) meaning c refl m)
  | inr m ↦ m
]

either : (a b : Bool) → (a || b) ≡ false → (a ≡ false) × (b ≡ false)
either true b h = cc
either false b h = (refl, h)

in_word-safe : (c : ℕ) (r : Reading) → mem c meaning ≡ false → in_word c r ≡ add_char c r.plain
in_word-safe c r h =
    let (_, h1) = either (c == 32) _ h in
    let (_, h2) = either (c == b'|') _ h1 in
    let (p, h3) = either (c == b'\'') _ h2 in let (q, s) = either (c == b'"') _ h3 in simp (p, q, s)

read_safe :
    (c : ℕ) (r : Reading) → mem c meaning ≡ false → (read_char c r).plain ≡ add_char c r.plain
read_safe c r h =
    let (a, h1) = either (c == 32) _ h in
    let (b, _) = either (c == b'|') _ h1 in let e = in_word-safe c r h in simp (a, b, e)

begin_safe :
    (c : ℕ) (r : Reading)
    → mem c meaning ≡ false
    → (read_char c r).outside ≡ add_word (add_char c r.plain)
begin_safe c r h =
    let (a, h1) = either (c == 32) _ h in
    let (b, _) = either (c == b'|') _ h1 in let e = in_word-safe c r h in simp (a, b, e)

plain-append :
    (s cs w : List ℕ) (ps : List Part)
    → all is_safe s ≡ true
    → (readings cs).plain ≡ some (w, ps)
    → (readings (s ++ cs)).plain ≡ some (s ++ w, ps)
unfolding readings
plain-append [] cs w ps h e = e
plain-append (c ∷ s) cs w ps h e =
    let m = safe_meaning c (ground arith) in
    read_safe c (readings (s ++ cs)) m ∙ ap (add_char c) (plain-append s cs w ps (ground arith) e)

-- a safe text that a space or the end follows is one word
pub safe_word :
    (c : ℕ) (s cs : List ℕ) (ps : List Part)
    → all is_safe (c ∷ s) ≡ true
    → (readings cs).plain ≡ some ([], ps)
    → (readings (c ∷ s ++ cs)).outside ≡ some (word (c ∷ s) ∷ ps)
unfolding readings
safe_word c s cs ps h e =
    let m = safe_meaning c (ground arith) in
    begin_safe c (readings (s ++ cs)) m
    ∙ ap (λ r. add_word (add_char c r)) (plain-append s cs [] ps (ground arith) e)
    ∙ ap (λ t. some (word (c ∷ t) ∷ ps)) (append_nil s)

single-append :
    (s cs : List ℕ) (ps : List Part)
    → (readings cs).plain ≡ some ([], ps)
    → (readings (escape s ++ b'\'' ∷ cs)).single ≡ some (s, ps)
unfolding readings
single-append [] cs ps e = e
single-append (c ∷ s) cs ps e = elim (Bool-cases (c == b'\'')) [
  | inl q ↦
      let e' = single-append s cs ps e in
      rw q (ap (add_char b'\'') e' ∙ ap (λ d. some (d ∷ s, ps)) (sym (==→eq c b'\'' q)))
  | inr q ↦ let e' = single-append s cs ps e in rw (q, q) (ap (add_char c) e')
]

-- what `shlex.quote` has made of a text is one word, that text
pub quote-word :
    (s cs : List ℕ) (ps : List Part)
    → (readings cs).plain ≡ some ([], ps)
    → (readings (quote s ++ cs)).outside ≡ some (word s ∷ ps)
unfolding readings
quote-word [] cs ps e = ap add_word e
quote-word (c ∷ s) cs ps e = elim (Bool-cases (all is_safe (c ∷ s))) [
  | inl q ↦ rw q (safe_word c s cs ps q e)
  | inr q ↦
      let u = append_assoc (escape (c ∷ s)) (b'\'' ∷ []) cs in
      rw q (ap (λ t. add_word (readings t).single) u ∙ ap add_word (single-append (c ∷ s) cs ps e))
]

pub safe_text :
    (s cs : List ℕ) (ps : List Part)
    → is_nonempty s ≡ true
    → all is_safe s ≡ true
    → (readings cs).plain ≡ some ([], ps)
    → (readings (s ++ cs)).outside ≡ some (word s ∷ ps)
safe_text [] cs ps h k e = cc
safe_text (c ∷ s) cs ps h k e = safe_word c s cs ps k e

pub space_ends :
    (cs : List ℕ) (ps : List Part)
    → (readings cs).outside ≡ some ps
    → (readings (32 ∷ cs)).plain ≡ some ([], ps)
unfolding readings
space_ends cs ps e = ap end_word e

pub all-append :
    (p : ℕ → Bool) (s t : List ℕ) → all p s ≡ true → all p t ≡ true → all p (s ++ t) ≡ true
all-append p [] t h k = k
all-append p (c ∷ s) t h k = ground (arith, all-append p s t)

pub nonempty-append : (s t : List ℕ) → is_nonempty t ≡ true → is_nonempty (s ++ t) ≡ true
nonempty-append [] t h = h
nonempty-append (c ∷ s) t h = refl

digit-safe : (n : ℕ) → n < 10 → all is_safe ((b'0' + n) ∷ []) ≡ true
digit-safe n h =
    let low = le→leb b'0' (b'0' + n) (omega arith) in
    let high = le→leb (b'0' + n) b'9' (omega arith) in simp (low, high)

-- a printed number is a safe text
pub decimal_on-safe :
    (fuel n : ℕ)
    → (is_nonempty (decimal_on fuel n) ≡ true) × (all is_safe (decimal_on fuel n) ≡ true)
unfolding decimal_on
decimal_on-safe zero n = (refl, digit-safe (n % 10) (omega arith))
decimal_on-safe (suc fuel) n = elim (Bool-cases (ltb n 10)) [
  | inl q ↦ rw q (refl, digit-safe n (ltb→lt n 10 q))
  | inr q ↦
      let last = digit-safe (n % 10) (omega arith) in
      let rest = (decimal_on-safe fuel (n / 10)).1 in
      rw q (
        nonempty-append (decimal_on fuel (n / 10)) ((b'0' + n % 10) ∷ []) refl,
        all-append is_safe (decimal_on fuel (n / 10)) ((b'0' + n % 10) ∷ []) rest last,
      )
]

pub text_ends : (readings []).plain ≡ some ([], [])
unfolding readings
text_ends = refl

pub quote_last : (s : List ℕ) → (readings (quote s)).outside ≡ some (word s ∷ [])
quote_last s =
    ap (λ t. (readings t).outside) (sym (append_nil (quote s))) ∙ quote-word s [] [] text_ends

pub safe_last :
    (s : List ℕ)
    → is_nonempty s ≡ true
    → all is_safe s ≡ true
    → (readings s).outside ≡ some (word s ∷ [])
safe_last s h k =
    ap (λ t. (readings t).outside) (sym (append_nil s)) ∙ safe_text s [] [] h k text_ends

pub bar_ends :
    (cs : List ℕ) (ps : List Part)
    → (readings cs).outside ≡ some ps
    → (readings (32 ∷ b'|' ∷ 32 ∷ cs)).plain ≡ some ([], bar ∷ ps)
unfolding readings
bar_ends cs ps e = ap (λ o. end_word (add_bar o)) e
