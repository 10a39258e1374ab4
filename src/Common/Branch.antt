-- ===== src/Common/Branch.antt =====
-- Branching on an option or a list, and rules to show something of a branch's result from each case.
use mathlib.Core.Path.{◌≡◌, refl}
use mathlib.Core.Bool.{Bool, true, false}
use mathlib.Core.Option.{Option, none, some}
use mathlib.Core.List.{List, [], ◌∷◌}
use uyuni_ai.Common.Tests.{if◌then◌else◌}

-- if o is None: … else: …
abbrev pub on_option {ℓ κ} : {A : Type ℓ} {B : Type κ} → Option A → B → (A → B) → B
on_option none b f = b
on_option (some a) b f = f a

-- if not xs: … else: …
abbrev pub on_list {ℓ κ} : {A : Type ℓ} {B : Type κ} → List A → B → (A → List A → B) → B
on_list [] b f = b
on_list (x ∷ xs) b f = f x xs

pub if_cases {ℓ κ} :
    {A : Type ℓ} (R : A → Type κ) (b : Bool) {x y : A}
    → (b ≡ true → R x)
    → (b ≡ false → R y)
    → R (if b then x else y)
if_cases R true h k = h refl
if_cases R false h k = k refl

pub on_option_cases {ℓ κ ι} :
    {A : Type ℓ} {B : Type κ} (R : B → Type ι) (o : Option A) {b : B} {f : A → B}
    → (o ≡ none → R b)
    → ((a : A) → o ≡ some a → R (f a))
    → R (on_option o b f)
on_option_cases R none h k = h refl
on_option_cases R (some a) h k = k a refl

pub on_list_cases {ℓ κ ι} :
    {A : Type ℓ} {B : Type κ} (R : B → Type ι) (xs : List A) {b : B} {f : A → List A → B}
    → (xs ≡ [] → R b)
    → ((y : A) (ys : List A) → xs ≡ y ∷ ys → R (f y ys))
    → R (on_list xs b f)
on_list_cases R [] h k = h refl
on_list_cases R (x ∷ xs) h k = k x xs refl
