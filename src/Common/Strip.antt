-- ===== src/Common/Strip.antt =====
-- `str.strip` on the code points of a text.
use Prim.Native.Nat.{ℕ}
use mathlib.Core.List.{List, [], ◌∷◌}
use uyuni_ai.Common.Tests.{if◌then◌else◌}
use uyuni_ai.Common.Lists.{reverse}
use uyuni_ai.Common.Regex.{is_space}

abbrev pub drop_spaces : List ℕ → List ℕ
drop_spaces [] = []
drop_spaces (c ∷ cs) = let rest = drop_spaces cs in if is_space c then rest else c ∷ cs

-- text.strip()
unfoldable pub strip : List ℕ → List ℕ
strip text = reverse (drop_spaces (reverse (drop_spaces text)))
