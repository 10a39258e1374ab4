-- ===== src/Detector/Context.antt =====
-- The dictionary `Anomaly.context` (uyuni_ai_agent/anomaly_detector.py): Python's `dict.get` and
-- `dict.update` on it.
use package.text.Mathlib.Text.{◌==◌ as str_eq}
use uyuni_ai.Common.{ℕ, Bool, false, Option, none, some, List, [], ◌∷◌, String, if◌then◌else◌}
use uyuni_ai.Anomaly.{Value, number, flag, text, pairs, LockPair}

-- context.get(key)
unfoldable pub get : String → List (String × Value) → Option Value
get key [] = none
get key ((k, v) ∷ rest) = if str_eq k key then some v else get key rest

-- context[key] = value
pub set : String → Value → List (String × Value) → List (String × Value)
set key v [] = (key, v) ∷ []
set key v ((k, w) ∷ rest) = if str_eq k key then (k, v) ∷ rest else (k, w) ∷ set key v rest

-- context.update(new)
pub update : List (String × Value) → List (String × Value) → List (String × Value)
update [] context = context
update ((k, v) ∷ new) context = update new (set k v context)

-- a value that is a number
unfoldable pub as_number : Option Value → Option ℕ
as_number (some (number n)) = some n
as_number _ = none

-- a value that is a text, or the default
unfoldable pub as_text : String → Option Value → String
as_text default (some (text t)) = t
as_text default _ = default

-- a list of lock waits, empty by default
unfoldable pub as_pairs : Option Value → List LockPair
as_pairs (some (pairs ps)) = ps
as_pairs _ = []

-- whether a flag is set
pub as_flag : Option Value → Bool
as_flag (some (flag b)) = b
as_flag _ = false
