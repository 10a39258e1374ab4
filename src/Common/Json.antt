-- ===== src/Common/Json.antt =====
-- What `response.json()` gives, and what Python raises where a value has not the expected shape. An
-- object has a key once; `Items` and `Fields` are the lists inside an array and an object.
use Prim.Native.Nat.{ℕ, zero, suc}
use Prim.Native.String.{String}
use package.text.Mathlib.Text.{◌==◌ as str_eq}
use mathlib.Core.Bool.{Bool}
use mathlib.Core.Option.{Option, none, some}
use uyuni_ai.Common.Tests.{if◌then◌else◌}
use uyuni_ai.Common.Int.{Float}
use uyuni_ai.Common.Result.{Result, ok, err}

mutual
  pub data Json : Type 0 where
    null : Json
    bool : Bool → Json
    num : Float → Json
    str : String → Json
    array : Items → Json
    object : Fields → Json

  pub data Items : Type 0 where
    no_items : Items
    item : Json → Items → Items

  pub data Fields : Type 0 where
    no_fields : Fields
    field : String → Json → Fields → Fields

-- the exceptions of a subscript, an attribute or `float`
pub data Raised : Type 0 where
  attribute_error key_error index_error type_error value_error overflow_error : Raised

-- d.get(key)
abbrev pub member : String → Fields → Option Json
member key no_fields = none
member key (field k v rest) = if str_eq k key then some v else member key rest

abbrev pub nth_item : ℕ → Items → Result Raised Json
nth_item n no_items = err index_error
nth_item zero (item v rest) = ok v
nth_item (suc n) (item v rest) = nth_item n rest

-- items[-1], of a list that begins with v
abbrev pub last_item : Json → Items → Json
last_item v no_items = v
last_item v (item w rest) = last_item w rest

abbrev pub nth_char : ℕ → String → Result Raised Json
nth_char n String.[] = err index_error
nth_char zero (String.◌∷◌ c s) = ok (str (String.◌∷◌ c String.[]))
nth_char (suc n) (String.◌∷◌ c s) = nth_char n s

-- v[n]
abbrev pub subscript : ℕ → Json → Result Raised Json
subscript n (array xs) = nth_item n xs
subscript n (str s) = nth_char n s
subscript n (object members) = err key_error
subscript n _ = err type_error

abbrev key_of : Option Json → Result Raised Json
key_of none = err key_error
key_of (some v) = ok v

-- v[key]
abbrev pub entry : String → Json → Result Raised Json
entry key (object members) = key_of (member key members)
entry key _ = err type_error

-- v.get(key)
abbrev pub get_of : String → Json → Result Raised (Option Json)
get_of key (object members) = ok (member key members)
get_of key _ = err attribute_error
