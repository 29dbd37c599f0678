-- ===== src/Json.antt =====
-- Values decoded from JSON, as `json.loads` and bottle's `request.json` give them to the gateway,
-- and Python's tests on them. Numbers are integers: JSON floats are not modelled. The keys of an
-- object are distinct, since `json.loads` keeps the last of equal keys.
use iot_lab_gateway.Prelude.{
  zero, String, Bool, true, false, ◌&&◌, not, Option, none, some, List, same, member, if◌then◌else◌,
}
use iot_lab_gateway.Prelude.Int.{ℤ, pos}
use iot_lab_gateway.Text.{str_int}

mutual
  pub data Json : Type 0 where
    null : Json
    flag : Bool → Json
    number : ℤ → Json
    text : String → Json
    arr : Items → Json
    obj : Fields → Json

  pub data Items : Type 0 where
    nil : Items
    cons : Json → Items → Items

  pub data Fields : Type 0 where
    end : Fields
    field : String → Json → Fields → Fields

-- `bool(value)`
abbrev pub truthy : Json → Bool
truthy null = false
truthy (flag b) = b
truthy (number (pos zero)) = false
truthy (number _) = true
truthy (text s) = not (same s "")
truthy (arr nil) = false
truthy (arr _) = true
truthy (obj end) = false
truthy (obj _) = true

-- `value or other`
abbrev pub or_else : Json → Json → Json
or_else value other = if truthy value then value else other

-- The integer that a value equals: `True == 1` and `False == 0`.
abbrev pub as_number : Json → Option ℤ
as_number (flag true) = some (pos 1)
as_number (flag false) = some (pos 0)
as_number (number n) = some n
as_number _ = none

-- `value == word`
abbrev pub is_word : String → Json → Bool
is_word word (text s) = same s word
is_word word _ = false

-- `str(value)` of a value that equals an integer or is a text; none stands for the other values,
-- of which the code never takes it.
abbrev pub str_of : Json → Option String
str_of (flag true) = some "True"
str_of (flag false) = some "False"
str_of (number n) = some (str_int n)
str_of (text s) = some s
str_of _ = none

-- `d.get(key)`, with none for a missing key.
unfoldable pub find : String → Fields → Option Json
find key end = none
find key (field k v rest) = let other = find key rest in if same k key then some v else other

-- `d.get(key)`, with None for a missing key: a parameter whose default is None.
unfoldable pub find_or_null : String → Fields → Json
unfolding find
find_or_null key d = elim (find key d) [ none ↦ null | some v ↦ v ]

-- Whether all keys of `d` are in `names`: no unexpected keyword argument.
unfoldable pub keys_within : List String → Fields → Bool
keys_within names end = true
keys_within names (field k v rest) = member k names && keys_within names rest
