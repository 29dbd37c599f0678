-- ===== src/Text.antt =====
-- Python's text operations that the gateway uses: `replace` and `split` by a character, `join`,
-- `strip`, `lower`, `int`, `str` of a number, `hex`. A text is the list of its characters.
pub mod Numerals
pub mod Parts
use Prim.Native.Char.{Char, code}
use Prim.Native.String
use iot_lab_gateway.Prelude.{
  ℕ, zero, suc, ◌+◌, ◌-◌, ◌*◌, ◌/◌, ◌%◌, String, Bool, true, false, ◌&&◌, ◌||◌, Option, none, some,
  List, [], ◌∷◌, leb, ltb, ◌==◌, same, if◌then◌else◌,
}
use iot_lab_gateway.Prelude.Int.{ℤ, pos, negsuc}

-- `''.join(parts)`, and a format string with its pieces filled in.
unfoldable pub concat : List String → String
concat [] = ""
concat (p ∷ ps) = String.◌++◌ p (concat ps)

-- `sep.join(parts)`
unfoldable pub join : String → List String → String
join sep [] = ""
join sep (p ∷ []) = p
join sep (p ∷ q ∷ ps) = String.◌++◌ p (String.◌++◌ sep (join sep (q ∷ ps)))

-- The first part grows by a character.
abbrev pub grow : Char → List String → List String
grow c [] = String.◌∷◌ c "" ∷ []
grow c (p ∷ ps) = String.◌∷◌ c p ∷ ps

-- `text.split(c)` for a character, given by its code.
unfoldable pub split : ℕ → String → List String
split sep String.[] = "" ∷ []
split sep (String.◌∷◌ c s) =
    let rest = split sep s in if code c == sep then "" ∷ rest else grow c rest

-- `text.replace(old, new)` for characters, the old one given by its code.
unfoldable pub replace : ℕ → Char → String → String
replace old new String.[] = ""
replace old new (String.◌∷◌ c s) = String.◌∷◌ (if code c == old then new else c) (replace old new s)

abbrev pub is_space : ℕ → Bool
is_space c = (leb 9 c && leb c 13) || c == 32

abbrev pub is_digit : ℕ → Bool
is_digit c = leb 48 c && leb c 57

-- `text.lstrip()`
unfoldable pub lstrip : String → String
lstrip String.[] = ""
lstrip (String.◌∷◌ c s) = let rest = lstrip s in if is_space (code c) then rest else String.◌∷◌ c s

-- `text.rstrip()`
unfoldable pub rstrip : String → String
rstrip String.[] = ""
rstrip (String.◌∷◌ c s) =
    let rest = rstrip s in if is_space (code c) && same rest "" then "" else String.◌∷◌ c rest

-- `text.strip()`
unfoldable pub strip : String → String
unfolding lstrip rstrip
strip s = rstrip (lstrip s)

-- The decimal digits of `s`, read behind those that make up `acc`; none at any other character.
unfoldable pub read_digits : ℕ → String → Option ℕ
read_digits acc String.[] = some acc
read_digits acc (String.◌∷◌ c s) =
    let rest = read_digits (acc * 10 + (code c - 48)) s in if is_digit (code c) then rest else none

-- Python refuses a text without a digit.
unfoldable pub read_number : String → Option ℕ
unfolding read_digits
read_number String.[] = none
read_number (String.◌∷◌ c s) = read_digits 0 (String.◌∷◌ c s)

abbrev pub negate : ℕ → ℤ
negate zero = pos 0
negate (suc n) = negsuc n

abbrev pub map_number : (ℕ → ℤ) → Option ℕ → Option ℤ
map_number f none = none
map_number f (some n) = some (f n)

-- A sign, then digits.
unfoldable pub read_signed : String → Option ℤ
unfolding read_number
read_signed String.[] = none
read_signed (String.◌∷◌ c s) =
    if code c == b'-'
    then map_number negate (read_number s)
    else if code c == b'+'
    then map_number pos (read_number s)
    else map_number pos (read_number (String.◌∷◌ c s))

-- `int(text)`; none stands for its ValueError.
unfoldable pub parse_int : String → Option ℤ
unfolding strip read_signed
parse_int s = read_signed (strip s)

abbrev pub pick : ℕ → String → Char
pick n String.[] = "0"
pick zero (String.◌∷◌ c s) = c
pick (suc n) (String.◌∷◌ c s) = pick n s

-- A letter from A to Z is made small, and no other character.
abbrev pub lower_char : Char → Char
lower_char c =
    if leb 65 (code c) && leb (code c) 90
    then pick (code c - 65) "abcdefghijklmnopqrstuvwxyz"
    else c

-- `text.lower()` of bytes
unfoldable pub lower : String → String
lower String.[] = ""
lower (String.◌∷◌ c s) = String.◌∷◌ (lower_char c) (lower s)

abbrev pub digit : ℕ → Char
digit d = pick d "0123456789abcdef"

-- The digits of `n` in a base, in front of `acc`; more fuel than `n` is enough.
unfoldable pub render : ℕ → ℕ → ℕ → String → String
render zero base n acc = acc
render (suc fuel) base n acc =
    let rest = render fuel base (n / base) (String.◌∷◌ (digit (n % base)) acc) in
    if ltb n base then String.◌∷◌ (digit n) acc else rest

-- `str(n)`
unfoldable pub str : ℕ → String
unfolding render
str n = render (suc n) 10 n ""

-- `len(text)`
unfoldable pub text_length : String → ℕ
text_length String.[] = 0
text_length (String.◌∷◌ c s) = suc (text_length s)

-- `str(i)` for an integer.
unfoldable pub str_int : ℤ → String
unfolding str
str_int (pos n) = str n
str_int (negsuc n) = String.◌++◌ "-" (str (suc n))

-- `hex(n)`
unfoldable pub hex_nat : ℕ → String
unfolding render
hex_nat n = String.◌++◌ "0x" (render (suc n) 16 n "")

unfoldable pub hex : ℤ → String
unfolding hex_nat
hex (pos n) = hex_nat n
hex (negsuc n) = String.◌++◌ "-" (hex_nat (suc n))

-- What is left of a text behind a prefix.
unfoldable pub drop_prefix : String → String → Option String
drop_prefix String.[] s = some s
drop_prefix (String.◌∷◌ c p) String.[] = none
drop_prefix (String.◌∷◌ c p) (String.◌∷◌ d s) =
    let rest = drop_prefix p s in if code c == code d then rest else none
