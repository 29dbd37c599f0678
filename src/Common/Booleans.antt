-- ===== src/Common/Booleans.antt =====
-- gateway_code/common.py: `booleanize`. The words have no letters beyond ASCII, so only those are
-- made small.
use Prim.Native.Char.{code}
use iot_lab_gateway.Prelude.{
  ℕ, ◌+◌, String, Bool, true, false, ◌&&◌, ◌||◌, Option, none, some, List, [], ◌∷◌, leb, ◌==◌,
  if◌then◌else◌,
}
use iot_lab_gateway.Prelude.Int.{pos, ◌==ℤ◌}
use iot_lab_gateway.Json.{Json, null, flag, number, text, arr, obj}

abbrev pub lower_code : ℕ → ℕ
lower_code c = if leb 65 c && leb c 90 then c + 32 else c

-- `text.lower() == word`
unfoldable pub is_lower : String → String → Bool
is_lower String.[] String.[] = true
is_lower String.[] (String.◌∷◌ d word) = false
is_lower (String.◌∷◌ c s) String.[] = false
is_lower (String.◌∷◌ c s) (String.◌∷◌ d word) =
    let rest = is_lower s word in lower_code (code c) == code d && rest

abbrev pub is_one_of : String → List String → Bool
is_one_of s [] = false
is_one_of s (word ∷ words) = is_lower s word || is_one_of s words

abbrev pub true_words : List String
true_words = "y" ∷ "yes" ∷ "t" ∷ "true" ∷ "on" ∷ "1" ∷ []

abbrev pub false_words : List String
false_words = "n" ∷ "no" ∷ "f" ∷ "false" ∷ "off" ∷ "0" ∷ []

-- The truth of a value, where one of two tests says it; none stands for the ValueError.
abbrev pub truth : Bool → Bool → Option Bool
truth t f = if t then some true else if f then some false else none

unfoldable pub booleanize : Json → Option Bool
unfolding is_lower
booleanize (flag b) = some b
booleanize (text s) = truth (is_one_of s true_words) (is_one_of s false_words)
booleanize (number n) = truth (n ==ℤ pos 1) (n ==ℤ pos 0)
booleanize null = some false
booleanize (arr items) = none
booleanize (obj fields) = none
