-- ===== src/FtdiCheck.antt =====
-- gateway_code/utils/ftdi_check.py: whether the FTDI chip of a node is there. No caller of
-- `ftdi_check` looks for a description, which is an argument all the same.
pub mod Lookup
use Prim.Native.Char.{code}
use Prim.Native.String
use iot_lab_gateway.Prelude.{
  ℕ, zero, suc, String, Bool, true, false, ◌&&◌, ◌||◌, Option, none, some, List, [], ◌∷◌, ltb, leb,
  length, ◌==◌, same, if◌then◌else◌, not,
}
use iot_lab_gateway.Prelude.Int.{ℤ, pos}
use iot_lab_gateway.Text.{concat, strip, grow, is_digit, read_number, drop_prefix}
use iot_lab_gateway.Effects.{
  World, Action, pure, raise, perform, ◌>>=◌, check_output, called_process_error, index_error,
  assertion_error,
}
use iot_lab_gateway.OpenOcd.{attempted}

abbrev starts_line_feed : String → Bool
starts_line_feed String.[] = false
starts_line_feed (String.◌∷◌ c s) = code c == 10

-- `text.splitlines()`: a line ends with a line feed, a carriage return, or both.
unfoldable pub split_lines : String → List String
split_lines String.[] = []
split_lines (String.◌∷◌ c s) =
    let rest = split_lines s in
    if code c == 13 && starts_line_feed s
    then rest
    else if code c == 10 || code c == 13
    then "" ∷ rest
    else grow c rest

-- `\d*`: the digits that a text begins with, and what is behind them.
unfoldable pub span_digits : String → String × String
span_digits String.[] = ("", "")
span_digits (String.◌∷◌ c s) =
    let (digits, rest) = span_digits s in
    if is_digit (code c) then (String.◌∷◌ c digits, rest) else ("", String.◌∷◌ c s)

-- `.*`: the text up to a line feed.
unfoldable pub first_line : String → String
first_line String.[] = ""
first_line (String.◌∷◌ c s) =
    let rest = first_line s in if code c == 10 then "" else String.◌∷◌ c rest

abbrev number_or_zero : Option ℕ → ℕ
number_or_zero none = 0
number_or_zero (some n) = n

-- `Found (?P<dev_number>\d+) device\(s\)`
unfoldable pub ftdi_parse_device_number : String → ℕ
unfolding span_digits
ftdi_parse_device_number line = elim (drop_prefix "Found " (strip line)) [
  | none ↦ 0
  | some found ↦ elim (drop_prefix " device(s)" (span_digits found).1) [
    | none ↦ 0
    | some _ ↦ number_or_zero (read_number (span_digits found).0)
  ]
]

-- `Description: (?P<description>.*)`
unfoldable pub ftdi_parse_device_description : String → Option String
unfolding first_line
ftdi_parse_device_description line = elim (drop_prefix "Description: " (strip line)) [
  | none ↦ none
  | some description ↦ some (first_line description)
]

-- `description == ftdi_parse_device_description(line)`
abbrev pub is_described : String → String → Bool
is_described description line = elim (ftdi_parse_device_description line) [
  | none ↦ false
  | some d ↦ same description d
]

-- The loop over the devices, of four lines each; none is an IndexError at a device of two lines.
-- It does not look at a last line that is alone.
unfoldable pub lookup_loop : String → List String → Option Bool
unfolding ftdi_parse_device_description
lookup_loop description [] = some false
lookup_loop description (a ∷ []) = some false
lookup_loop description (a ∷ b ∷ []) = none
lookup_loop description (a ∷ b ∷ c ∷ []) = some (is_described description c)
lookup_loop description (a ∷ b ∷ c ∷ d ∷ rest) =
    let later = lookup_loop description rest in
    if is_described description c then some true else later

module _ {O : Type 0} where
  unfoldable pub ftdi_lookup_description : List String → String → Action O Bool
  unfolding lookup_loop
  ftdi_lookup_description lines description =
      if leb 4 (length lines)
      then elim (lookup_loop description lines) [
        | none ↦ raise index_error
        | some found ↦ pure found
      ]
      else raise assertion_error

  -- `(dev_number > 0) and ((description is None) or ftdi_lookup_description(lines, description))`
  unfoldable pub is_found : ℕ → Option String → List String → Action O Bool
  unfolding ftdi_lookup_description
  is_found zero description lines = pure false
  is_found (suc n) none lines = pure true
  is_found (suc n) (some description) lines = ftdi_lookup_description lines description

  -- The first two lines are a heading; the third says how many devices there are.
  unfoldable pub check_lines : Option String → List String → Action O ℤ
  unfolding is_found ftdi_parse_device_number
  check_lines description (a ∷ b ∷ number ∷ lines) = do
    found ← is_found (ftdi_parse_device_number number) description lines
    if found then pure (pos 0) else pure (pos 1)
  check_lines description _ = raise index_error

  unfoldable pub ftdi_check : World → String → Option String → Action O ℤ
  unfolding check_lines split_lines
  ftdi_check world ftdi_type description = do
    answer ← perform world (check_output (concat ("ftdi-devices-list -t " ∷ ftdi_type ∷ [])))
    elim answer [
      | none ↦ raise called_process_error
      | some attempt ↦ attempted attempt >>= λ output. check_lines description (split_lines output)
    ]
