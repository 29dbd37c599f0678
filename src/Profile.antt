-- ===== src/Profile.antt =====
-- gateway_code/profile.py: monitoring profiles and what makes one valid. A constructor that raises
-- is a function into `Checked`; `from_dict` turns each of its exceptions into a ValueError.
mod Tests
pub mod Spec
pub mod Validation
pub mod Acceptance
pub mod Supply
use iot_lab_gateway.Prelude.{
  ◌≡◌, refl, ℕ, zero, suc, String, Bool, true, false, ◌&&◌, ◌||◌, not, Option, none, some, List, [],
  ◌∷◌, same, ltb, leb, ◌==◌, length, all, number_member, member, is_none, if◌then◌else◌,
}
use iot_lab_gateway.Prelude.Int.{ℤ, pos, negsuc}
use iot_lab_gateway.Text.{parse_int}
use iot_lab_gateway.Json.{
  Json, null, flag, number, text, arr, obj, Items, nil, cons, Fields, end, field, truthy, or_else,
  as_number, is_word, find, find_or_null, keys_within,
}
use iot_lab_gateway.Effects.{Exception, value_error, type_error, assertion_error}

-- A constructor's result.
pub data Checked (A : Type 0) : Type 0 where
  valid : A → Checked A
  failed : Exception → Checked A

infixl 5 ◌>>=◌ ◌>>◌
abbrev pub ◌>>=◌ : {A B : Type 0} → Checked A → (A → Checked B) → Checked B
valid a >>= f = f a
failed e >>= f = failed e

abbrev pub ◌>>◌ : {B : Type 0} → Checked (Unit {0}) → Checked B → Checked B
m >> k = m >>= λ _. k

pub >>=-eq-valid :
    {A B : Type 0} (m : Checked A) (f : A → Checked B) {b : B}
    → (m >>= f) ≡ valid b
    → (a : A) × (m ≡ valid a) × (f a ≡ valid b)
>>=-eq-valid (valid a) f h = (a, refl, h)
>>=-eq-valid (failed e) f h = cc

-- `assert condition`, and a call that Python refuses with a TypeError.
abbrev pub check : Bool → Checked (Unit {0})
check true = valid tt
check false = failed assertion_error

abbrev pub accepts : Bool → Checked (Unit {0})
accepts true = valid tt
accepts false = failed type_error

abbrev pub required : Option Json → Checked Json
required none = failed type_error
required (some v) = valid v

pub record Consumption : Type 0 where
  pub source : String
  pub period : ℕ
  pub average : ℕ
  pub power : Json
  pub voltage : Json
  pub current : Json

pub record Radio : Type 0 where
  pub mode : Json
  pub channels : List ℕ
  pub period : Json
  pub num_per_channel : Json

pub record Profile : Type 0 where
  pub profilename : Json
  pub power : Json
  pub consumption : Option Consumption
  pub radio : Option Radio

-- `Consumption.choices`
abbrev pub periods : List ℕ
periods = 140 ∷ 204 ∷ 332 ∷ 588 ∷ 1100 ∷ 2116 ∷ 4156 ∷ 8244 ∷ []

abbrev pub averages : List ℕ
averages = 1 ∷ 4 ∷ 16 ∷ 64 ∷ 128 ∷ 256 ∷ 512 ∷ 1024 ∷ []

-- `int(value)`
unfoldable pub int_of : Json → Checked ℤ
unfolding parse_int
int_of (flag true) = valid (pos 1)
int_of (flag false) = valid (pos 0)
int_of (number n) = valid n
int_of (text s) = elim (parse_int s) [ none ↦ failed value_error | some n ↦ valid n ]
int_of _ = failed type_error

abbrev pub is_null : Json → Bool
is_null null = true
is_null _ = false

-- `assert value in choices`
abbrev pub one_of : List ℕ → ℤ → Checked ℕ
one_of choices (pos n) = check (number_member n choices) >> valid n
one_of choices (negsuc n) = failed assertion_error

-- `Consumption.__init__`
unfoldable pub consumption_init :
    (alim : String) (source period average power voltage current : Json) → Checked Consumption
unfolding int_of
consumption_init alim source period average power voltage current = do
  check (not (is_null period) && not (is_null average))
  p ← int_of period
  a ← int_of average
  p' ← one_of periods p
  a' ← one_of averages a
  check (member alim ("3.3V" ∷ "5V" ∷ []))
  valid (record {
    source = if is_word "dc" source then alim else "BATT";
    period = p';
    average = a';
    power = power;
    voltage = voltage;
    current = current;
  })

abbrev pub flag_or : Option Json → Json
flag_or none = flag false
flag_or (some v) = v

-- The call `Consumption(alim, source=power, **consumption)`: `**` takes an object, a name may be
-- given once, the names must be known, and `period` and `average` have no default.
unfoldable pub consumption_of : String → Json → Json → Checked Consumption
unfolding consumption_init find keys_within
consumption_of alim source (obj d) = do
  accepts (keys_within ("period" ∷ "average" ∷ "power" ∷ "voltage" ∷ "current" ∷ []) d)
  period ← required (find "period" d)
  average ← required (find "average" d)
  consumption_init alim source period average (flag_or (find "power" d))
      (flag_or (find "voltage" d)) (flag_or (find "current" d))
consumption_of alim source _ = failed type_error

-- `assert channel in range(11, 27)`
unfoldable pub channel_of : Json → Checked ℕ
channel_of v = elim (as_number v) [
  | some (pos n) ↦ check (leb 11 n && ltb n 27) >> valid n
  | _ ↦ failed assertion_error
]

-- `for channel in channels: …`, with the channels as numbers.
unfoldable pub channels_of : Items → Checked (List ℕ)
unfolding channel_of
channels_of nil = valid []
channels_of (cons v rest) =
    let others = channels_of rest in channel_of v >>= λ n. others >>= λ ns. valid (n ∷ ns)

-- Neither a number nor a boolean can be iterated over; the characters of a text and the keys of
-- an object are texts, and no channels.
unfoldable pub iterate_channels : Json → Checked (List ℕ)
unfolding channels_of
iterate_channels (arr items) = channels_of items
iterate_channels (text s) = failed assertion_error
iterate_channels (obj d) = failed assertion_error
iterate_channels _ = failed type_error

-- `value in range(low, high)`
abbrev pub in_range : ℕ → ℕ → Json → Bool
in_range low high v = elim (as_number v) [ some (pos n) ↦ leb low n && ltb n high | _ ↦ false ]

-- `value != 0`
abbrev pub is_nonzero : Json → Bool
is_nonzero v = elim (as_number v) [ some (pos zero) ↦ false | _ ↦ true ]

-- `Radio._is_valid`: it may replace the period of a sniffer, and returns the radio.
unfoldable pub radio_is_valid : Radio → Checked Radio
radio_is_valid r =
    if is_word "rssi" r.mode
    then (do
      check (not (is_null r.period))
      check (length r.channels == 1 || is_nonzero r.num_per_channel)
      check (in_range 1 65536 r.period)
      check (in_range 0 256 r.num_per_channel)
      valid r)
    else if is_word "sniffer" r.mode
    then (do
      let period = or_else r.period (number (pos 0))
      check (in_range 0 65536 period)
      check (if truthy period then not (length r.channels == 1) else length r.channels == 1)
      check (is_null r.num_per_channel)
      valid (record r { period = period }))
    else failed assertion_error

-- `Radio.__init__`
unfoldable pub radio_init : (mode channels period num_per_channel : Json) → Checked Radio
unfolding iterate_channels radio_is_valid
radio_init mode channels period num_per_channel = do
  check (truthy channels)
  cs ← iterate_channels channels
  radio_is_valid
      (record { mode = mode; channels = cs; period = period; num_per_channel = num_per_channel })

-- The call `Radio(**radio)`.
unfoldable pub radio_of : Json → Checked Radio
unfolding radio_init find find_or_null keys_within
radio_of (obj d) = do
  accepts (keys_within ("mode" ∷ "channels" ∷ "period" ∷ "num_per_channel" ∷ []) d)
  mode ← required (find "mode" d)
  channels ← required (find "channels" d)
  radio_init mode channels (find_or_null "period" d) (find_or_null "num_per_channel" d)
radio_of _ = failed type_error

abbrev pub optional : {A : Type 0} → (Json → Checked A) → Json → Checked (Option A)
optional build null = valid none
optional build v = build v >>= λ a. valid (some a)

-- `except TypeError as err: raise ValueError(…)`
abbrev pub type_error_as_value : {A : Type 0} → Checked A → Checked A
type_error_as_value (failed type_error) = failed value_error
type_error_as_value r = r

-- `Profile.__init__`, for an open node class with supply `alim`.
unfoldable pub profile_init :
    (alim : String) (profilename power consumption radio : Json) → Checked Profile
unfolding consumption_of radio_of
profile_init alim profilename power consumption radio = type_error_as_value (do
  c ← optional (consumption_of alim power) consumption
  r ← optional radio_of radio
  valid (record { profilename = profilename; power = power; consumption = c; radio = r }))

-- The call `Profile(open_node_type, **profile_dict)`; other keys end in `_kwargs`.
unfoldable pub profile_call : String → Json → Checked Profile
unfolding profile_init find find_or_null
profile_call alim (obj d) = do
  accepts (is_none (find "self" d) && is_none (find "open_node_type" d))
  profilename ← required (find "profilename" d)
  power ← required (find "power" d)
  profile_init alim profilename power (find_or_null "consumption" d) (find_or_null "radio" d)
profile_call alim _ = failed type_error

-- `except (ValueError, TypeError, AssertionError) as err: raise ValueError(…)`
abbrev pub as_value_error : {A : Type 0} → Checked A → Checked A
as_value_error (valid a) = valid a
as_value_error (failed value_error) = failed value_error
as_value_error (failed type_error) = failed value_error
as_value_error (failed assertion_error) = failed value_error
as_value_error (failed e) = failed e

-- `Profile.from_dict`
unfoldable pub from_dict : String → Json → Checked (Option Profile)
unfolding profile_call
from_dict alim null = valid none
from_dict alim d = as_value_error (profile_call alim d) >>= λ p. valid (some p)
