-- ===== src/Rest/Autotests.antt =====
-- gateway_code/rest_server.py, `auto_tests`: the arguments of the request, which are looked at one
-- after the other before the tests run.
pub mod Checking
use iot_lab_gateway.Prelude.{
  ℕ, String, Bool, true, false, ◌&&◌, not, Option, none, some, leb, same, if◌then◌else◌,
}
use iot_lab_gateway.Prelude.Int.{ℤ, pos, ◌==ℤ◌}
use iot_lab_gateway.Text.{parse_int, read_number}

-- What the request asks for, or the error that is sent back.
pub data Arguments : Type 0 where
  wrong : String → Arguments
  arguments : (channel : Option ℕ) (blink flash gps : Bool) → Arguments

-- `mode in ['blink', None]`
abbrev pub mode_of : Option String → Option Bool
mode_of none = some false
mode_of (some mode) = if same mode "blink" then some true else none

-- `channel_str.isdigit() and int(channel_str) in range(11, 27)`, or no channel; none where it is
-- refused.
abbrev pub in_channels : Option ℕ → Option (Option ℕ)
in_channels none = none
in_channels (some n) = if leb 11 n && leb n 26 then some (some n) else none

unfoldable pub channel_of_query : String → Option (Option ℕ)
unfolding read_number
channel_of_query query = if same query "" then some none else in_channels (read_number query)

-- `bool(text and int(text))`; none stands for the ValueError.
abbrev pub is_set : Option ℤ → Option Bool
is_set none = none
is_set (some n) = some (not (n ==ℤ pos 0))

unfoldable pub option_of : String → Option Bool
unfolding parse_int
option_of query = if same query "" then some false else is_set (parse_int query)

abbrev pub checked_flash : Bool → Option ℕ → Bool → Option Bool → Arguments
checked_flash blink channel gps none = wrong "invalid_flash_option"
checked_flash blink channel gps (some flash) = arguments channel blink flash gps

abbrev pub checked_gps : Bool → Option ℕ → Option Bool → String → Arguments
checked_gps blink channel none flash = wrong "invalid_gps_option"
checked_gps blink channel (some gps) flash = checked_flash blink channel gps (option_of flash)

abbrev pub checked_channel : Bool → Option (Option ℕ) → (gps flash : String) → Arguments
checked_channel blink none gps flash = wrong "invalid_channel"
checked_channel blink (some channel) gps flash = checked_gps blink channel (option_of gps) flash

abbrev pub checked_mode : Option Bool → (channel gps flash : String) → Arguments
checked_mode none channel gps flash = wrong "invalid_mode"
checked_mode (some blink) channel gps flash =
    checked_channel blink (channel_of_query channel) gps flash

unfoldable pub arguments_of : (mode : Option String) (channel gps flash : String) → Arguments
unfolding channel_of_query option_of
arguments_of mode channel gps flash = checked_mode (mode_of mode) channel gps flash
