-- ===== src/Rest/Autotests/Checking.antt =====
-- What the arguments of the auto-tests are, where they are accepted.
use iot_lab_gateway.Prelude.{
  ℕ, String, Bool, ◌≡◌, ◌≤◌, ap, inl, inr, Option, none, some, arith, same, Bool-cases,
}
use iot_lab_gateway.Text.{read_number}
use iot_lab_gateway.Rest.Autotests.{
  arguments, mode_of, channel_of_query, in_channels, option_of, checked_mode, checked_channel,
  checked_gps, checked_flash, arguments_of,
}

in_channels-bounds : (o : Option ℕ) (n : ℕ) → in_channels o ≡ some (some n) → (11 ≤ n) × (n ≤ 26)
in_channels-bounds none n e = cc e
in_channels-bounds (some k) n e = ground (arith, e)

channel_of_query-bounds :
    (query : String) (n : ℕ) → channel_of_query query ≡ some (some n) → (11 ≤ n) × (n ≤ 26)
unfolding channel_of_query
channel_of_query-bounds query n e = elim (Bool-cases (same query "")) [
  | inl h ↦ cc (rw h at e)
  | inr h ↦ in_channels-bounds (read_number query) n (rw h at e)
]

flash-channel :
    (blink : Bool) (channel : Option ℕ) (gps : Bool) (o : Option Bool) {c : Option ℕ} {b f g : Bool}
    → checked_flash blink channel gps o ≡ arguments c b f g
    → channel ≡ c
flash-channel blink channel gps none e = cc e
flash-channel blink channel gps (some flash) e = cc e

gps-channel :
    (blink : Bool) (channel : Option ℕ) (o : Option Bool) (flash : String) {c : Option ℕ}
    {b f g : Bool}
    → checked_gps blink channel o flash ≡ arguments c b f g
    → channel ≡ c
gps-channel blink channel none flash e = cc e
gps-channel blink channel (some gps) flash e = flash-channel blink channel gps (option_of flash) e

channel-channel :
    (blink : Bool) (o : Option (Option ℕ)) (gps flash : String) {c : Option ℕ} {b f g : Bool}
    → checked_channel blink o gps flash ≡ arguments c b f g
    → o ≡ some c
channel-channel blink none gps flash e = cc e
channel-channel blink (some channel) gps flash e =
    ap (λ c. some c) (gps-channel blink channel (option_of gps) flash e)

mode-channel :
    (o : Option Bool) (channel gps flash : String) {c : Option ℕ} {b f g : Bool}
    → checked_mode o channel gps flash ≡ arguments c b f g
    → channel_of_query channel ≡ some c
mode-channel none channel gps flash e = cc e
mode-channel (some blink) channel gps flash e =
    channel-channel blink (channel_of_query channel) gps flash e

-- A channel that is handed to the tests lies between 11 and 26, the channels of the radio.
pub arguments_of-bounds :
    (mode : Option String) (channel gps flash : String) (n : ℕ) (b f g : Bool)
    → arguments_of mode channel gps flash ≡ arguments (some n) b f g
    → (11 ≤ n) × (n ≤ 26)
unfolding arguments_of
arguments_of-bounds mode channel gps flash n b f g e =
    channel_of_query-bounds channel n (mode-channel (mode_of mode) channel gps flash e)
