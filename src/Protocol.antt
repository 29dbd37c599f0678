-- ===== src/Protocol.antt =====
-- gateway_code/control_nodes/cn_iotlab/cn_protocol.py: the commands that the control node program
-- understands. The class takes its sender as an argument, and so does this module.
pub mod Channels
pub mod NodeId
pub mod Commands
pub mod Keeping
pub mod Codes
use Prim.Native.Char.{Char}
use iot_lab_gateway.Prelude.{
  ℕ, String, Bool, true, false, ◌&&◌, ◌||◌, not, Option, none, some, List, [], ◌∷◌, ◌++◌, map, same,
  ltb, ◌==◌, member, if◌then◌else◌,
}
use iot_lab_gateway.Prelude.Int.{ℤ, pos}
use iot_lab_gateway.Text.{split, join, replace, parse_int, str, str_int}
use iot_lab_gateway.Json.{Json, text, truthy, is_word, str_of}
use iot_lab_gateway.Profile
use iot_lab_gateway.Profile.{Checked, valid, failed, Consumption, Radio, int_of}
use iot_lab_gateway.Effects.{
  Action, pure, raise, ◌>>=◌, index_error, value_error, type_error, not_implemented,
}

-- The parts but the last, and the last.
abbrev pub init : List String → List String
init [] = []
init (p ∷ []) = []
init (p ∷ q ∷ ps) = p ∷ init (q ∷ ps)

abbrev pub last : List String → String
last [] = ""
last (p ∷ []) = p
last (p ∷ q ∷ ps) = last (q ∷ ps)

-- The architecture and the number, for what `int` reads.
abbrev pub numbered : List String → Option ℤ → Option (String × String)
numbered parts none = none
numbered parts (some n) = some (join "-" (init parts), str_int n)

-- `Protocol._set_node_id_args`; none stands for the ValueError of `int`.
unfoldable pub set_node_id_args : String → Option (String × String)
unfolding split join replace parse_int str_int
set_node_id_args node_id =
    let parts = split b'-' (replace b'_' "-" node_id) in numbered parts (parse_int (last parts))

-- `sorted(set(channels))`
unfoldable pub add_channel : ℕ → List ℕ → List ℕ
add_channel c [] = c ∷ []
add_channel c (d ∷ ds) =
    let rest = add_channel c ds in
    if ltb c d then c ∷ d ∷ ds else if c == d then d ∷ ds else d ∷ rest

unfoldable pub sorted_channels : List ℕ → List ℕ
unfolding add_channel
sorted_channels [] = []
sorted_channels (c ∷ cs) = add_channel c (sorted_channels cs)

-- `','.join(str(x) for x in sorted_channels)`
unfoldable pub channel_list : List ℕ → String
unfolding sorted_channels join str
channel_list cs = join "," (map str (sorted_channels cs))

-- `str(int(flag))`
abbrev pub flag_digit : Json → Checked String
flag_digit v = elim (int_of v) [ valid n ↦ valid (str_int n) | failed e ↦ failed e ]

abbrev pub and_then : {A B : Type 0} → Checked A → (A → Checked B) → Checked B
and_then (valid a) f = f a
and_then (failed e) f = failed e

abbrev pub measures : Consumption → Bool
measures c = truthy c.power || (truthy c.voltage || truthy c.current)

-- The words behind `config_consumption_measure`.
unfoldable pub consumption_args : Option Consumption → Checked (List String)
unfolding int_of str str_int
consumption_args none = valid ("stop" ∷ [])
consumption_args (some c) =
    if not (measures c)
    then valid ("stop" ∷ [])
    else and_then (flag_digit c.power) λ p. and_then (flag_digit c.voltage) λ v.
      and_then (flag_digit c.current) λ i. valid (
        "start"
        ∷ c.source
        ∷ "p"
        ∷ p
        ∷ "v"
        ∷ v
        ∷ "c"
        ∷ i
        ∷ "-p"
        ∷ str c.period
        ∷ "-a"
        ∷ str c.average
        ∷ [])

-- `[command, 'ACK'] == answer`
abbrev pub is_ack : String → Option (List String) → Bool
is_ack command (some (c ∷ a ∷ [])) = same c command && same a "ACK"
is_ack command _ = false

-- `'{}'.format(value)`. No radio that the constructors accept holds a value of another kind than
-- those of `str_of`.
abbrev pub filled : {O A : Type 0} → Option String → (String → Action O A) → Action O A
filled none next = raise not_implemented
filled (some s) next = next s

abbrev pub formatted : {O A : Type 0} → Json → (String → Action O A) → Action O A
formatted v next = filled (str_of v) next

module _ {O : Type 0} (sender : List String → Action O (Option (List String))) where
  -- `send_cmd`: 0 on success.
  unfoldable pub send_cmd : List String → Action O ℤ
  send_cmd [] = raise index_error
  send_cmd (command ∷ args) = do
    answer ← sender (command ∷ args)
    pure (if is_ack command answer then pos 0 else pos 1)

  -- A supply that is no text makes the sender's `' '.join` raise.
  unfoldable pub start_stop : String → Json → Action O ℤ
  unfolding send_cmd
  start_stop command (text alim) = send_cmd (command ∷ alim ∷ [])
  start_stop command _ = raise type_error

  unfoldable pub set_time : Action O ℤ
  unfolding send_cmd
  set_time = send_cmd ("set_time" ∷ [])

  -- Other architectures than m3 and a8 are not handled by the protocol.
  unfoldable pub set_node_id : String → Action O ℤ
  unfolding send_cmd
  set_node_id node_id = elim (set_node_id_args node_id) [
    | none ↦ raise value_error
    | some (archi, num) ↦
        if member archi ("m3" ∷ "a8" ∷ [])
        then send_cmd ("set_node_id" ∷ archi ∷ num ∷ [])
        else pure (pos 0)
  ]

  unfoldable pub green_led_blink : Action O ℤ
  unfolding send_cmd
  green_led_blink = send_cmd ("green_led_blink" ∷ [])

  unfoldable pub green_led_on : Action O ℤ
  unfolding send_cmd
  green_led_on = send_cmd ("green_led_on" ∷ [])

  -- The command with its words, or the exception of their formatting.
  abbrev pub sent : String → Checked (List String) → Action O ℤ
  sent command (valid args) = send_cmd (command ∷ args)
  sent command (failed e) = raise e

  unfoldable pub config_consumption : Option Consumption → Action O ℤ
  config_consumption consumption = sent "config_consumption_measure" (consumption_args consumption)

  unfoldable pub config_radio_measure : Radio → Action O ℤ
  unfolding send_cmd
  config_radio_measure radio = formatted radio.period λ period.
      formatted radio.num_per_channel
        λ num. send_cmd ("config_radio_measure" ∷ channel_list radio.channels ∷ period ∷ num ∷ [])

  unfoldable pub config_radio_sniffer : Radio → Action O ℤ
  unfolding send_cmd
  config_radio_sniffer radio =
      formatted radio.period
        λ period. send_cmd ("config_radio_sniffer" ∷ channel_list radio.channels ∷ period ∷ [])

  unfoldable pub stop_radio : Action O ℤ
  unfolding send_cmd
  stop_radio = send_cmd ("config_radio_stop" ∷ [])

  unfoldable pub config_radio : Option Radio → Action O ℤ
  unfolding config_radio_measure config_radio_sniffer stop_radio
  config_radio none = stop_radio
  config_radio (some radio) =
      if is_word "rssi" radio.mode
      then config_radio_measure radio
      else if is_word "sniffer" radio.mode
      then config_radio_sniffer radio
      else raise not_implemented
