-- ===== src/Examples/Devices.antt =====
-- The theorems on profiles, commands, answers and devices, at small inputs.
use iot_lab_gateway.Text.{join, split, replace, parse_int, str_int}
use iot_lab_gateway.Protocol.NodeId.{set_node_id_args_lem}
use iot_lab_gateway.Redirection.{serial_redirection}
use iot_lab_gateway.OpenNode.WithEdbg.{EdbgNode, edbg_tty, teardown}
use iot_lab_gateway.OpenNode.WithEdbg.Teardown.{IsDetached, NotInDebug, teardown-IsDetached}
use iot_lab_gateway.Profile.Supply.{consumption_of-IsConsumption}
use iot_lab_gateway.Effects.Codes.{Yields, AllSucceed}
use iot_lab_gateway.ControlNode.Iotlab.Configuring.{
  commands, with_profile, AllSucceed-configure_profile,
}
use iot_lab_gateway.Prelude.{
  ◌↔◌, ℕ, ◌≡◌, refl, true, false, none, some, [], ◌∷◌, inl, inr, ◌⊎◌, arith, number_member,
}
use iot_lab_gateway.Prelude.Int.{ℤ, pos}
use iot_lab_gateway.Json.{Json, flag, obj, field, end, number, text}
use iot_lab_gateway.Effects.{run, State, returned, open_read}
use iot_lab_gateway.Effects.Triples.{Post}
use iot_lab_gateway.Profile.{Consumption, consumption_of, Radio, valid, radio_of}
use iot_lab_gateway.Profile.Spec.{IsConsumption, IsRadio, radio_json}
use iot_lab_gateway.Profile.Validation.{radio_of-IsRadio}
use iot_lab_gateway.Profile.Acceptance.{radio_of-radio_json}
use iot_lab_gateway.Protocol.{set_node_id_args, sorted_channels}
use iot_lab_gateway.Protocol.Channels.{IsIncreasing, sorted_channels_lem}
use iot_lab_gateway.Protocol.Commands.{Measures, Sniffs, config_radio-accepted}
use iot_lab_gateway.Serial.{Serial, send_command}
use iot_lab_gateway.Serial.Answers.{answer_to, send_command-answer_to}
use iot_lab_gateway.OpenOcd.{
  OpenOcd, reset, flash, debug_stop, debug_start, openocd_args, reset_cmd,
}
use iot_lab_gateway.OpenOcd.Debug.{debugging as started, stopped, debug_cycle, debug-debug_stop}
use iot_lab_gateway.Common.Waiting.{Ticks, Ends, wait_cond-Ends}
use iot_lab_gateway.Common.{wait_cond}
use iot_lab_gateway.ControlNode.Iotlab.{configure_profile, Iotlab, open_start, open_stop}
use iot_lab_gateway.ControlNode.Iotlab.Power.{Follows, Stays, open_switch-Follows}
use iot_lab_gateway.Examples.{calm, default_profile}

abbrev rssi : Radio
rssi = record {
  mode = text "rssi";
  channels = 26 ∷ 11 ∷ [];
  period = number (pos 10);
  num_per_channel = number (pos 5);
}

rssi-IsRadio : IsRadio rssi
rssi-IsRadio = (
  record { some_channel = λ e. cc e; each = ground arith },
  inl (record {
    mode = refl;
    period = (10, refl, ground arith, ground arith);
    num = (5, refl, ground arith, ground arith);
    hopping = inr (λ e. ground (arith, e));
  }),
)

rssi-accepted : radio_of (radio_json rssi) ≡ valid rssi
rssi-accepted = radio_of-radio_json rssi rssi-IsRadio

radio_of-IsRadio_example : IsRadio rssi
radio_of-IsRadio_example = radio_of-IsRadio (radio_json rssi) rssi-accepted

radio_of-radio_json_example : radio_of (radio_json rssi) ≡ valid rssi
radio_of-radio_json_example = radio_of-radio_json rssi rssi-IsRadio

abbrev serial : State Serial
serial = record {
  self = record {
    tty = "/dev/iotlab/ttyCN";
    process = true;
    reader_thread = true;
    msgs = some ("old" ∷ "ACK" ∷ []);
    measures_debug = false;
    measures = [];
    oml_cfg_file = none;
  };
  trace = [];
}

config_radio-accepted_example :
    Measures (λ args. send_command calm args) rssi ⊎ Sniffs (λ args. send_command calm args) rssi
config_radio-accepted_example =
    config_radio-accepted (λ args. send_command calm args) (radio_json rssi) rssi-accepted

sorted_channels_lem_example :
    IsIncreasing (sorted_channels (26 ∷ 11 ∷ 26 ∷ []))
    × ((x : ℕ)
        → number_member x (sorted_channels (26 ∷ 11 ∷ 26 ∷ []))
          ≡ number_member x (26 ∷ 11 ∷ 26 ∷ []))
sorted_channels_lem_example = sorted_channels_lem (26 ∷ 11 ∷ 26 ∷ [])

send_command-answer_to_example :
    (send_command calm ("start" ∷ "dc" ∷ []) serial).0
    ≡ returned (answer_to calm ("start" ∷ "dc" ∷ []) serial)
send_command-answer_to_example = send_command-answer_to calm ("start" ∷ "dc" ∷ []) serial

-- The stale answer in the queue is not taken.
start-answer : answer_to calm ("start" ∷ "dc" ∷ []) serial ≡ some ("start" ∷ "ACK" ∷ [])
unfolding iot_lab_gateway.Serial.Answers.first_answer
start-answer = refl

abbrev debugging : State OpenOcd
debugging = record {
  self = record { openocd_path = "openocd"; config = "-f \"m3.cfg\""; timeout = 100; debug = true };
  trace = [];
}

debug_cycle_example :
    (reset calm (started calm debugging) ≡ (returned (pos 1), started calm debugging))
    × (flash calm "a.elf" false (pos 0) (started calm debugging) ≡ (
      returned (pos 1),
      record (started calm debugging) {
        trace = open_read "a.elf" ∷ (started calm debugging).trace;
      },
    ))
    × ((reset calm (stopped calm debugging)).1.trace
        ≡ run (openocd_args (stopped calm debugging).self reset_cmd) (some 100)
          ∷ (stopped calm debugging).trace)
unfolding debug_start debug_stop
debug_cycle_example = debug_cycle calm debugging (pos 0) "a.elf" false (pos 0) "a.elf" refl refl

debug-debug_stop_example : (debug_stop calm debugging).1.self.debug ≡ false
debug-debug_stop_example = debug-debug_stop calm debugging

calm-Ticks : Ticks calm
calm-Ticks = record { forward = λ path calls. ground arith; slept = λ path calls. ground arith }

wait_cond-Ends_example : Ends (wait_cond calm 3 false "/dev/iotlab/ttyON") serial
wait_cond-Ends_example = wait_cond-Ends calm calm-Ticks 3 false "/dev/iotlab/ttyON" serial

abbrev control_node : State Iotlab
control_node = record {
  self = record {
    node_id = "m3-1";
    default_profile = default_profile;
    openocd = debugging.self;
    cn_serial = serial.self;
    open_node_state = "stop";
    profile = default_profile;
  };
  trace = [];
}

open_switch-Follows_example :
    Post (Follows "stop" "start") (Stays "stop") (open_start calm (text "dc") control_node)
    × Post (Follows "stop" "stop") (Stays "stop") (open_stop calm (text "dc") control_node)
open_switch-Follows_example = open_switch-Follows calm (text "dc") control_node

abbrev battery : Consumption
battery = record {
  source = "BATT";
  period = 588;
  average = 64;
  power = flag false;
  voltage = flag false;
  current = flag false;
}

abbrev measured : Json
measured = obj (field "period" (number (pos 588)) (field "average" (number (pos 64)) end))

battery-accepted : consumption_of "5V" (text "battery") measured ≡ valid battery
unfolding consumption_of
battery-accepted = refl

consumption_of-IsConsumption_example : IsConsumption "5V" (text "battery") battery
consumption_of-IsConsumption_example =
    consumption_of-IsConsumption "5V" (text "battery") measured battery-accepted

AllSucceed-configure_profile_example :
    Yields (configure_profile calm none) control_node (pos 0)
    ↔ AllSucceed (commands calm "stop" default_profile) (with_profile default_profile control_node)
AllSucceed-configure_profile_example = AllSucceed-configure_profile calm none control_node

abbrev edbg_node : State EdbgNode
edbg_node = record {
  self = record {
    serial_redirection = serial_redirection edbg_tty 115200;
    openocd = debugging.self;
    edbg = record { timeout = 100 };
    current_fw = some "a.elf";
    in_debug = true;
  };
  trace = [];
}

teardown-IsDetached_example :
    Post (λ code. IsDetached) NotInDebug (teardown calm "samr21" "idle.elf" edbg_node)
teardown-IsDetached_example = teardown-IsDetached calm "samr21" "idle.elf" edbg_node

zero_id : set_node_id_args "arduino_zero_07" ≡ some ("arduino-zero", "7")
unfolding set_node_id_args
zero_id = refl

zero_parts : split b'-' (replace b'_' "-" "arduino_zero_07") ≡ "arduino" ∷ "zero" ∷ "07" ∷ []
unfolding split replace
zero_parts = refl

set_node_id_args_lem_example :
    (join "-" ("arduino-zero" ∷ "07" ∷ []) ≡ replace b'_' "-" "arduino_zero_07")
    × ((k : ℤ) × (parse_int "07" ≡ some k) × ("7" ≡ str_int k))
set_node_id_args_lem_example =
    set_node_id_args_lem "arduino_zero_07" "arduino" "zero" ("07" ∷ []) zero_parts zero_id
