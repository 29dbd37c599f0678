-- ===== src/ControlNode/Iotlab.antt =====
-- gateway_code/control_nodes/cn_iotlab/__init__.py: the IoT-LAB control node.
pub mod Power
pub mod Configuring
use iot_lab_gateway.Prelude.{
  ℕ, String, Bool, true, false, Option, none, some, List, [], ◌∷◌, ◌==◌, same, if◌then◌else◌, ◌&&◌,
  not,
}
use iot_lab_gateway.Prelude.Int.{ℤ, pos, ◌==ℤ◌, ◌+ℤ◌}
use iot_lab_gateway.Text.{concat, str}
use iot_lab_gateway.Json.{Json, null, text, or_else}
use iot_lab_gateway.Profile
use iot_lab_gateway.Profile.{Profile}
use iot_lab_gateway.Effects.{
  World, Action, Part, pure, gets, modify, perform, on, total, ◌>>=◌, ◌>>◌, sleep,
}
use iot_lab_gateway.OpenOcd
use iot_lab_gateway.OpenOcd.{OpenOcd}
use iot_lab_gateway.Serial
use iot_lab_gateway.Serial.{Serial}
use iot_lab_gateway.Protocol
use iot_lab_gateway.Common.{path_or}
use iot_lab_gateway.ControlNode.{Files, ControlNode}
use iot_lab_gateway.FtdiCheck.{ftdi_check}

-- `FEATURES`
abbrev pub iotlab_features : List String
iotlab_features =
    "leds" ∷ "open_node_power" ∷ "open_node_gpio" ∷ "open_node_i2c" ∷ "radio" ∷ "consumption" ∷ []

-- `ControlNodeIotlab`
pub record Iotlab : Type 0 where
  pub node_id : String
  pub default_profile : Profile
  pub openocd : OpenOcd
  pub cn_serial : Serial
  pub open_node_state : String
  pub profile : Profile

abbrev pub openocd_part : Part Iotlab OpenOcd
openocd_part = record { get = λ c. c.openocd; put = λ o c. record c { openocd = o } }

abbrev pub serial_part : Part Iotlab Serial
serial_part = record { get = λ c. c.cn_serial; put = λ s c. record c { cn_serial = s } }

-- `profile or self.default_profile`
abbrev pub profile_or : Option Profile → Profile → Profile
profile_or none d = d
profile_or (some p) d = p

abbrev file_of : String → Files → String
file_of name [] = ""
file_of name ((k, path) ∷ rest) = if same k name then path else file_of name rest

-- `oml_xml_config`: no configuration without files.
unfoldable pub oml_xml_config : String → ℕ → Files → Option String
unfolding concat str
oml_xml_config node_id exp_id [] = none
oml_xml_config node_id exp_id (f ∷ fs) =
    let collect = λ (name : String). concat (
      "  <collect url='file:"
      ∷ file_of name (f ∷ fs)
      ∷ "' encoding='text'>\n    <stream name=\""
      ∷ name
      ∷ "\" mp=\""
      ∷ name
      ∷ "\" samples='1' />\n  </collect>\n"
      ∷ []) in
    some (
      concat (
        "<omlc id='"
        ∷ node_id
        ∷ "' exp_id='"
        ∷ str exp_id
        ∷ "'>\n"
        ∷ collect "consumption"
        ∷ collect "radio"
        ∷ collect "event"
        ∷ collect "sniffer"
        ∷ "</omlc>"
        ∷ []))

module _ (world : World) where
  -- The protocol's sender.
  abbrev pub sender : List String → Action Iotlab (Option (List String))
  sender args = on serial_part (Serial.send_command world args)

  abbrev wait_control_node_ready : Action Iotlab (Unit {0})
  wait_control_node_ready = perform world (sleep 20)

  unfoldable pub reset : Action Iotlab ℤ
  reset = do ret ← on openocd_part (OpenOcd.reset world); wait_control_node_ready; pure ret

  -- `flash`; the path of the default firmware is an argument. The code hands neither `binary` nor
  -- `offset` to OpenOCD.
  unfoldable pub flash : String → Option String → Bool → ℤ → Action Iotlab ℤ
  flash fw_control_node firmware_path binary offset = do
    ret ←
        on openocd_part (OpenOcd.flash world (path_or firmware_path fw_control_node) false (pos 0))
    wait_control_node_ready
    pure ret

  unfoldable pub setup : String → Action Iotlab ℤ
  unfolding flash
  setup fw_control_node = flash fw_control_node none false (pos 0)

  -- `power or self.profile.power`, then the command, and the state if it was acknowledged.
  abbrev pub switch : String → Json → Action Iotlab ℤ
  switch state power = do
    c ← gets (λ c. c)
    ret ← Protocol.start_stop sender state (or_else power c.profile.power)
    if ret ==ℤ pos 0
        then modify (λ c. record c { open_node_state = state }) >> pure ret
        else pure ret

  unfoldable pub open_start : Json → Action Iotlab ℤ
  open_start power = switch "start" power

  unfoldable pub open_stop : Json → Action Iotlab ℤ
  open_stop power = switch "stop" power

  unfoldable pub configure_profile : Option Profile → Action Iotlab ℤ
  configure_profile profile = do
    modify (λ c. record c { profile = profile_or profile c.default_profile })
    c ← gets (λ c. c)
    total (
        Protocol.start_stop sender c.open_node_state c.profile.power
        ∷ Protocol.config_consumption sender c.profile.consumption
        ∷ Protocol.config_radio sender c.profile.radio
        ∷ [])

  unfoldable pub start : ℕ → Files → Action Iotlab ℤ
  start exp_id exp_files = total (
      reset
      ∷ (do
        node_id ← gets (λ c. c.node_id)
        on serial_part (Serial.start world (oml_xml_config node_id exp_id exp_files)))
      ∷ open_start (text "dc")
      ∷ [])

  unfoldable pub stop : Action Iotlab ℤ
  stop = total (open_stop (text "dc") ∷ on serial_part (Serial.stop world) ∷ reset ∷ [])

  unfoldable pub start_experiment : Option Profile → Action Iotlab ℤ
  start_experiment profile = total (
      Protocol.green_led_blink sender
      ∷ Protocol.set_time sender
      ∷ (do node_id ← gets (λ c. c.node_id); Protocol.set_node_id sender node_id)
      ∷ configure_profile profile
      ∷ [])

  unfoldable pub stop_experiment : Action Iotlab ℤ
  stop_experiment =
      total (configure_profile none ∷ open_start (text "dc") ∷ Protocol.green_led_on sender ∷ [])

  -- The code of `cn_serial.start()` is not added.
  unfoldable pub autotest_setup : Action Iotlab ℤ
  autotest_setup = do
    ret ← reset
    modify (λ c. record c { cn_serial = record c.cn_serial { measures_debug = true } })
    on serial_part (Serial.start world none)
    time ← Protocol.set_time sender
    pure (ret +ℤ time)

  unfoldable pub autotest_teardown : Bool → Action Iotlab ℤ
  autotest_teardown stop_on = do
    ret ← if stop_on then open_stop (text "dc") else pure (pos 0)
    on serial_part (Serial.stop world)
    pure ret

  unfoldable pub status : Action Iotlab ℤ
  status = ftdi_check world "4232" none

  -- The class as the manager uses it, with the path of its default firmware.
  abbrev pub control_node : String → ControlNode Iotlab
  control_node fw_control_node = record {
    type_name = "iotlab";
    features = iotlab_features;
    elf_target = some ("ELFCLASS32", "EM_ARM");
    node_id = λ c. c.node_id;
    start = start;
    stop = stop;
    start_experiment = start_experiment;
    stop_experiment = stop_experiment;
    configure_profile = configure_profile;
    autotest_setup = autotest_setup;
    autotest_teardown = autotest_teardown;
    flash = flash fw_control_node;
    status = status;
    open_start = some open_start;
    open_stop = some open_stop;
    reset = some reset;
  }
