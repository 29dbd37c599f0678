-- ===== src/ControlNode/IotlabM3.antt =====
-- gateway_code/control_nodes/cn_iotlabm3: a control node on a standalone M3, which does not switch
-- the open node. The methods that it inherits from the IoT-LAB control node call its own.
use iot_lab_gateway.Prelude.{ℕ, String, Bool, Option, none, some, [], ◌∷◌, if◌then◌else◌}
use iot_lab_gateway.Prelude.Int.{ℤ, pos}
use iot_lab_gateway.Json.{Json, text}
use iot_lab_gateway.Profile.{Profile}
use iot_lab_gateway.Effects.{World, Action, pure, gets, modify, on, total, ◌>>=◌, ◌>>◌}
use iot_lab_gateway.Serial
use iot_lab_gateway.Protocol
use iot_lab_gateway.FtdiCheck.{ftdi_check}
use iot_lab_gateway.ControlNode.{ControlNode, Files}
use iot_lab_gateway.ControlNode.Iotlab
use iot_lab_gateway.ControlNode.Iotlab.{Iotlab, oml_xml_config, profile_or, sender, serial_part}

module _ (world : World) where
  -- Monitoring of the radio only.
  unfoldable pub configure_profile : Option Profile → Action Iotlab ℤ
  configure_profile profile = do
    modify (λ c. record c { profile = profile_or profile c.default_profile })
    c ← gets (λ c. c)
    Protocol.config_radio (sender world) c.profile.radio

  unfoldable pub open_start : Json → Action Iotlab ℤ
  open_start power = pure (pos 0)

  unfoldable pub open_stop : Json → Action Iotlab ℤ
  open_stop power = pure (pos 0)

  unfoldable pub status : Action Iotlab ℤ
  status = ftdi_check world "2232" none

  unfoldable pub start : ℕ → Files → Action Iotlab ℤ
  unfolding open_start
  start exp_id exp_files = total (
      Iotlab.reset world
      ∷ (do
        node_id ← gets (λ c. c.node_id)
        on serial_part (Serial.start world (oml_xml_config node_id exp_id exp_files)))
      ∷ open_start (text "dc")
      ∷ [])

  unfoldable pub stop : Action Iotlab ℤ
  unfolding open_stop
  stop =
      total (open_stop (text "dc") ∷ on serial_part (Serial.stop world) ∷ Iotlab.reset world ∷ [])

  unfoldable pub start_experiment : Option Profile → Action Iotlab ℤ
  unfolding configure_profile
  start_experiment profile = total (
      Protocol.green_led_blink (sender world)
      ∷ Protocol.set_time (sender world)
      ∷ (do node_id ← gets (λ c. c.node_id); Protocol.set_node_id (sender world) node_id)
      ∷ configure_profile profile
      ∷ [])

  unfoldable pub stop_experiment : Action Iotlab ℤ
  unfolding configure_profile open_start
  stop_experiment =
      total (
        configure_profile none ∷ open_start (text "dc") ∷ Protocol.green_led_on (sender world) ∷ [])

  unfoldable pub autotest_teardown : Bool → Action Iotlab ℤ
  unfolding open_stop
  autotest_teardown stop_on = do
    ret ← if stop_on then open_stop (text "dc") else pure (pos 0)
    on serial_part (Serial.stop world)
    pure ret

  -- The class as the manager uses it, with the path of its default firmware.
  abbrev pub control_node : String → ControlNode Iotlab
  control_node fw_control_node = record {
    type_name = "iotlabm3";
    features = "leds" ∷ "radio" ∷ [];
    elf_target = some ("ELFCLASS32", "EM_ARM");
    node_id = λ c. c.node_id;
    start = start;
    stop = stop;
    start_experiment = start_experiment;
    stop_experiment = stop_experiment;
    configure_profile = configure_profile;
    autotest_setup = Iotlab.autotest_setup world;
    autotest_teardown = autotest_teardown;
    flash = Iotlab.flash world fw_control_node;
    status = status;
    open_start = some open_start;
    open_stop = some open_stop;
    reset = some (Iotlab.reset world);
  }
