-- ===== src/ControlNode/Rpi3.antt =====
-- gateway_code/control_nodes/cn_rpi3/__init__.py: a Raspberry Pi that switches the open node's USB
-- power and may stream a camera.
use iot_lab_gateway.Prelude.{ℕ, String, Option, none, some, [], ◌∷◌, if◌then◌else◌}
use iot_lab_gateway.Prelude.Int.{ℤ, pos, ◌==ℤ◌}
use iot_lab_gateway.Json.{Json, text}
use iot_lab_gateway.Profile.{Profile}
use iot_lab_gateway.Text.{concat}
use iot_lab_gateway.Effects.{
  World, Action, Part, pure, modify, perform, on, total, ◌>>=◌, ◌>>◌, run, is_file,
}
use iot_lab_gateway.OpenOcd.{call_code}
use iot_lab_gateway.Redirection
use iot_lab_gateway.Redirection.{External}
use iot_lab_gateway.ControlNode.{ControlNode, Files}
use iot_lab_gateway.ControlNode.Iotlab.{profile_or}

-- `ControlNodeRpi3`
pub record Rpi3 : Type 0 where
  pub node_id : String
  pub default_profile : Profile
  pub profile : Profile
  pub open_node_state : String
  pub mjpg_streamer : External

abbrev pub streamer_part : Part Rpi3 External
streamer_part = record { get = λ c. c.mjpg_streamer; put = λ p c. record c { mjpg_streamer = p } }

abbrev pub camera_config : String
camera_config = "/var/local/config/camera"

-- `YKUSHCMD.format(**_ykush_params(cmd))`
unfoldable pub ykush_cmd : String → String
unfolding concat
ykush_cmd cmd = concat ("sudo ykushcmd ykushxs " ∷ cmd ∷ " " ∷ [])

unfoldable pub configure_profile : Option Profile → Action Rpi3 ℤ
configure_profile profile =
    modify (λ c. record c { profile = profile_or profile c.default_profile }) >> pure (pos 0)

module _ (world : World) where
  -- `_call_cmd`, with no timeout.
  unfoldable pub call_cmd : String → Action Rpi3 ℤ
  call_cmd command = do outcome ← perform world (run command none); call_code outcome

  -- The state follows a command that succeeds.
  abbrev switch : String → String → Action Rpi3 ℤ
  switch flag state = do
    ret ← call_cmd (ykush_cmd flag)
    if ret ==ℤ pos 0
        then modify (λ c. record c { open_node_state = state }) >> pure ret
        else pure ret

  unfoldable pub open_start : Json → Action Rpi3 ℤ
  open_start power = switch "-u" "start"

  unfoldable pub open_stop : Json → Action Rpi3 ℤ
  open_stop power = switch "-d" "stop"

  -- `if os.path.isfile(CAMERA_CONFIG): ret_val += …`
  abbrev with_camera : Action External ℤ → Action Rpi3 ℤ
  with_camera m = do
    found ← perform world (is_file camera_config)
    if found then on streamer_part m else pure (pos 0)

  unfoldable pub start : ℕ → Files → Action Rpi3 ℤ
  unfolding open_start
  start exp_id exp_files = total (open_start (text "dc") ∷ [])

  unfoldable pub stop : Action Rpi3 ℤ
  unfolding open_stop
  stop = total (open_stop (text "dc") ∷ [])

  unfoldable pub start_experiment : Option Profile → Action Rpi3 ℤ
  unfolding configure_profile
  start_experiment profile =
      total (configure_profile profile ∷ with_camera (Redirection.start world) ∷ [])

  unfoldable pub stop_experiment : Action Rpi3 ℤ
  unfolding configure_profile open_start
  stop_experiment =
      total (
        configure_profile none ∷ open_start (text "dc") ∷ with_camera (Redirection.stop world) ∷ [])

  -- The class as the manager uses it: it has no reset.
  abbrev pub control_node : ControlNode Rpi3
  control_node = record {
    type_name = "rpi3";
    features = "open_node_power" ∷ [];
    elf_target = none;
    node_id = λ c. c.node_id;
    start = start;
    stop = stop;
    start_experiment = start_experiment;
    stop_experiment = stop_experiment;
    configure_profile = configure_profile;
    autotest_setup = pure (pos 0);
    autotest_teardown = λ stop_on. pure (pos 0);
    flash = λ firmware binary offset. pure (pos 0);
    status = pure (pos 0);
    open_start = some open_start;
    open_stop = some open_stop;
    reset = none;
  }
