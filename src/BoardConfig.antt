-- ===== src/BoardConfig.antt =====
-- gateway_code/board_config.py, and `read_config` of gateway_code/config.py: the files that say
-- what board this is.
use iot_lab_gateway.Prelude.{String, Option, none, some, List, [], ◌∷◌, same, if◌then◌else◌}
use iot_lab_gateway.Text.{concat, strip, lower, replace}
use iot_lab_gateway.Json.{Json}
use iot_lab_gateway.Profile.{Profile, Checked, valid, failed, from_dict}
use iot_lab_gateway.Effects.{
  World, Action, Attempt, done, io_failed, os_failed, pure, raise, perform, ◌>>=◌, read_file,
  io_error, value_error, os_error,
}
use iot_lab_gateway.Nodes.{Verifier, node_class, open_node_class}

-- The argument `default` of `read_config`: IOError, or a value.
pub data Default : Type 0 where
  required : Default
  value : Option String → Default

-- `BoardConfig`, over the classes of the nodes.
pub record BoardConfig (N : Type 0) : Type 0 where
  pub board_class : N
  pub cn_class : N
  pub linux_on_class : Option N
  pub robot_type : Option String
  pub node_id : Option String
  pub default_profile : Option Profile

module _ {O : Type 0} (world : World) (config_path : String) where
  abbrev normalized : Default → Attempt String → Action O (Option String)
  normalized default (done text) = pure (some (replace b'-' "_" (lower (strip text))))
  normalized required (io_failed n) = raise (io_error n)
  normalized (value d) (io_failed n) = pure d
  normalized default (os_failed n) = raise (os_error n)

  unfoldable pub read_config : String → Default → Action O (Option String)
  read_config key default = do
    answer ← perform world (read_file (concat (config_path ∷ "/" ∷ key ∷ [])))
    normalized default answer

  module _ {N : Type 0} (type_name : N → String) (alim : N → String) (verifier : N → Verifier)
      (registry : List (String × N)) (default_profile : Json) where
    -- No class is registered under None.
    abbrev open_class : Option String → Action O N
    open_class none = raise value_error
    open_class (some name) = open_node_class type_name world verifier registry name

    abbrev control_class : Option String → Action O N
    control_class none = raise value_error
    control_class (some name) = node_class type_name registry name

    -- `linux_on_type` if it is neither None nor empty.
    abbrev linux_class : Option String → Action O (Option N)
    linux_class none = pure none
    linux_class (some name) =
        if same name "" then pure none else open_class (some name) >>= λ class. pure (some class)

    abbrev profile_of : Checked (Option Profile) → Action O (Option Profile)
    profile_of (valid profile) = pure profile
    profile_of (failed e) = raise e

    -- `BoardConfig.__init__`
    unfoldable pub init : Action O (BoardConfig N)
    unfolding read_config
    init = do
      board_type ← read_config "board_type" required
      board_class ← open_class board_type
      cn_type ← read_config "control_node_type" (value (some "iotlab"))
      cn_class ← control_class cn_type
      linux_on_type ← read_config "linux_open_node_type" (value none)
      linux_on_class ← linux_class linux_on_type
      robot_type ← read_config "robot" (value none)
      node_id ← read_config "hostname" required
      profile ← profile_of (from_dict (alim board_class) default_profile)
      pure (record {
        board_class = board_class;
        cn_class = cn_class;
        linux_on_class = linux_on_class;
        robot_type = robot_type;
        node_id = node_id;
        default_profile = profile;
      })
