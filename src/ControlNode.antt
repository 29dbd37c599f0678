-- ===== src/ControlNode.antt =====
-- gateway_code/nodes.py, `ControlNodeBase`: what the manager uses of a control node class, as a
-- record of its methods. A method that a class may lack is an option.
pub mod Iotlab
pub mod IotlabM3
pub mod Rpi3
pub mod None
use iot_lab_gateway.Prelude.{ℕ, String, Bool, Option, List}
use iot_lab_gateway.Prelude.Int.{ℤ}
use iot_lab_gateway.Json.{Json}
use iot_lab_gateway.Profile.{Profile}
use iot_lab_gateway.Effects.{Action}

-- Files of an experiment: the kind of data and the path.
abbrev pub Files : Type 0
Files = List (String × String)

pub record ControlNode (C : Type 0) : Type 0 where
  -- class attributes
  pub type_name : String
  pub features : List String
  pub elf_target : Option (String × String)
  -- methods
  pub node_id : C → String
  pub start : ℕ → Files → Action C ℤ
  pub stop : Action C ℤ
  pub start_experiment : Option Profile → Action C ℤ
  pub stop_experiment : Action C ℤ
  pub configure_profile : Option Profile → Action C ℤ
  pub autotest_setup : Action C ℤ
  pub autotest_teardown : Bool → Action C ℤ
  pub flash : Option String → Bool → ℤ → Action C ℤ
  pub status : Action C ℤ
  pub open_start : Option (Json → Action C ℤ)
  pub open_stop : Option (Json → Action C ℤ)
  pub reset : Option (Action C ℤ)
