-- ===== src/ControlNode/None.antt =====
-- gateway_code/control_nodes/cn_no/__init__.py and open_nodes/common/node_no.py: nodes that are
-- not there.
use iot_lab_gateway.Prelude.{String, Option, none, some, [], ◌∷◌}
use iot_lab_gateway.Prelude.Int.{ℤ, pos}
use iot_lab_gateway.Profile.{Profile}
use iot_lab_gateway.Effects.{Action, pure, modify, total, ◌>>◌}
use iot_lab_gateway.ControlNode.{ControlNode}
use iot_lab_gateway.ControlNode.Iotlab.{profile_or}
use iot_lab_gateway.OpenNode.{OpenNode}

-- `ControlNodeNo`
pub record NoControlNode : Type 0 where
  pub node_id : String
  pub default_profile : Profile
  pub profile : Profile

unfoldable pub configure_profile : Option Profile → Action NoControlNode ℤ
configure_profile profile =
    modify (λ c. record c { profile = profile_or profile c.default_profile }) >> pure (pos 0)

-- `start_experiment` and, for no profile, `stop_experiment`.
unfoldable pub start_experiment : Option Profile → Action NoControlNode ℤ
unfolding configure_profile
start_experiment profile = total (configure_profile profile ∷ [])

unfoldable pub stop_experiment : Action NoControlNode ℤ
unfolding configure_profile
stop_experiment = total (configure_profile none ∷ [])

-- The class as the manager uses it: it has no power switch and no reset.
abbrev pub control_node : ControlNode NoControlNode
control_node = record {
  type_name = "no";
  features = [];
  elf_target = none;
  node_id = λ c. c.node_id;
  start = λ exp_id files. pure (pos 0);
  stop = pure (pos 0);
  start_experiment = start_experiment;
  stop_experiment = stop_experiment;
  configure_profile = configure_profile;
  autotest_setup = pure (pos 0);
  autotest_teardown = λ stop_on. pure (pos 0);
  flash = λ firmware binary offset. pure (pos 0);
  status = pure (pos 0);
  open_start = none;
  open_stop = none;
  reset = none;
}

-- `NodeNoBase`, for the attributes of a subclass.
abbrev pub open_node : String → String → String → OpenNode (Unit {0})
open_node name tty alim = record {
  type_name = name;
  tty = tty;
  alim = alim;
  elf_target = none;
  setup = λ firmware. pure (pos 0);
  teardown = pure (pos 0);
  status = pure (pos 0);
  flash = some (λ firmware binary offset. pure (pos 0));
  reset = some (pure (pos 0));
  debug_start = none;
  debug_stop = none;
}
