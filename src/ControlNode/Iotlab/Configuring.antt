-- ===== src/ControlNode/Iotlab/Configuring.antt =====
-- What the return code of `configure_profile` says of the commands that it sends.
use iot_lab_gateway.Prelude.{◌↔◌, String, Option, List, [], ◌∷◌}
use iot_lab_gateway.Prelude.Int.{ℤ, pos}
use iot_lab_gateway.Profile.{Profile}
use iot_lab_gateway.Effects.{World, State, Action}
use iot_lab_gateway.Effects.Codes.{Yields, AllSucceed, total-AllSucceed, AllSucceed-total}
use iot_lab_gateway.Protocol.{start_stop, config_consumption, config_radio}
use iot_lab_gateway.Protocol.Codes.{
  NoNegative-start_stop, NoNegative-config_consumption, NoNegative-config_radio,
}
use iot_lab_gateway.ControlNode.Iotlab.{Iotlab, sender, profile_or, configure_profile}

-- The profile is the one that is kept from now on.
abbrev pub with_profile : Profile → State Iotlab → State Iotlab
with_profile p s = record { self = record s.self { profile = p }; trace = s.trace }

-- The commands of a profile, for a state of the open node.
abbrev pub commands : World → String → Profile → List (Action Iotlab ℤ)
commands world state p =
    start_stop (sender world) state p.power
    ∷ config_consumption (sender world) p.consumption
    ∷ config_radio (sender world) p.radio
    ∷ []

-- `configure_profile` returns 0 exactly if the three commands, of the power with the open node's
-- state as it was, of the consumption and of the radio, all return 0, one after the other, for the
-- profile given, or for the default profile if there is none.
pub AllSucceed-configure_profile :
    (world : World) (profile : Option Profile) (s : State Iotlab)
    → Yields (configure_profile world profile) s (pos 0)
      ↔ AllSucceed
          (commands world s.self.open_node_state (profile_or profile s.self.default_profile))
          (with_profile (profile_or profile s.self.default_profile) s)
unfolding configure_profile
AllSucceed-configure_profile world profile s =
    let p = profile_or profile s.self.default_profile in
    let ms = commands world s.self.open_node_state p in
    (
      λ e.
          AllSucceed-total ms (with_profile p s)
            (
              NoNegative-start_stop (sender world) s.self.open_node_state p.power,
              (
                NoNegative-config_consumption (sender world) p.consumption,
                (NoNegative-config_radio (sender world) p.radio, tt),
              ),
            )
            e,
      λ h. total-AllSucceed ms (with_profile p s) h,
    )
