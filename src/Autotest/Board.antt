-- ===== src/Autotest/Board.antt =====
-- The auto-tests on a board with an IoT-LAB control node and an OpenOCD open node.
use iot_lab_gateway.Prelude.{some}
use iot_lab_gateway.Prelude.Int.{ℤ, pos, ◌==ℤ◌}
use iot_lab_gateway.Json.{text}
use iot_lab_gateway.Effects.{World, Action, Part, on, gets, modify}
use iot_lab_gateway.Effects.Codes.{NoNegative}
use iot_lab_gateway.Protocol
use iot_lab_gateway.Protocol.Codes.{
  NoNegative-bind, NoNegative-counted, NoNegative-if, NoNegative-pure, NoNegative-send_cmd,
  NoNegative-start_stop, NoNegative-config_consumption, NoNegative-config_radio,
}
use iot_lab_gateway.ControlNode.Iotlab
use iot_lab_gateway.ControlNode.Iotlab.{Iotlab, sender}
use iot_lab_gateway.Redirection
use iot_lab_gateway.OpenNode.WithOpenOcd
use iot_lab_gateway.OpenNode.WithOpenOcd.{OpenOcdNode, NodeClass, redirection_part}
use iot_lab_gateway.Autotest.{Bench}
use iot_lab_gateway.Autotest.Keeping.{IsCounting}

-- The two nodes, as parts of the pair that the tests use of the manager.
abbrev pub control_of : {C O : Type 0} → Part (C × O) C
control_of = record { get = λ p. p.0; put = λ c p. (c, p.1) }

abbrev pub open_of : {C O : Type 0} → Part (C × O) O
open_of = record { get = λ p. p.1; put = λ o p. (p.0, o) }

module _ (world : World) (class : NodeClass) where
  abbrev pub on_control : {A : Type 0} → Action Iotlab A → Action (Iotlab × OpenOcdNode) A
  on_control m = on control_of m

  abbrev pub on_open : {A : Type 0} → Action OpenOcdNode A → Action (Iotlab × OpenOcdNode) A
  on_open m = on open_of m

  abbrev pub iotlab_bench : Bench (Iotlab × OpenOcdNode)
  iotlab_bench = record {
    features = Iotlab.iotlab_features;
    autotest_available = class.autotest_available;
    alim = class.alim;
    autotest_setup = on_control (Iotlab.autotest_setup world);
    autotest_teardown = λ stop_on. on_control (Iotlab.autotest_teardown world stop_on);
    open_start_dc = on_control (Iotlab.open_start world (text "dc"));
    send_cmd = λ args. on_control (Protocol.send_cmd (sender world) args);
    config_radio = λ r. on_control (Protocol.config_radio (sender world) r);
    config_consumption = λ c. on_control (Protocol.config_consumption (sender world) c);
    green_led_blink = on_control (Protocol.green_led_blink (sender world));
    open_setup = on_open (WithOpenOcd.setup world class (some class.fw_autotest));
    redirection_stop = on_open (on redirection_part (Redirection.stop world));
    open_teardown = on_open (WithOpenOcd.teardown world class);
  }

NoNegative-on :
    {O P : Type 0} (part : Part O P) (m : Action P ℤ) → NoNegative m → NoNegative (on part m)
NoNegative-on part m n = record {
  nonneg = λ s code e. n.nonneg (record { self = part.get s.self; trace = s.trace }) code e;
}

NoNegative-open_start : (world : World) → NoNegative (Iotlab.open_start world (text "dc"))
unfolding Iotlab.open_start
NoNegative-open_start world = NoNegative-bind (gets (λ c. c)) _ λ c.
    NoNegative-counted _ _ (NoNegative-start_stop (sender world) "start" (text "dc")) λ ret n.
      NoNegative-if (ret ==ℤ pos 0) _ _
        (NoNegative-bind (modify (λ c. record c { open_node_state = "start" })) _
          λ _. NoNegative-pure ret n)
        (NoNegative-pure ret n)

-- No command to an IoT-LAB control node returns a negative code.
pub iotlab_bench-IsCounting :
    (world : World) (class : NodeClass) → IsCounting (iotlab_bench world class)
iotlab_bench-IsCounting world class = record {
  open_start = NoNegative-on control_of _ (NoNegative-open_start world);
  command = λ args. NoNegative-on control_of _ (NoNegative-send_cmd (sender world) args);
  radio = λ r. NoNegative-on control_of _ (NoNegative-config_radio (sender world) r);
  consumption = λ c. NoNegative-on control_of _ (NoNegative-config_consumption (sender world) c);
}
