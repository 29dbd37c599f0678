-- ===== src/Manager/Autotests.antt =====
-- `auto_tests` of gateway_code/gateway_manager.py: the tests of Autotest, which use nothing of the
-- manager but its two nodes.
use iot_lab_gateway.Prelude.{ℕ, Bool, Option, none, some}
use iot_lab_gateway.Prelude.Int.{ℤ, pos}
use iot_lab_gateway.Effects.{World, Action, Part, on}
use iot_lab_gateway.Manager.State.{Manager, synchronous}
use iot_lab_gateway.Autotest.{AutoTest, Bench, Report}
use iot_lab_gateway.Autotest.Measures.{Floats}
use iot_lab_gateway.Autotest.Running as Running
use iot_lab_gateway.Autotest.Running.{auto_test_manager}

-- What the tests use: the methods of the nodes, floats, and the rounds of the connection's reading.
pub record Tests (C O F : Type 0) : Type 0 where
  pub bench : Bench (C × O)
  pub floats : Floats F
  pub fuel : ℕ

-- The manager's nodes as the object of a run of the tests.
abbrev pub run_part : {C O : Type 0} → Part (Manager C O) (AutoTest (C × O))
run_part = record {
  get = λ m. auto_test_manager (m.control, m.open_node);
  put = λ a m. record m { control = a.g_m.0; open_node = a.g_m.1 };
}

module _ {C O F : Type 0} (world : World) (tests : Tests C O F) where
  abbrev pub run_tests :
      (channel : Option ℕ) (blink flash gps : Bool) → Action (AutoTest (C × O)) Report
  run_tests channel blink flash gps =
      Running.auto_tests world tests.bench tests.floats tests.fuel channel blink flash gps

  -- `GatewayManager.auto_tests(channel, blink, flash, gps)`
  unfoldable pub auto_tests :
      ℕ → (channel : Option ℕ) (blink flash gps : Bool) → Action (Manager C O) Report
  auto_tests me channel blink flash gps =
      synchronous me (on run_part (run_tests channel blink flash gps))

-- The code of a report, which the run of the tests has set.
abbrev pub code_of : Report → ℤ
code_of report = elim report.ret [ none ↦ pos 0 | some code ↦ code ]
