-- ===== src/Autotest.antt =====
-- gateway_code/autotest/autotest.py: the state of a run of the auto-tests, the checks it records and
-- the commands to the open node. Boards whose open node runs Linux are not modelled.
pub mod Measures
pub mod Sensors
pub mod OnControl
pub mod Running
pub mod Board
pub mod Keeping
use iot_lab_gateway.Prelude.{
  ℕ, zero, suc, String, Bool, true, false, ◌&&◌, not, Option, none, some, List, [], ◌∷◌, ◌++◌, all,
  map, member, same, if◌then◌else◌,
}
use iot_lab_gateway.Prelude.Int.{ℤ, pos, negsuc, ◌==ℤ◌}
use iot_lab_gateway.Text.{concat, join}
use iot_lab_gateway.Profile.{Consumption, Radio}
use iot_lab_gateway.Effects.{
  World, Action, Part, pure, raise, gets, modify, on, ◌>>=◌, ◌>>◌, attribute_error, fatal_error,
  type_error,
}
use iot_lab_gateway.Connection
use iot_lab_gateway.Connection.{Connection}

-- `ret_dict`, with the identifier that `get_uid` adds.
pub record Report : Type 0 where
  pub ret : Option ℤ
  pub success : List String
  pub error : List String
  pub mac : List (String × String)
  pub open_node_uid : Option String

-- `AutoTestManager`. `ret_val` is the local variable of `auto_tests`, with what was added when an
-- exception leaves the tests.
pub record AutoTest (M : Type 0) : Type 0 where
  pub g_m : M
  pub on_serial : Option Connection
  pub tested_features : List String
  pub report : Report
  pub ret_val : ℤ

-- What the tests use of the manager and of the two node classes.
pub record Bench (M : Type 0) : Type 0 where
  -- `cn_class.FEATURES`, `on_class.AUTOTEST_AVAILABLE`, `ALIM`
  pub features : List String
  pub autotest_available : List String
  pub alim : String
  -- methods of the control node and of its protocol
  pub autotest_setup : Action M ℤ
  pub autotest_teardown : Bool → Action M ℤ
  pub open_start_dc : Action M ℤ
  pub send_cmd : List String → Action M ℤ
  pub config_radio : Option Radio → Action M ℤ
  pub config_consumption : Option Consumption → Action M ℤ
  pub green_led_blink : Action M ℤ
  -- methods of the open node: `setup(FW_AUTOTEST)`, `serial_redirection.stop()`, `teardown()`
  pub open_setup : Action M ℤ
  pub redirection_stop : Action M ℤ
  pub open_teardown : Action M ℤ

-- common.py, `object_attr_has`: every feature required is among those of the class.
abbrev pub object_attr_has : List String → List String → Bool
object_attr_has available required = all (λ feature. member feature available) required

-- common.py, `class_attr_has`: without the features, the method is not run and 0 is returned.
abbrev pub class_attr_has : {O A : Type 0} → List String → List String → A → Action O A → Action O A
class_attr_has available required skipped func =
    if object_attr_has available required then func else pure skipped

-- `tst_ok`
abbrev pub tst_ok : Bool → ℤ
tst_ok true = pos 0
tst_ok false = pos 1

-- `abs(int(ret))`
abbrev pub abs : ℤ → ℤ
abs (pos n) = pos n
abs (negsuc n) = pos (suc n)

-- `"On Command: %r" % cmd`, for words without quotes.
unfoldable pub on_command : List String → String
unfolding concat join
on_command cmd =
    concat
      ("On Command: [" ∷ join ", " (map (λ word. concat ("'" ∷ word ∷ "'" ∷ [])) cmd) ∷ "]" ∷ [])

-- `answer[0:2] == ['ACK', cmd]`
abbrev pub acked : String → Option (List String) → Bool
acked cmd (some (ack ∷ word ∷ rest)) = same ack "ACK" && same word cmd
acked cmd _ = false

abbrev pub succeeded : String → Report → Report
succeeded operation r = record r { success = r.success ++ operation ∷ [] }

abbrev pub in_error : String → Report → Report
in_error operation r = record r { error = r.error ++ operation ∷ [] }

module _ {M : Type 0} where
  abbrev pub g_m_part : Part (AutoTest M) M
  g_m_part = record { get = λ a. a.g_m; put = λ m a. record a { g_m = m } }

  abbrev pub serial_part : Connection → Part (AutoTest M) Connection
  serial_part c = record { get = λ a. c; put = λ d a. record a { on_serial = some d } }

  -- `self.on_serial.…`, which is None before the connection and after it.
  abbrev pub serial_call :
      {A : Type 0} → Option Connection → Action Connection A → Action (AutoTest M) A
  serial_call none m = raise attribute_error
  serial_call (some c) m = on (serial_part c) m

  abbrev pub with_serial : {A : Type 0} → Action Connection A → Action (AutoTest M) A
  with_serial m = gets (λ a. a.on_serial) >>= λ serial. serial_call serial m

  abbrev pub log : (Report → Report) → Action (AutoTest M) (Unit {0})
  log f = modify (λ a. record a { report = f a.report })

  abbrev pub tested : List String → Action (AutoTest M) (Unit {0})
  tested words = modify (λ a. record a { tested_features = words ++ a.tested_features })

  -- `_check`
  unfoldable pub check : ℤ → String → Action (AutoTest M) ℤ
  check ret operation =
      if ret ==ℤ pos 0
      then log (succeeded operation) >> pure (abs ret)
      else log (in_error operation) >> pure (abs ret)

  -- `_assert`
  unfoldable pub assert_ok : ℤ → String → Action (AutoTest M) (Unit {0})
  unfolding check
  assert_ok ret operation = do
    ret_val ← check ret operation
    if not (ret_val ==ℤ pos 0) then raise fatal_error else pure tt

  module _ (world : World) (bench : Bench M) where
    -- `autotest_checker(*required)`, around a method; `skipped` is what is returned without it.
    unfoldable pub autotest_checker :
        {A : Type 0} → List String → A → Action (AutoTest M) A → Action (AutoTest M) A
    autotest_checker required skipped func =
        if object_attr_has bench.autotest_available required
        then tested required >> func
        else pure skipped

    -- `autotest_control_node_checker(*required)`
    unfoldable pub control_node_checker :
        {A : Type 0} → List String → A → Action (AutoTest M) A → Action (AutoTest M) A
    control_node_checker required skipped func = class_attr_has bench.features required skipped func

    -- `_on_serial_send_command`
    unfoldable pub on_serial_send_command :
        String → List String → Action (AutoTest M) (Option (List String))
    on_serial_send_command cmd args =
        tested (cmd ∷ []) >> with_serial (Connection.send_command world (cmd ∷ args))

    -- `_on_call`: a wrong answer, or none, is an error in the report.
    unfoldable pub on_call : String → List String → Action (AutoTest M) (ℤ × Option (List String))
    unfolding on_serial_send_command check on_command
    on_call cmd args = do
      answer ← on_serial_send_command cmd args
      if acked cmd answer
          then pure (pos 0, answer)
          else check (pos 1) (on_command (cmd ∷ args)) >> pure (pos 1, answer)

    -- The function of `_run_test` on an answer: None has no items.
    abbrev pub parsed :
        {A : Type 0}
        → (List String → Action (AutoTest M) A)
        → Option (List String)
        → Action (AutoTest M) A
    parsed parse none = raise type_error
    parsed parse (some words) = parse words

    -- `_run_test`: the values of the answers that were acknowledged.
    unfoldable pub run_test :
        {A : Type 0}
        → ℕ
        → String
        → List String
        → (List String → Action (AutoTest M) A)
        → Action (AutoTest M) (List A)
    unfolding on_call
    run_test zero cmd args parse = pure []
    run_test (suc n) cmd args parse = do
      (ret, answer) ← on_call cmd args
      if not (ret ==ℤ pos 0) then run_test n cmd args parse else (do
        value ← parsed parse answer
        values ← run_test n cmd args parse
        pure (value ∷ values))

    -- `_open_node_start`
    unfoldable pub open_node_start : Action (AutoTest M) ℤ
    unfolding control_node_checker
    open_node_start =
        control_node_checker ("open_node_power" ∷ []) (pos 0) (on g_m_part bench.open_start_dc)
