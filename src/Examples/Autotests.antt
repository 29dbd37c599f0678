-- ===== src/Examples/Autotests.antt =====
-- A run of the auto-tests on an M3 board, whose node answers the echo and the time.
use iot_lab_gateway.Prelude.{
  ℕ, String, Bool, true, false, ◌≡◌, ◌≤◌, refl, Option, none, some, List, [], ◌∷◌, All, arith,
  length, member, same, if◌then◌else◌,
}
use iot_lab_gateway.Prelude.Int.{ℤ, pos, IsNonneg}
use iot_lab_gateway.Text.{concat, split, strip}
use iot_lab_gateway.Effects.{
  pure, Result, World, State, Call, returned, lines, exchange, read_line, write_line,
  received_measures,
}
use iot_lab_gateway.Autotest.{AutoTest, Report}
use iot_lab_gateway.Autotest.Measures.{Floats}
use iot_lab_gateway.Autotest.Running.{auto_tests, auto_test_manager, no_report}
use iot_lab_gateway.Autotest.Running.Reports.{all_checks, auto_tests-Passed, auto_tests-IsNonneg}
use iot_lab_gateway.Rest.Autotests.{arguments_of, arguments}
use iot_lab_gateway.Rest.Autotests.Checking.{arguments_of-bounds}
use iot_lab_gateway.Autotest.{Bench}
use iot_lab_gateway.Autotest.Keeping.{IsCounting}
use iot_lab_gateway.Protocol.Codes.{NoNegative-pure}
use iot_lab_gateway.Prelude.{ltb, ◌⊎◌, inl, inr}
use iot_lab_gateway.Effects.{is_alive, send_signal, done, os_failed, Attempt}
use iot_lab_gateway.Redirection.Signals.{stop_loop}
use iot_lab_gateway.Redirection.Signals.Ending.{kills, IsKillable, stop_loop-Ends}
use iot_lab_gateway.Examples.{answer}

abbrev first_word : List String → String
first_word [] = ""
first_word (word ∷ rest) = word

-- The line that the node sends after what was written to it last.
abbrev reply_to : List Call → Option String
reply_to (write_line url line ∷ calls) =
    if same line "echo HELLO WORLD\n" then some "HELLO WORLD\n" else some "ACK get_time 12 ticks\n"
reply_to calls = none

-- The control node acknowledges every command, and measures twice.
abbrev lively : World
lively calls (exchange line) =
    lines (concat (first_word (split b' ' (strip line)) ∷ " ACK\n" ∷ []) ∷ [])
lively calls (read_line url) = reply_to calls
lively calls received_measures =
    ("measures_debug" ∷ "consumption_measure" ∷ "1" ∷ "1" ∷ "2" ∷ "3" ∷ [])
    ∷ ("measures_debug" ∷ "consumption_measure" ∷ "2" ∷ "4" ∷ "5" ∷ "6" ∷ [])
    ∷ []
lively calls call = answer calls call

-- Texts in place of floats, all of them different.
abbrev pub texts : Floats String
texts = record {
  float = λ t. some t;
  clock = λ n. "";
  less = λ a b. true;
  len_set = length;
  len_set_tuples = length;
  bisect = λ ts t. 0;
  nan = "";
}

-- A bench on which every method succeeds at once.
abbrev pub bench : {M : Type 0} → Bench M
bench = record {
  features = "open_node_power" ∷ [];
  autotest_available = "echo" ∷ "get_time" ∷ [];
  alim = "5V";
  autotest_setup = pure (pos 0);
  autotest_teardown = λ stop_on. pure (pos 0);
  open_start_dc = pure (pos 0);
  send_cmd = λ args. pure (pos 0);
  config_radio = λ radio. pure (pos 0);
  config_consumption = λ consumption. pure (pos 0);
  green_led_blink = pure (pos 0);
  open_setup = pure (pos 0);
  redirection_stop = pure (pos 0);
  open_teardown = pure (pos 0);
}

bench-IsCounting : IsCounting (bench {M = Unit {0}})
bench-IsCounting = record {
  open_start = NoNegative-pure (pos 0) (ground arith);
  command = λ args. NoNegative-pure (pos 0) (ground arith);
  radio = λ radio. NoNegative-pure (pos 0) (ground arith);
  consumption = λ consumption. NoNegative-pure (pos 0) (ground arith);
}

abbrev start : State (AutoTest (Unit {0}))
start = record { self = auto_test_manager tt; trace = [] }

abbrev run : Result Report × State (AutoTest (Unit {0}))
run = auto_tests lively bench texts 3 none true false false start

abbrev report : Report
report = record {
  ret = some (pos 0);
  success =
      "gw_mac_addr" ∷ "setup_cn_connection" ∷ "open_node_setup" ∷ "open_node_connection"
      ∷ "on_serial_echo" ∷ "on_serial_get_time" ∷ "switch_to_dc" ∷ "teardown" ∷ [];
  error = [];
  mac = ("GWT", "02:00:00:00:00:01") ∷ [];
  open_node_uid = none;
}

run-reported : run ≡ (returned report, run.1)
unfolding auto_tests iot_lab_gateway.Autotest.check iot_lab_gateway.Autotest.assert_ok
    iot_lab_gateway.Prelude.Int.◌+ℤ◌ iot_lab_gateway.Autotest.OnControl.test_consumption_batt
    iot_lab_gateway.Autotest.control_node_checker iot_lab_gateway.Autotest.open_node_start
    iot_lab_gateway.Connection.start iot_lab_gateway.Connection.empty
    iot_lab_gateway.Autotest.Sensors.check_echo iot_lab_gateway.Autotest.on_serial_send_command
    iot_lab_gateway.Connection.send_command iot_lab_gateway.Autotest.Sensors.check_get_time
    iot_lab_gateway.Autotest.on_call iot_lab_gateway.Autotest.run_test
    iot_lab_gateway.Autotest.Sensors.get_uid iot_lab_gateway.Autotest.autotest_checker
    iot_lab_gateway.Autotest.Sensors.set_leds_off_and_on
    iot_lab_gateway.Autotest.OnControl.test_consumption_dc
    iot_lab_gateway.Autotest.OnControl.test_gpio iot_lab_gateway.Autotest.OnControl.test_i2c
    iot_lab_gateway.Autotest.OnControl.test_leds_with_consumption
    iot_lab_gateway.Autotest.OnControl.test_radio_ping_pong
    iot_lab_gateway.Autotest.OnControl.test_radio_with_rssi
    iot_lab_gateway.Autotest.Running.on_serial_stop iot_lab_gateway.Autotest.Running.set_result_leds
    iot_lab_gateway.Autotest.Sensors.test_accelero iot_lab_gateway.Autotest.Sensors.test_flash
    iot_lab_gateway.Autotest.Sensors.test_gps iot_lab_gateway.Autotest.Sensors.test_gyro
    iot_lab_gateway.Autotest.Sensors.test_light iot_lab_gateway.Autotest.Sensors.test_magneto
    iot_lab_gateway.Autotest.Sensors.test_pressure iot_lab_gateway.Connection.read_words
    iot_lab_gateway.Connection.stop
run-reported = refl

auto_tests-Passed_example : All (λ operation. member operation report.success ≡ true) all_checks
auto_tests-Passed_example =
    auto_tests-Passed lively bench bench-IsCounting texts none false false tt [] 3 true report run.1
      run-reported refl

auto_tests-IsNonneg_example : IsNonneg (pos 0)
auto_tests-IsNonneg_example =
    auto_tests-IsNonneg lively bench bench-IsCounting texts none false false tt [] 3 true report
      run.1 (pos 0) run-reported refl

some_arguments : arguments_of (some "blink") "15" "" "1" ≡ arguments (some 15) true true false
unfolding arguments_of
some_arguments = refl

arguments_of-bounds_example : (11 ≤ 15) × (15 ≤ 26)
arguments_of-bounds_example =
    arguments_of-bounds (some "blink") "15" "" "1" 15 true true false some_arguments

-- A process that ends at the first SIGKILL, and at nothing else; its thread lives on for a while, in
-- which signals fail.
abbrev stubborn : World
stubborn calls (is_alive cmd) = ltb (kills cmd calls) 6
stubborn calls (send_signal cmd signal) = if ltb (kills cmd calls) 1 then done tt else os_failed 3
stubborn calls call = answer calls call

taken_or_gone :
    (b : Bool)
    → (◌≡◌ {A = Attempt (Unit {0})} (if b then done tt else os_failed 3) (done tt))
      ⊎ (◌≡◌ {A = Attempt (Unit {0})} (if b then done tt else os_failed 3) (os_failed 3))
taken_or_gone true = inl refl
taken_or_gone false = inr refl

stubborn-IsKillable : IsKillable stubborn "socat" 6
stubborn-IsKillable = record {
  there = λ calls. refl;
  taken = λ calls signal. taken_or_gone (ltb (kills "socat" calls) 1);
  ended = λ calls h. ground (arith, h);
}

stop_loop-Ends_example : (stop_loop stubborn "socat" 27 0 start).0 ≡ returned true
stop_loop-Ends_example = stop_loop-Ends stubborn "socat" 6 stubborn-IsKillable start
