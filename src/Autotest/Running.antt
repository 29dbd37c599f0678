-- ===== src/Autotest/Running.antt =====
-- gateway_code/autotest/autotest.py: the connection to the two nodes, its end, and `auto_tests`.
pub mod Sound
pub mod Opening
pub mod Closing
pub mod Reports
use Prim.Native.Char.{code}
use iot_lab_gateway.Prelude.{
  true, false, ℕ, zero, suc, String, Bool, false, ◌&&◌, ◌||◌, not, Option, none, some, [], ◌∷◌,
  ◌++◌, leb, ◌==◌, if◌then◌else◌,
}
use iot_lab_gateway.Prelude.Int.{ℤ, pos, ◌+ℤ◌, ◌==ℤ◌}
use iot_lab_gateway.Text.{is_digit, strip}
use iot_lab_gateway.Effects.{
  Attempt, Exception, World, Action, pure, raise, gets, modify, on, perform, try_except, ◌>>=◌,
  ◌>>◌, sleep, check_output, attribute_error, fatal_error, called_process_error,
}
use iot_lab_gateway.OpenOcd.{attempted}
use iot_lab_gateway.Connection
use iot_lab_gateway.Connection.{Connection}
use iot_lab_gateway.Autotest.{
  AutoTest, Bench, Report, autotest_checker, control_node_checker, check, assert_ok, tst_ok,
  on_call, g_m_part, with_serial, log, open_node_start,
}
use iot_lab_gateway.Autotest.Measures.{Floats}
use iot_lab_gateway.Autotest.Sensors.{
  check_echo, check_get_time, get_uid, set_leds_off_and_on, test_gyro, test_magneto, test_accelero,
  test_pressure, test_light, test_flash, test_gps,
}
use iot_lab_gateway.Autotest.OnControl.{
  test_consumption_batt, test_gpio, test_i2c, test_radio_ping_pong, test_radio_with_rssi,
  test_consumption_dc, test_leds_with_consumption,
}

abbrev pub is_hex : ℕ → Bool
is_hex c = is_digit c || (leb 97 c && leb c 102)

-- `MAC_RE.match(text)`: pairs of hexadecimal digits, `n` of them with a colon behind, then one.
unfoldable pub is_mac : ℕ → String → Bool
is_mac zero (String.◌∷◌ a (String.◌∷◌ b rest)) = is_hex (code a) && is_hex (code b)
is_mac (suc n) (String.◌∷◌ a (String.◌∷◌ b (String.◌∷◌ c rest))) =
    is_hex (code a) && is_hex (code b) && (code c == b':') && is_mac n rest
is_mac n s = false

abbrev pub is_fatal : Exception → Bool
is_fatal fatal_error = true
is_fatal e = false

abbrev pub is_attribute : Exception → Bool
is_attribute attribute_error = true
is_attribute e = false

-- `self.ret_dict = {…}`, before the tests
abbrev pub no_report : Report
no_report = record { ret = none; success = []; error = []; mac = []; open_node_uid = none }

-- `AutoTestManager(gateway_manager)`
abbrev pub auto_test_manager : {M : Type 0} → M → AutoTest M
auto_test_manager m = record {
  g_m = m;
  on_serial = none;
  tested_features = [];
  report = no_report;
  ret_val = pos 0;
}

module _ {M : Type 0} where
  -- `except FatalError: return 1`, and `except AttributeError: ret_val += 1`
  abbrev pub fatal_as_1 : Exception → Action (AutoTest M) ℤ
  fatal_as_1 e = if is_fatal e then pure (pos 1) else raise e

  abbrev pub none_as_1 : Exception → Action (AutoTest M) ℤ
  none_as_1 e = if is_attribute e then pure (pos 1) else raise e

  -- `ret_val += test()`
  abbrev pub add : Action (AutoTest M) ℤ → Action (AutoTest M) (Unit {0})
  add m = m >>= λ code. modify (λ a. record a { ret_val = a.ret_val +ℤ code })

  -- The output of a command that succeeded.
  abbrev pub stripped : Option (Attempt String) → Action (AutoTest M) String
  stripped none = raise called_process_error
  stripped (some outcome) = attempted outcome >>= λ mac. pure (strip mac)

  abbrev pub set_mac : String → AutoTest M → AutoTest M
  set_mac mac_addr a = record a {
    report = record a.report { mac = a.report.mac ++ ("GWT", mac_addr) ∷ [] };
  }

  -- `OpenNodeConnection()`
  abbrev pub new_serial : AutoTest M → AutoTest M
  new_serial a = record a {
    on_serial = some (record { address = "localhost:20000"; connected = false });
  }

  abbrev pub no_serial : AutoTest M → AutoTest M
  no_serial a = record a { on_serial = none }

  abbrev pub no_features : AutoTest M → AutoTest M
  no_features a = record a { tested_features = [] }

  abbrev pub set_ret : AutoTest M → AutoTest M
  set_ret a = record a { report = record a.report { ret = some a.ret_val } }

  -- `get_local_mac_addr`
  abbrev pub get_local_mac_addr : World → Action (AutoTest M) String
  get_local_mac_addr world = do
    output ← perform world (check_output "cat /sys/class/net/eth0/address")
    stripped output

  module _ (world : World) (bench : Bench M) where
    unfoldable pub setup_control_node : Action (AutoTest M) (Unit {0})
    unfolding is_mac strip
    setup_control_node = do
      configured ← on g_m_part bench.autotest_setup
      gwt_mac_addr ← get_local_mac_addr world
      modify (set_mac gwt_mac_addr)
      ok ← check (tst_ok (is_mac 5 gwt_mac_addr)) "gw_mac_addr"
      assert_ok (configured +ℤ ok) "setup_cn_connection"

    -- `_setup_open_node`
    unfoldable pub setup_open_node : Action (AutoTest M) ℤ
    setup_open_node = do
      ret ← on g_m_part bench.open_setup
      flashed ← check ret "open_node_setup"
      modify new_serial
      started ← with_serial (Connection.start world)
      connected ← check started "open_node_connection"
      pure (flashed +ℤ connected)

    -- `_setup_open_node_connection`; `fuel` bounds the lines that `empty` reads.
    unfoldable pub setup_open_node_connection : ℕ → Action (AutoTest M) (Unit {0})
    unfolding setup_open_node
    setup_open_node_connection fuel = do
      started ← open_node_start world bench
      connected ← setup_open_node
      with_serial (Connection.empty world fuel)
      if not ((started +ℤ connected) ==ℤ pos 0) then raise fatal_error else pure tt

    -- `_on_serial_stop`
    unfoldable pub on_serial_stop : Action (AutoTest M) ℤ
    on_serial_stop =
        try_except (with_serial (Connection.stop world) >> pure (pos 0)) none_as_1 >>= λ ret.
        modify no_serial >> pure ret

    -- `_teardown_open_node(stop)`
    unfoldable pub teardown_open_node : Bool → Action (AutoTest M) ℤ
    unfolding on_serial_stop
    teardown_open_node stop = do
      closed ← on_serial_stop
      redirected ← on g_m_part bench.redirection_stop
      stopped ← if stop then on g_m_part bench.open_teardown else pure (pos 0)
      pure (closed +ℤ redirected +ℤ stopped)

    -- `_control_node_leds_blink`, whose code is not used
    abbrev pub control_node_leds_blink : Action (AutoTest M) ℤ
    control_node_leds_blink =
        control_node_checker world bench ("leds" ∷ []) (pos 0) (on g_m_part bench.green_led_blink)

    abbrev pub set_leds : Bool → Action (AutoTest M) ℤ
    set_leds blink = do
      on_call world bench "leds_off" ("7" ∷ [])
      if not blink then pure (pos 0) else (do
        on_call world bench "leds_blink" ("7" ∷ "500" ∷ [])
        control_node_leds_blink
        pure (pos 0))

    unfoldable pub set_result_leds : Bool → Action (AutoTest M) ℤ
    set_result_leds blink =
        autotest_checker world bench ("leds_off" ∷ "leds_blink" ∷ []) (pos 0)
          (try_except (set_leds blink) fatal_as_1)

    -- `teardown(blink)`; the code of the control node's own is not used.
    unfoldable pub teardown : Bool → Action (AutoTest M) ℤ
    unfolding teardown_open_node set_result_leds
    teardown blink = do
      started ← open_node_start world bench
      leds ← set_result_leds blink
      stopped ← teardown_open_node (not blink)
      on g_m_part (bench.autotest_teardown (not blink))
      check (started +ℤ leds +ℤ stopped) "teardown"

    module _ {F : Type 0} (floats : Floats F) where
      -- The tests once the open node answers.
      abbrev pub tests_on_dc :
          (channel : Option ℕ) (flash gps : Bool) → Action (AutoTest M) (Unit {0})
      tests_on_dc channel flash gps = do
        add (open_node_start world bench >>= λ ret. check ret "switch_to_dc")
        set_leds_off_and_on world bench
        add (test_gyro world bench floats)
        add (test_magneto world bench floats)
        add (test_accelero world bench floats)
        add (test_gpio world bench)
        add (test_i2c world bench)
        add (test_radio_ping_pong world bench channel)
        add (test_radio_with_rssi world bench floats channel)
        add (test_consumption_dc world bench floats)
        add (test_leds_with_consumption world bench floats)
        add (test_pressure world bench floats)
        add (test_light world bench floats)
        add (test_flash world bench flash)
        add (test_gps world bench gps)

      -- The body of the `try` in `auto_tests`.
      unfoldable pub tests :
          ℕ → (channel : Option ℕ) (flash gps : Bool) → Action (AutoTest M) (Unit {0})
      unfolding setup_control_node setup_open_node_connection
      tests fuel channel flash gps = do
        setup_control_node
        add (test_consumption_batt world bench floats)
        setup_open_node_connection fuel
        perform world (sleep 10)
        check_echo world bench
        check_get_time world bench
        get_uid world bench
        tests_on_dc channel flash gps

      -- `auto_tests(channel, blink, flash, gps)`
      unfoldable pub auto_tests :
          ℕ → (channel : Option ℕ) (blink flash gps : Bool) → Action (AutoTest M) Report
      unfolding tests teardown
      auto_tests fuel channel blink flash gps = do
        modify no_features
        try_except (tests fuel channel flash gps) (λ e. add (fatal_as_1 e))
        a ← gets (λ a. a)
        add (teardown (blink && (a.ret_val ==ℤ pos 0)))
        modify set_ret
        gets (λ a. a.report)
