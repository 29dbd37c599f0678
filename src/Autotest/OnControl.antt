-- ===== src/Autotest/OnControl.antt =====
-- gateway_code/autotest/autotest.py: the tests that need the control node: GPIO and I2C, radio and
-- consumption.
pub mod Counting
use iot_lab_gateway.Prelude.{
  ℕ, zero, suc, String, Bool, true, false, not, Option, none, some, List, [], ◌∷◌, all, ltb,
}
use iot_lab_gateway.Prelude.Int.{ℤ, pos, negsuc, ◌+ℤ◌, ◌==ℤ◌}
use iot_lab_gateway.Text.{str, concat}
use iot_lab_gateway.Json.{text, number, flag}
use iot_lab_gateway.Profile.{Checked, valid, failed, Consumption, consumption_init, radio_init}
use iot_lab_gateway.Json.{arr, cons, nil}
use iot_lab_gateway.Effects.{
  World, Action, pure, raise, on, perform, ◌>>=◌, ◌>>◌, sleep, now, drop_measures,
  received_measures, index_error,
}
use iot_lab_gateway.Autotest.{
  AutoTest, Bench, autotest_checker, control_node_checker, check, tst_ok, on_call, run_test,
  g_m_part, open_node_start,
}
use iot_lab_gateway.Autotest.Measures.{Floats, Measures, extract_measures, from_result}

-- A constructor that refuses its arguments raises.
abbrev pub constructed : {O A : Type 0} → Checked A → Action O A
constructed (valid a) = pure a
constructed (failed e) = raise e

-- `[v[1] for v in values]` and `[v[0] for v in values]`
unfoldable pub seconds : {O A : Type 0} → List (List A) → Action O (List A)
seconds [] = pure []
seconds ((a ∷ b ∷ rest) ∷ vs) = seconds vs >>= λ bs. pure (b ∷ bs)
seconds (v ∷ vs) = raise index_error

unfoldable pub firsts : {O A : Type 0} → List (List A) → Action O (List A)
firsts [] = pure []
firsts ((a ∷ rest) ∷ vs) = firsts vs >>= λ others. pure (a ∷ others)
firsts ([] ∷ vs) = raise index_error

-- `set([-91]) != set(values)`: also without any value.
unfoldable pub is_heard : List ℤ → Bool
is_heard [] = true
is_heard (v ∷ vs) = not (all (λ x. x ==ℤ negsuc 90) (v ∷ vs))

abbrev pub item_or : {A : Type 0} → A → ℕ → List A → A
item_or default n [] = default
item_or default zero (a ∷ rest) = a
item_or default (suc n) (a ∷ rest) = item_or default n rest

module _ {M : Type 0} (world : World) (bench : Bench M) where
  -- The values 0 of the runs: `0 in values` says that one run succeeded.
  abbrev pub some_run : List ℕ → Bool
  some_run [] = false
  some_run (v ∷ vs) = true

  -- `_test_on_cn(num, [cn_command], [on_cmd], args)`
  abbrev pub test_on_cn : ℕ → String → String → List String → Action (AutoTest M) ℤ
  test_on_cn num cn_command on_cmd args = do
    started ← on g_m_part (bench.send_cmd (cn_command ∷ "start" ∷ args))
    values ← run_test world bench num on_cmd args (λ x. pure 0)
    tested ← check (tst_ok (some_run values)) (concat (cn_command ∷ "_on_cn" ∷ []))
    ret ← on g_m_part (bench.send_cmd (cn_command ∷ "stop" ∷ []))
    stopped ← check ret (concat (cn_command ∷ "_on_cn" ∷ []))
    pure (started +ℤ tested +ℤ stopped)

  unfoldable pub test_gpio : Action (AutoTest M) ℤ
  unfolding concat
  test_gpio = autotest_checker world bench ("test_gpio" ∷ []) (pos 0) (
      control_node_checker world bench ("open_node_gpio" ∷ []) (pos 0)
        (test_on_cn 5 "test_gpio" "test_gpio" []))

  unfoldable pub test_i2c : Action (AutoTest M) ℤ
  unfolding concat
  test_i2c = autotest_checker world bench ("test_i2c" ∷ []) (pos 0) (
      control_node_checker world bench ("open_node_i2c" ∷ []) (pos 0)
        (test_on_cn 1 "test_i2c" "test_i2c" []))

  abbrev pub ping_pong : Option ℕ → Action (AutoTest M) ℤ
  ping_pong none = pure (pos 0)
  ping_pong (some channel) =
      test_on_cn 10 "test_radio_ping_pong" "radio_ping_pong" (str channel ∷ "3dBm" ∷ [])

  unfoldable pub test_radio_ping_pong : Option ℕ → Action (AutoTest M) ℤ
  unfolding concat
  test_radio_ping_pong channel =
      autotest_checker world bench ("radio_ping_pong" ∷ []) (pos 0)
        (control_node_checker world bench ("radio" ∷ []) (pos 0) (ping_pong channel))

  -- `for _itr in range(0, n)`: a packet, and half a second.
  unfoldable pub send_packets : ℕ → List String → Action (AutoTest M) (Unit {0})
  send_packets zero args = pure tt
  send_packets (suc n) args =
      on_call world bench "radio_pkt" args >> perform world (sleep 5) >> send_packets n args

  module _ {F : Type 0} (floats : Floats F) where
    -- The measures since `cn_measures = []`.
    abbrev pub measured : Action (AutoTest M) (Measures F)
    measured =
        perform world received_measures >>= λ meas. from_result (extract_measures floats meas)

    abbrev pub rssi : Option ℕ → Action (AutoTest M) ℤ
    rssi none = perform world drop_measures >> pure (pos 0)
    rssi (some channel) = do
      perform world drop_measures
      radio ← constructed (
          radio_init (text "rssi") (arr (cons (number (pos channel)) nil)) (number (pos 10))
            (number (pos 0)))
      configured ← on g_m_part (bench.config_radio (some radio))
      send_packets 10 (str channel ∷ "3dBm" ∷ [])
      stopped ← on g_m_part (bench.config_radio none)
      measures ← measured
      values ← seconds measures.radio_values
      heard ← check (tst_ok (is_heard values)) "rssi_measures"
      pure (configured +ℤ stopped +ℤ heard)

    unfoldable pub test_radio_with_rssi : Option ℕ → Action (AutoTest M) ℤ
    unfolding send_packets extract_measures is_heard seconds radio_init
    test_radio_with_rssi channel =
        autotest_checker world bench ("radio_pkt" ∷ []) (pos 0)
          (control_node_checker world bench ("radio" ∷ []) (pos 0) (rssi channel))

    -- `Consumption(ALIM, 'dc', period, '64', True, True, True)`
    abbrev pub dc_consumption : String → Action (AutoTest M) Consumption
    dc_consumption period = constructed (
        consumption_init bench.alim (text "dc") (text period) (text "64") (flag true) (flag true)
          (flag true))

    abbrev pub consumption_dc : Action (AutoTest M) ℤ
    consumption_dc = do
      conso ← dc_consumption "588"
      started ← open_node_start world bench
      perform world drop_measures
      configured ← on g_m_part (bench.config_consumption (some conso))
      perform world (sleep 20)
      stopped ← on g_m_part (bench.config_consumption none)
      perform world (sleep 20)
      measures ← measured
      ok ←
          check (tst_ok (ltb 1 (floats.len_set_tuples measures.consumption_values)))
            "consumption_dc"
      pure (started +ℤ configured +ℤ stopped +ℤ ok)

    unfoldable pub test_consumption_dc : Action (AutoTest M) ℤ
    unfolding extract_measures consumption_init
    test_consumption_dc =
        control_node_checker world bench ("consumption" ∷ []) (pos 0) consumption_dc

    -- The battery tests are switched off.
    unfoldable pub test_consumption_batt : Action (AutoTest M) ℤ
    test_consumption_batt =
        control_node_checker world bench ("battery" ∷ []) (pos 0)
          (control_node_checker world bench ("consumption" ∷ []) (pos 0) (pure (pos 0)))

    -- Each of the leds in turn, with the time at which it was on.
    unfoldable pub switch_leds : List String → Action (AutoTest M) (List F)
    switch_leds [] = pure []
    switch_leds (leds ∷ rest) = do
      on_call world bench "leds_on" (leds ∷ [])
      perform world (sleep 5)
      time ← perform world now
      perform world (sleep 5)
      on_call world bench "leds_off" ("7" ∷ [])
      times ← switch_leds rest
      pure (floats.clock time ∷ times)

    -- `values[bisect(timestamps, led_time)]`, and NaN at an IndexError.
    abbrev pub led_consumption : List F → List F → List F → List F
    led_consumption timestamps values [] = []
    led_consumption timestamps values (time ∷ times) =
        item_or floats.nan (floats.bisect timestamps time) values
        ∷ led_consumption timestamps values times

    -- Every led draws more than none does.
    abbrev pub is_higher : List F → Bool
    is_higher [] = true
    is_higher (led_0 ∷ rest) = all (λ v. floats.less led_0 v) rest

    -- `timestamps[0]`, which is logged
    abbrev pub some_timestamp : List F → Action (AutoTest M) (Unit {0})
    some_timestamp [] = raise index_error
    some_timestamp (t ∷ rest) = pure tt

    abbrev pub leds_with_consumption : Action (AutoTest M) ℤ
    leds_with_consumption = do
      on_call world bench "leds_off" ("7" ∷ [])
      conso ← dc_consumption "1100"
      started ← open_node_start world bench
      perform world drop_measures
      configured ← on g_m_part (bench.config_consumption (some conso))
      times ← switch_leds ("0" ∷ "1" ∷ "2" ∷ "4" ∷ "7" ∷ [])
      stopped ← on g_m_part (bench.config_consumption none)
      perform world (sleep 10)
      measures ← measured
      values ← firsts measures.consumption_values
      some_timestamp measures.consumption_timestamps
      ok ←
          check (tst_ok (is_higher (led_consumption measures.consumption_timestamps values times)))
            "leds_using_conso"
      pure (started +ℤ configured +ℤ stopped +ℤ ok)

    unfoldable pub test_leds_with_consumption : Action (AutoTest M) ℤ
    unfolding switch_leds extract_measures firsts consumption_init
    test_leds_with_consumption =
        autotest_checker world bench ("leds_consumption" ∷ "leds_on" ∷ "leds_off" ∷ []) (pos 0)
          (control_node_checker world bench ("consumption" ∷ []) (pos 0) leds_with_consumption)
