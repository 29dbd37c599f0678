-- ===== src/Autotest/OnControl/Counting.antt =====
-- The tests with the control node: they keep the sum and the recorded successes, and return no
-- negative code.
use iot_lab_gateway.Prelude.{
  ℕ, zero, suc, String, true, Option, none, some, List, [], ◌∷◌, arith, ltb,
}
use iot_lab_gateway.Prelude.Int.{ℤ, pos, ◌+ℤ◌, IsNonneg, +ℤ-IsNonneg}
use iot_lab_gateway.Text.{str, concat}
use iot_lab_gateway.Json.{text, number, flag, arr, cons, nil}
use iot_lab_gateway.Profile.{Checked, valid, failed, consumption_init, radio_init}
use iot_lab_gateway.Effects.{
  World, Result, returned, raised, pure, now, sleep, drop_measures, received_measures, index_error,
}
use iot_lab_gateway.Effects.Triples.{Keeps, Keeps-bind, Keeps-perform, Triple-raise}
use iot_lab_gateway.Autotest.{AutoTest, Bench, tst_ok}
use iot_lab_gateway.Autotest.Keeping.{
  Stable, Counts, IsCounting, Counts-bind, Counted-bind, Counts-pure, Keeps-pure, Counts-check,
  Counts-autotest_checker, Counts-control_node_checker, Keeps-on_call, Keeps-run_test,
  Counts-on_g_m, Counts-open_node_start,
}
use iot_lab_gateway.Autotest.Measures.{Floats, extract_measures, from_result}
use iot_lab_gateway.Autotest.OnControl.{
  constructed, seconds, firsts, is_heard, some_run, test_on_cn, test_gpio, test_i2c, ping_pong,
  test_radio_ping_pong, send_packets, measured, rssi, test_radio_with_rssi, dc_consumption,
  consumption_dc, test_consumption_dc, test_consumption_batt, switch_leds, led_consumption,
  is_higher, some_timestamp, leds_with_consumption, test_leds_with_consumption,
}

-- A sum of codes that are not negative.
sum_3 : (a b c : ℤ) → IsNonneg a → IsNonneg b → IsNonneg c → IsNonneg (a +ℤ b +ℤ c)
sum_3 a b c n m k = +ℤ-IsNonneg (a +ℤ b) c (+ℤ-IsNonneg a b n m) k

sum_4 :
    (a b c d : ℤ) → IsNonneg a → IsNonneg b → IsNonneg c → IsNonneg d → IsNonneg (a +ℤ b +ℤ c +ℤ d)
sum_4 a b c d n m k l = +ℤ-IsNonneg (a +ℤ b +ℤ c) d (sum_3 a b c n m k) l

module _ {M : Type 0} {P : AutoTest M → Type 0} ⦃stable : Stable P⦄ where
  Keeps-constructed : {A : Type 0} (c : Checked A) → Keeps P (constructed c)
  Keeps-constructed (valid a) = Keeps-pure a
  Keeps-constructed (failed e) = Triple-raise e (λ a p. p)

  Keeps-from_result : {A : Type 0} (r : Result A) → Keeps P (from_result r)
  Keeps-from_result (returned a) = Keeps-pure a
  Keeps-from_result (raised e) = Triple-raise e (λ a p. p)

  Keeps-seconds : {A : Type 0} (vs : List (List A)) → Keeps P (seconds vs)
  unfolding seconds
  Keeps-seconds [] = Keeps-pure []
  Keeps-seconds ([] ∷ vs) = Triple-raise index_error (λ a p. p)
  Keeps-seconds ((a ∷ []) ∷ vs) = Triple-raise index_error (λ a p. p)
  Keeps-seconds ((a ∷ b ∷ rest) ∷ vs) =
      Keeps-bind (Keeps-seconds vs) λ others. Keeps-pure (b ∷ others)

  Keeps-firsts : {A : Type 0} (vs : List (List A)) → Keeps P (firsts vs)
  unfolding firsts
  Keeps-firsts [] = Keeps-pure []
  Keeps-firsts ([] ∷ vs) = Triple-raise index_error (λ a p. p)
  Keeps-firsts ((a ∷ rest) ∷ vs) = Keeps-bind (Keeps-firsts vs) λ others. Keeps-pure (a ∷ others)

  module _ (world : World) (bench : Bench M) (n : IsCounting bench) where
    Counts-test_on_cn :
        (num : ℕ) (cn_command on_cmd : String) (args : List String)
        → Counts P (test_on_cn world bench num cn_command on_cmd args)
    Counts-test_on_cn num cn_command on_cmd args =
        let name = concat (cn_command ∷ "_on_cn" ∷ []) in
        Counted-bind (Counts-on_g_m _ (n.command (cn_command ∷ "start" ∷ args))) λ a na.
          Counts-bind (Keeps-run_test world bench num on_cmd args (λ x. pure 0) (λ x. Keeps-pure 0))
            λ values.
              Counted-bind (Counts-check (tst_ok (some_run world bench values)) name) λ b nb.
                Counted-bind (Counts-on_g_m _ (n.command (cn_command ∷ "stop" ∷ []))) λ ret nr.
                  Counted-bind (Counts-check ret name)
                    λ c nc. Counts-pure (a +ℤ b +ℤ c) (sum_3 a b c na nb nc)

    pub Counts-test_gpio : Counts P (test_gpio world bench)
    unfolding test_gpio
    Counts-test_gpio = Counts-autotest_checker world bench ("test_gpio" ∷ []) _ (
        Counts-control_node_checker world bench ("open_node_gpio" ∷ []) _
          (Counts-test_on_cn 5 "test_gpio" "test_gpio" []))

    pub Counts-test_i2c : Counts P (test_i2c world bench)
    unfolding test_i2c
    Counts-test_i2c = Counts-autotest_checker world bench ("test_i2c" ∷ []) _ (
        Counts-control_node_checker world bench ("open_node_i2c" ∷ []) _
          (Counts-test_on_cn 1 "test_i2c" "test_i2c" []))

    Counts-ping_pong : (channel : Option ℕ) → Counts P (ping_pong world bench channel)
    Counts-ping_pong none = Counts-pure (pos 0) (ground arith)
    Counts-ping_pong (some c) =
        Counts-test_on_cn 10 "test_radio_ping_pong" "radio_ping_pong" (str c ∷ "3dBm" ∷ [])

    pub Counts-test_radio_ping_pong :
        (channel : Option ℕ) → Counts P (test_radio_ping_pong world bench channel)
    unfolding test_radio_ping_pong
    Counts-test_radio_ping_pong channel =
        Counts-autotest_checker world bench ("radio_ping_pong" ∷ []) _
          (Counts-control_node_checker world bench ("radio" ∷ []) _ (Counts-ping_pong channel))

    Keeps-send_packets : (k : ℕ) (args : List String) → Keeps P (send_packets world bench k args)
    unfolding send_packets
    Keeps-send_packets zero args = Keeps-pure tt
    Keeps-send_packets (suc k) args =
        Keeps-bind
          (Keeps-bind (Keeps-on_call world bench "radio_pkt" args)
            λ _. Keeps-perform world (sleep 5))
          λ _. Keeps-send_packets k args

    module _ {F : Type 0} (floats : Floats F) where
      Keeps-measured : Keeps P (measured world bench floats)
      Keeps-measured =
          Keeps-bind (Keeps-perform world received_measures)
            λ meas. Keeps-from_result (extract_measures floats meas)

      Counts-rssi : (channel : Option ℕ) → Counts P (rssi world bench floats channel)
      Counts-rssi none =
          Counts-bind (Keeps-perform world drop_measures) λ _. Counts-pure (pos 0) (ground arith)
      Counts-rssi (some channel) = Counts-bind (Keeps-perform world drop_measures) λ _.
          Counts-bind
            (Keeps-constructed (
              radio_init (text "rssi") (arr (cons (number (pos channel)) nil)) (number (pos 10))
                (number (pos 0))))
            λ radio. Counted-bind (Counts-on_g_m _ (n.radio (some radio))) λ a na.
              Counts-bind (Keeps-send_packets 10 (str channel ∷ "3dBm" ∷ [])) λ _.
                Counted-bind (Counts-on_g_m _ (n.radio none)) λ b nb.
                  Counts-bind Keeps-measured λ measures.
                    Counts-bind (Keeps-seconds measures.radio_values) λ values.
                      Counted-bind (Counts-check (tst_ok (is_heard values)) "rssi_measures")
                        λ c nc. Counts-pure (a +ℤ b +ℤ c) (sum_3 a b c na nb nc)

      pub Counts-test_radio_with_rssi :
          (channel : Option ℕ) → Counts P (test_radio_with_rssi world bench floats channel)
      unfolding test_radio_with_rssi
      Counts-test_radio_with_rssi channel =
          Counts-autotest_checker world bench ("radio_pkt" ∷ []) _
            (Counts-control_node_checker world bench ("radio" ∷ []) _ (Counts-rssi channel))

      Keeps-dc_consumption : (period : String) → Keeps P (dc_consumption world bench floats period)
      Keeps-dc_consumption period = Keeps-constructed (
          consumption_init bench.alim (text "dc") (text period) (text "64") (flag true) (flag true)
            (flag true))

      Counts-consumption_dc : Counts P (consumption_dc world bench floats)
      Counts-consumption_dc = Counts-bind (Keeps-dc_consumption "588") λ conso.
          Counted-bind (Counts-open_node_start world bench n) λ a na.
            Counts-bind (Keeps-perform world drop_measures) λ _.
              Counted-bind (Counts-on_g_m _ (n.consumption (some conso))) λ b nb.
                Counts-bind (Keeps-perform world (sleep 20)) λ _.
                  Counted-bind (Counts-on_g_m _ (n.consumption none)) λ c nc.
                    Counts-bind (Keeps-perform world (sleep 20)) λ _.
                      Counts-bind Keeps-measured λ measures.
                        Counted-bind
                          (Counts-check
                            (tst_ok (ltb 1 (floats.len_set_tuples measures.consumption_values)))
                            "consumption_dc")
                          λ d nd. Counts-pure (a +ℤ b +ℤ c +ℤ d) (sum_4 a b c d na nb nc nd)

      pub Counts-test_consumption_dc : Counts P (test_consumption_dc world bench floats)
      unfolding test_consumption_dc
      Counts-test_consumption_dc =
          Counts-control_node_checker world bench ("consumption" ∷ []) _ Counts-consumption_dc

      pub Counts-test_consumption_batt : Counts P (test_consumption_batt world bench floats)
      unfolding test_consumption_batt
      Counts-test_consumption_batt = Counts-control_node_checker world bench ("battery" ∷ []) _ (
          Counts-control_node_checker world bench ("consumption" ∷ []) _
            (Counts-pure (pos 0) (ground arith)))

      Keeps-switch_leds : (leds : List String) → Keeps P (switch_leds world bench floats leds)
      unfolding switch_leds
      Keeps-switch_leds [] = Keeps-pure []
      Keeps-switch_leds (l ∷ rest) = Keeps-bind (Keeps-on_call world bench "leds_on" (l ∷ [])) λ _.
          Keeps-bind (Keeps-perform world (sleep 5)) λ _.
            Keeps-bind (Keeps-perform world now) λ time.
              Keeps-bind (Keeps-perform world (sleep 5)) λ _.
                Keeps-bind (Keeps-on_call world bench "leds_off" ("7" ∷ [])) λ _.
                  Keeps-bind (Keeps-switch_leds rest)
                    λ times. Keeps-pure (floats.clock time ∷ times)

      Keeps-some_timestamp : (ts : List F) → Keeps P (some_timestamp world bench floats ts)
      Keeps-some_timestamp [] = Triple-raise index_error (λ a p. p)
      Keeps-some_timestamp (t ∷ rest) = Keeps-pure tt

      Counts-leds_with_consumption : Counts P (leds_with_consumption world bench floats)
      Counts-leds_with_consumption =
          Counts-bind (Keeps-on_call world bench "leds_off" ("7" ∷ [])) λ _.
            Counts-bind (Keeps-dc_consumption "1100") λ conso.
              Counted-bind (Counts-open_node_start world bench n) λ a na.
                Counts-bind (Keeps-perform world drop_measures) λ _.
                  Counted-bind (Counts-on_g_m _ (n.consumption (some conso))) λ b nb.
                    Counts-bind (Keeps-switch_leds ("0" ∷ "1" ∷ "2" ∷ "4" ∷ "7" ∷ [])) λ times.
                      Counted-bind (Counts-on_g_m _ (n.consumption none)) λ c nc.
                        Counts-bind (Keeps-perform world (sleep 10)) λ _.
                          Counts-bind Keeps-measured λ m.
                            Counts-bind (Keeps-firsts m.consumption_values) λ values.
                              Counts-bind (Keeps-some_timestamp m.consumption_timestamps) λ _.
                                Counted-bind
                                  (Counts-check
                                    (tst_ok (
                                      is_higher world bench floats (
                                        led_consumption world bench floats m.consumption_timestamps
                                          values times)))
                                    "leds_using_conso")
                                  λ d nd. Counts-pure (a +ℤ b +ℤ c +ℤ d) (sum_4 a b c d na nb nc nd)

      pub Counts-test_leds_with_consumption :
          Counts P (test_leds_with_consumption world bench floats)
      unfolding test_leds_with_consumption
      Counts-test_leds_with_consumption =
          Counts-autotest_checker world bench ("leds_consumption" ∷ "leds_on" ∷ "leds_off" ∷ []) _ (
            Counts-control_node_checker world bench ("consumption" ∷ []) _
              Counts-leds_with_consumption)
