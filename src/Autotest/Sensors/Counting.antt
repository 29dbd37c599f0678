-- ===== src/Autotest/Sensors/Counting.antt =====
-- The tests of the open node alone: they keep the sum and the recorded successes, and return no
-- negative code.
use iot_lab_gateway.Prelude.{
  ℕ, zero, suc, ◌+◌, String, not, Option, none, some, List, [], ◌∷◌, ◌++◌, arith, length, ltb, refl,
}
use iot_lab_gateway.Prelude.Int.{ℤ, pos, ◌==ℤ◌}
use iot_lab_gateway.Text.{parse_int}
use iot_lab_gateway.Effects.{World, pure, ◌>>=◌, now, sleep, value_error, index_error}
use iot_lab_gateway.Effects.Triples.{Keeps, Keeps-bind, Keeps-perform, Triple-if, Triple-raise}
use iot_lab_gateway.Autotest.{AutoTest, Bench, check, tst_ok}
use iot_lab_gateway.Autotest.Keeping.{
  Stable, Counts, Counts-bind, Counted-bind, Counts-pure, Keeps-pure, Keeps-modify, Counts-check,
  Keeps-autotest_checker, Counts-autotest_checker, Keeps-on_call, Keeps-run_test,
}
use iot_lab_gateway.Autotest.Measures.{Floats, convert_all}
use iot_lab_gateway.Autotest.Sensors.{
  third, or_value_error, words_2_to_5, words_or_none, above_2, float_3rd, xyz, get_uid, set_uid,
  set_leds_off_and_on, test_flash, pps_stopped, pps_loop, test_pps_open_node, test_gps,
  test_pressure, test_light, test_xyz_sensor, test_gyro, test_magneto, test_accelero,
}

module _ {M : Type 0} {P : AutoTest M → Type 0} ⦃stable : Stable P⦄ where
  pub Keeps-third : (x : List String) → Keeps P (third x)
  Keeps-third [] = Triple-raise index_error (λ a p. p)
  Keeps-third (a ∷ []) = Triple-raise index_error (λ a p. p)
  Keeps-third (a ∷ b ∷ []) = Triple-raise index_error (λ a p. p)
  Keeps-third (a ∷ b ∷ c ∷ rest) = Keeps-pure c

  Keeps-or_value_error : {A : Type 0} (o : Option A) → Keeps P (or_value_error o)
  Keeps-or_value_error none = Triple-raise value_error (λ a p. p)
  Keeps-or_value_error (some x) = Keeps-pure x

  module _ (world : World) (bench : Bench M) where
    Keeps-set_uid : (values : List String) → Keeps P (set_uid world bench values)
    Keeps-set_uid [] = Keeps-pure tt
    Keeps-set_uid (uid ∷ rest) = Keeps-modify _ (λ a. refl) (λ a. refl)

    pub Counts-get_uid : Counts P (get_uid world bench)
    unfolding get_uid
    Counts-get_uid = Counts-autotest_checker world bench ("get_uid" ∷ []) _ (
        Counts-bind (Keeps-run_test world bench 1 "get_uid" [] third Keeps-third) λ values.
          Counts-bind (Keeps-set_uid values)
            λ _. Counts-check (tst_ok (ltb 0 (length values))) "get_uid")

    pub Keeps-set_leds_off_and_on : Keeps P (set_leds_off_and_on world bench)
    unfolding set_leds_off_and_on
    Keeps-set_leds_off_and_on =
        Keeps-autotest_checker world bench ("leds_on" ∷ "leds_off" ∷ []) tt _ (
          Keeps-bind (Keeps-on_call world bench "leds_off" ("7" ∷ [])) λ _.
            Keeps-bind (Keeps-perform world (sleep 10))
              λ _. Keeps-bind (Keeps-on_call world bench "leds_on" ("7" ∷ [])) λ _. Keeps-pure tt)

    pub Counts-test_flash : (flash : _) → Counts P (test_flash world bench flash)
    unfolding test_flash
    Counts-test_flash flash = Counts-autotest_checker world bench ("test_flash" ∷ []) _ (
        Triple-if (not flash) (λ _. Counts-pure (pos 0) (ground arith))
          λ _.
            Counts-bind (Keeps-run_test world bench 1 "test_flash" [] pure (λ x. Keeps-pure x))
              λ values. Counts-check (tst_ok (ltb 0 (length values))) "test_flash")

    Counts-stopped :
        (ret : ℤ) (operation : String)
        → Counts P (check ret operation >>= λ code. pps_stopped world bench code)
    Counts-stopped ret operation =
        Counted-bind (Counts-check ret operation) λ code n.
          Counts-bind (Keeps-on_call world bench "test_pps_stop" []) λ _. Counts-pure code n

    Counts-pps_loop : (fuel end_time : ℕ) → Counts P (pps_loop world bench fuel end_time)
    unfolding pps_loop
    Counts-pps_loop zero end_time = Counts-stopped (pos 1) "test_pps_open_node_timeout"
    Counts-pps_loop (suc fuel) end_time = Counts-bind (Keeps-perform world now) λ time.
        Triple-if (not (ltb time end_time))
          (λ _. Counts-stopped (pos 1) "test_pps_open_node_timeout")
          λ _. Counts-bind (Keeps-perform world (sleep 50)) λ _.
            Counts-bind (Keeps-on_call world bench "test_pps_get" []) λ reply.
              Triple-if (not (reply.0 ==ℤ pos 0)) (λ _. Counts-check (pos 1) "test_pps_get")
                λ _. Counts-bind (Keeps-third (words_or_none reply.1)) λ word.
                  Counts-bind (Keeps-or_value_error (parse_int word)) λ count.
                    Triple-if (above_2 count) (λ _. Counts-stopped (pos 0) "test_pps_open_node")
                      λ _. Counts-pps_loop fuel end_time

    Counts-test_pps_open_node : Counts P (test_pps_open_node world bench)
    unfolding test_pps_open_node
    Counts-test_pps_open_node = Counts-bind (Keeps-on_call world bench "test_pps_start" []) λ reply.
        Triple-if (not (reply.0 ==ℤ pos 0)) (λ _. Counts-check (pos 1) "test_pps_start")
          λ _. Counts-bind (Keeps-perform world now) λ time. Counts-pps_loop 25 (time + 1200)

    pub Counts-test_gps : (gps : _) → Counts P (test_gps world bench gps)
    unfolding test_gps
    Counts-test_gps gps =
        Counts-autotest_checker world bench
          ("test_pps_start" ∷ "test_pps_get" ∷ "test_pps_stop" ∷ []) _
          (Triple-if (not gps) (λ _. Counts-pure (pos 0) (ground arith))
            λ _. Counted-bind Counts-test_pps_open_node λ ret n. Counts-check ret "test_gps")

    module _ {F : Type 0} (floats : Floats F) where
      Keeps-float_3rd : (x : List String) → Keeps P (float_3rd world bench floats x)
      Keeps-float_3rd x =
          Keeps-bind (Keeps-third x) λ word. Keeps-or_value_error (floats.float word)

      Keeps-xyz : (x : List String) → Keeps P (xyz world bench floats x)
      Keeps-xyz x = Keeps-or_value_error (convert_all floats.float (words_2_to_5 x))

      pub Counts-test_pressure : Counts P (test_pressure world bench floats)
      unfolding test_pressure
      Counts-test_pressure = Counts-autotest_checker world bench ("get_pressure" ∷ []) _ (
          Counts-bind (Keeps-run_test world bench 10 "get_pressure" [] _ Keeps-float_3rd)
            λ values. Counts-check (tst_ok (ltb 1 (floats.len_set values))) "test_pressure")

      pub Counts-test_light : Counts P (test_light world bench floats)
      unfolding test_light
      Counts-test_light =
          Counts-autotest_checker world bench ("get_light" ∷ "leds_on" ∷ "leds_off" ∷ []) _ (
            Counts-bind (Keeps-on_call world bench "leds_on" ("7" ∷ [])) λ _.
              Counts-bind (Keeps-run_test world bench 5 "get_light" [] _ Keeps-float_3rd) λ on.
                Counts-bind (Keeps-on_call world bench "leds_off" ("7" ∷ [])) λ _.
                  Counts-bind (Keeps-run_test world bench 5 "get_light" [] _ Keeps-float_3rd)
                    λ off. Counts-check (tst_ok (ltb 1 (floats.len_set (on ++ off)))) "get_light")

      Counts-xyz_sensor : (sensor : String) → Counts P (test_xyz_sensor world bench floats sensor)
      Counts-xyz_sensor sensor =
          Counts-bind (Keeps-run_test world bench 10 sensor [] _ Keeps-xyz)
            λ values. Counts-check (tst_ok (ltb 1 (floats.len_set_tuples values))) sensor

      pub Counts-test_gyro : Counts P (test_gyro world bench floats)
      unfolding test_gyro
      Counts-test_gyro =
          Counts-autotest_checker world bench ("get_gyro" ∷ []) _ (Counts-xyz_sensor "get_gyro")

      pub Counts-test_magneto : Counts P (test_magneto world bench floats)
      unfolding test_magneto
      Counts-test_magneto =
          Counts-autotest_checker world bench ("get_magneto" ∷ []) _
            (Counts-xyz_sensor "get_magneto")

      pub Counts-test_accelero : Counts P (test_accelero world bench floats)
      unfolding test_accelero
      Counts-test_accelero =
          Counts-autotest_checker world bench ("get_accelero" ∷ []) _
            (Counts-xyz_sensor "get_accelero")
