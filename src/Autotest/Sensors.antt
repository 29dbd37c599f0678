-- ===== src/Autotest/Sensors.antt =====
-- gateway_code/autotest/autotest.py: the tests that speak with the open node alone.
pub mod Counting
use Prim.Native.Char.{code}
use iot_lab_gateway.Prelude.{
  ℕ, zero, suc, ◌+◌, String, Bool, false, ◌&&◌, ◌||◌, not, Option, none, some, List, [], ◌∷◌, ◌++◌,
  length, ltb, same, if◌then◌else◌,
}
use iot_lab_gateway.Prelude.Int.{ℤ, pos, negsuc, ◌==ℤ◌}
use iot_lab_gateway.Text.{is_digit, join, parse_int}
use iot_lab_gateway.Effects.{
  World, Action, pure, raise, perform, ◌>>=◌, ◌>>◌, sleep, now, index_error, value_error,
}
use iot_lab_gateway.Autotest.{
  AutoTest, Bench, autotest_checker, check, assert_ok, tst_ok, on_serial_send_command, on_call,
  run_test, log,
}
use iot_lab_gateway.Autotest.Measures.{Floats, convert_all}

-- `text.isdigit()`, for ASCII
unfoldable pub isdigit : String → Bool
isdigit String.[] = false
isdigit (String.◌∷◌ c s) = let rest = isdigit s in is_digit (code c) && (same s "" || rest)

-- `[''.join(x) for x in zip(*[iter(uid)] * 4)]`: the text by fours, without what is left over.
unfoldable pub by_fours : String → List String
by_fours (String.◌∷◌ a (String.◌∷◌ b (String.◌∷◌ c (String.◌∷◌ d rest)))) =
    String.◌∷◌ a (String.◌∷◌ b (String.◌∷◌ c (String.◌∷◌ d ""))) ∷ by_fours rest
by_fours short = []

-- `any(values)`
abbrev pub any : List Bool → Bool
any [] = false
any (b ∷ bs) = b || any bs

-- `answer or []` begins with HELLO WORLD.
abbrev pub is_echo : Option (List String) → Bool
is_echo (some (hello ∷ world ∷ rest)) = same hello "HELLO" && same world "WORLD"
is_echo _ = false

-- `pps_count > 2`
abbrev pub above_2 : ℤ → Bool
above_2 (pos n) = ltb 2 n
above_2 (negsuc n) = false

abbrev pub words_or_none : Option (List String) → List String
words_or_none none = []
words_or_none (some words) = words

-- `x[2:5]`
abbrev pub words_2_to_5 : List String → List String
words_2_to_5 (a ∷ b ∷ c ∷ d ∷ e ∷ rest) = c ∷ d ∷ e ∷ []
words_2_to_5 (a ∷ b ∷ rest) = rest
words_2_to_5 short = []

module _ {M : Type 0} where
  -- `x[2]`
  abbrev pub third : List String → Action (AutoTest M) String
  third (a ∷ b ∷ c ∷ rest) = pure c
  third short = raise index_error

  abbrev pub or_value_error : {A : Type 0} → Option A → Action (AutoTest M) A
  or_value_error none = raise value_error
  or_value_error (some a) = pure a

  module _ (world : World) (bench : Bench M) where
    unfoldable pub check_echo : Action (AutoTest M) (Unit {0})
    check_echo = do
      answer ← on_serial_send_command world bench "echo" ("HELLO" ∷ "WORLD" ∷ [])
      assert_ok (tst_ok (is_echo answer)) "on_serial_echo"

    unfoldable pub check_get_time : Action (AutoTest M) (Unit {0})
    unfolding isdigit
    check_get_time = do
      on_call world bench "get_time" []
      values ← run_test world bench 5 "get_time" [] (λ x. third x >>= λ word. pure (isdigit word))
      assert_ok (tst_ok (any values)) "on_serial_get_time"

    abbrev set_uid : List String → Action (AutoTest M) (Unit {0})
    set_uid [] = pure tt
    set_uid (uid ∷ rest) = log (λ r. record r { open_node_uid = some (join ":" (by_fours uid)) })

    -- `get_uid`, whose code is not used.
    unfoldable pub get_uid : Action (AutoTest M) ℤ
    unfolding by_fours join
    get_uid = autotest_checker world bench ("get_uid" ∷ []) (pos 0) (do
      values ← run_test world bench 1 "get_uid" [] third
      set_uid values
      check (tst_ok (ltb 0 (length values))) "get_uid")

    unfoldable pub set_leds_off_and_on : Action (AutoTest M) (Unit {0})
    set_leds_off_and_on = autotest_checker world bench ("leds_on" ∷ "leds_off" ∷ []) tt (do
      on_call world bench "leds_off" ("7" ∷ [])
      perform world (sleep 10)
      on_call world bench "leds_on" ("7" ∷ [])
      pure tt)

    unfoldable pub test_flash : Bool → Action (AutoTest M) ℤ
    test_flash flash = autotest_checker world bench ("test_flash" ∷ []) (pos 0) (
        if not flash then pure (pos 0) else (do
          values ← run_test world bench 1 "test_flash" [] (λ x. pure x)
          check (tst_ok (ltb 0 (length values))) "test_flash"))

    -- `_on_call(['test_pps_stop'])` behind the loop, and its code.
    abbrev pub pps_stopped : ℤ → Action (AutoTest M) ℤ
    pps_stopped ret = on_call world bench "test_pps_stop" [] >> pure ret

    -- The rounds of `_test_pps_open_node`, five seconds each, and what follows the loop. Out of
    -- fuel counts as a timeout.
    unfoldable pub pps_loop : ℕ → ℕ → Action (AutoTest M) ℤ
    pps_loop zero end_time = check (pos 1) "test_pps_open_node_timeout" >>= λ ret. pps_stopped ret
    pps_loop (suc fuel) end_time = do
      time ← perform world now
      if not (ltb time end_time)
          then (check (pos 1) "test_pps_open_node_timeout" >>= λ ret. pps_stopped ret)
          else (do
            perform world (sleep 50)
            (ret, answer) ← on_call world bench "test_pps_get" []
            if not (ret ==ℤ pos 0) then check (pos 1) "test_pps_get" else (do
              word ← third (words_or_none answer)
              count ← or_value_error (parse_int word)
              if above_2 count
                  then (check (pos 0) "test_pps_open_node" >>= λ ok. pps_stopped ok)
                  else pps_loop fuel end_time))

    -- `_test_pps_open_node(120.0)`: 25 rounds take longer than two minutes.
    unfoldable pub test_pps_open_node : Action (AutoTest M) ℤ
    unfolding pps_loop
    test_pps_open_node = do
      (ret, answer) ← on_call world bench "test_pps_start" []
      if not (ret ==ℤ pos 0)
          then check (pos 1) "test_pps_start"
          else (do time ← perform world now; pps_loop 25 (time + 1200))

    unfoldable pub test_gps : Bool → Action (AutoTest M) ℤ
    unfolding test_pps_open_node
    test_gps gps =
        autotest_checker world bench ("test_pps_start" ∷ "test_pps_get" ∷ "test_pps_stop" ∷ [])
          (pos 0)
          (if not gps then pure (pos 0) else (do ret ← test_pps_open_node; check ret "test_gps"))

    module _ {F : Type 0} (floats : Floats F) where
      -- A test on `x[2]` as a float, and one on three floats.
      abbrev float_3rd : List String → Action (AutoTest M) F
      float_3rd x = third x >>= λ word. or_value_error (floats.float word)

      abbrev xyz : List String → Action (AutoTest M) (List F)
      xyz x = or_value_error (convert_all floats.float (words_2_to_5 x))

      unfoldable pub test_pressure : Action (AutoTest M) ℤ
      test_pressure = autotest_checker world bench ("get_pressure" ∷ []) (pos 0) (do
        values ← run_test world bench 10 "get_pressure" [] float_3rd
        check (tst_ok (ltb 1 (floats.len_set values))) "test_pressure")

      unfoldable pub test_light : Action (AutoTest M) ℤ
      test_light =
          autotest_checker world bench ("get_light" ∷ "leds_on" ∷ "leds_off" ∷ []) (pos 0) (do
            on_call world bench "leds_on" ("7" ∷ [])
            values_on ← run_test world bench 5 "get_light" [] float_3rd
            on_call world bench "leds_off" ("7" ∷ [])
            values_off ← run_test world bench 5 "get_light" [] float_3rd
            check (tst_ok (ltb 1 (floats.len_set (values_on ++ values_off)))) "get_light")

      -- `_test_xyz_sensor`
      abbrev pub test_xyz_sensor : String → Action (AutoTest M) ℤ
      test_xyz_sensor sensor = do
        values ← run_test world bench 10 sensor [] xyz
        check (tst_ok (ltb 1 (floats.len_set_tuples values))) sensor

      unfoldable pub test_gyro : Action (AutoTest M) ℤ
      unfolding convert_all
      test_gyro =
          autotest_checker world bench ("get_gyro" ∷ []) (pos 0) (test_xyz_sensor "get_gyro")

      unfoldable pub test_magneto : Action (AutoTest M) ℤ
      unfolding convert_all
      test_magneto =
          autotest_checker world bench ("get_magneto" ∷ []) (pos 0) (test_xyz_sensor "get_magneto")

      unfoldable pub test_accelero : Action (AutoTest M) ℤ
      unfolding convert_all
      test_accelero =
          autotest_checker world bench ("get_accelero" ∷ []) (pos 0)
            (test_xyz_sensor "get_accelero")
