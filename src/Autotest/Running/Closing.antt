-- ===== src/Autotest/Running/Closing.antt =====
-- The teardown of the auto-tests: its check is recorded.
use iot_lab_gateway.Prelude.{String, Bool, not, List, [], ◌∷◌, ◌≡◌, refl}
use iot_lab_gateway.Prelude.Int.{pos, ◌+ℤ◌, IsNonneg}
use iot_lab_gateway.Effects.{World, Exception}
use iot_lab_gateway.Effects.Triples.{
  Triple, Keeps, Keeps-bind, Keeps-try, Triple-bind, Triple-if, Triple-raise,
}
use iot_lab_gateway.Connection
use iot_lab_gateway.Autotest.{AutoTest, Bench, check, g_m_part, object_attr_has}
use iot_lab_gateway.Autotest.Keeping.{
  Passed, Stable, IsCounting, Keeps-pure, Keeps-modify, Keeps-Counts, Keeps-on_g_m,
  Keeps-with_serial, Keeps-on_call, Keeps-autotest_checker, Counts-open_node_start,
}
use iot_lab_gateway.Autotest.Running.{
  is_fatal, is_attribute, fatal_as_1, none_as_1, no_serial, on_serial_stop, teardown_open_node,
  control_node_leds_blink, set_leds, set_result_leds, teardown,
}
use iot_lab_gateway.Autotest.Running.Sound.{Sofar, Sofar-Stable, check-Passed}

module _ {M : Type 0} (world : World) (bench : Bench M) (ops : List String) where
  instance stable : Stable {M = M} (Sofar ops)
  stable = Sofar-Stable ops

  Keeps-fatal_as_1 : (e : Exception) → Keeps {O = AutoTest M} (Sofar ops) (fatal_as_1 e)
  Keeps-fatal_as_1 e =
      Triple-if (is_fatal e) (λ _. Keeps-pure (pos 1)) (λ _. Triple-raise e (λ a p. p))

  Keeps-none_as_1 : (e : Exception) → Keeps {O = AutoTest M} (Sofar ops) (none_as_1 e)
  Keeps-none_as_1 e =
      Triple-if (is_attribute e) (λ _. Keeps-pure (pos 1)) (λ _. Triple-raise e (λ a p. p))

  Keeps-leds_blink : Keeps (Sofar ops) (control_node_leds_blink world bench)
  unfolding iot_lab_gateway.Autotest.control_node_checker
  Keeps-leds_blink =
      Triple-if (object_attr_has bench.features ("leds" ∷ []))
        (λ _. Keeps-on_g_m bench.green_led_blink) (λ _. Keeps-pure (pos 0))

  Keeps-set_leds : (blink : Bool) → Keeps (Sofar ops) (set_leds world bench blink)
  Keeps-set_leds blink = Keeps-bind (Keeps-on_call world bench "leds_off" ("7" ∷ [])) λ _.
      Triple-if (not blink) (λ _. Keeps-pure (pos 0))
        λ _.
          Keeps-bind (Keeps-on_call world bench "leds_blink" ("7" ∷ "500" ∷ []))
            λ _. Keeps-bind Keeps-leds_blink λ _. Keeps-pure (pos 0)

  Keeps-set_result_leds : (blink : Bool) → Keeps (Sofar ops) (set_result_leds world bench blink)
  unfolding set_result_leds
  Keeps-set_result_leds blink =
      Keeps-autotest_checker world bench ("leds_off" ∷ "leds_blink" ∷ []) (pos 0) _
        (Keeps-try (set_leds world bench blink) _ (Keeps-set_leds blink) Keeps-fatal_as_1)

  Keeps-on_serial_stop : Keeps (Sofar ops) (on_serial_stop world bench)
  unfolding on_serial_stop
  Keeps-on_serial_stop =
      Keeps-bind
        (Keeps-try _ _
          (Keeps-bind (Keeps-with_serial (Connection.stop world)) λ _. Keeps-pure (pos 0))
          Keeps-none_as_1)
        λ ret. Keeps-bind (Keeps-modify no_serial (λ a. refl) (λ a. refl)) λ _. Keeps-pure ret

  Keeps-teardown_open_node : (stop : Bool) → Keeps (Sofar ops) (teardown_open_node world bench stop)
  unfolding teardown_open_node
  Keeps-teardown_open_node stop = Keeps-bind Keeps-on_serial_stop λ closed.
      Keeps-bind (Keeps-on_g_m bench.redirection_stop) λ redirected.
        Keeps-bind
          (Triple-if stop (λ _. Keeps-on_g_m bench.open_teardown) (λ _. Keeps-pure (pos 0)))
          λ stopped. Keeps-pure (closed +ℤ redirected +ℤ stopped)

  -- Where the teardown returns 0, it is recorded as a success.
  pub teardown-Passed :
      IsCounting bench
      → (blink : Bool)
      → Triple
          (Sofar ops)
          (teardown world bench blink)
          (λ c a. (IsNonneg c × Sofar ops a) × (c ≡ pos 0 → Passed a "teardown"))
          (Sofar ops)
  unfolding teardown
  teardown-Passed n blink =
      Triple-bind {Q = λ _. Sofar ops} _ _ (Keeps-Counts (Counts-open_node_start world bench n))
        λ started. Triple-bind {Q = λ _. Sofar ops} _ _ (Keeps-set_result_leds blink) λ leds.
          Triple-bind {Q = λ _. Sofar ops} _ _ (Keeps-teardown_open_node (not blink)) λ stopped.
            Triple-bind {Q = λ _. Sofar ops} _ _
              (Keeps-on_g_m (bench.autotest_teardown (not blink)))
              λ _. check-Passed ops (started +ℤ leds +ℤ stopped) "teardown"
