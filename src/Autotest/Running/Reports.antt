-- ===== src/Autotest/Running/Reports.antt =====
-- The run of `auto_tests`, and the code that it reports.
use iot_lab_gateway.Prelude.{
  sym, ◌∙◌, member, All, true, ℕ, String, Bool, ◌&&◌, ◌≡◌, ◌≢◌, refl, Option, some, List, [], ◌∷◌,
  arith,
}
use iot_lab_gateway.Prelude.Int.{ℤ, pos, ◌+ℤ◌, ◌==ℤ◌, IsNonneg, +ℤ-IsNonneg, +ℤ-eq-zero}
use iot_lab_gateway.Effects.{
  State, Call, Result, returned, World, Action, Exception, gets, modify, ◌>>◌, sleep,
}
use iot_lab_gateway.Effects.Triples.{
  Triple, Keeps, Keeps-bind, Keeps-perform, Triple-bind, Triple-pure, Triple-raise, Triple-gets,
  Triple-modify, Triple-if, Triple-post, Triple-try,
}
use iot_lab_gateway.Autotest.{Report, AutoTest, Bench}
use iot_lab_gateway.Autotest.Keeping.{
  Stable, Counts, IsCounting, Keeps-Counts, Keeps-modify, Counts-open_node_start,
}
use iot_lab_gateway.Autotest.Measures.{Floats}
use iot_lab_gateway.Autotest.Sensors.Counting.{
  Counts-get_uid, Keeps-set_leds_off_and_on, Counts-test_flash, Counts-test_gps,
  Counts-test_pressure, Counts-test_light, Counts-test_gyro, Counts-test_magneto,
  Counts-test_accelero,
}
use iot_lab_gateway.Autotest.OnControl.Counting.{
  Counts-test_gpio, Counts-test_i2c, Counts-test_radio_ping_pong, Counts-test_radio_with_rssi,
  Counts-test_consumption_dc, Counts-test_consumption_batt, Counts-test_leds_with_consumption,
}
use iot_lab_gateway.Autotest.Running.{
  auto_test_manager, is_fatal, fatal_as_1, no_features, set_ret, add, tests_on_dc, tests,
  auto_tests,
}
use iot_lab_gateway.Autotest.Running.Sound.{Sofar, Negless, Sofar-Stable, Sofar-add, Counts-add}
use iot_lab_gateway.Autotest.Running.Opening.{
  setup_control_node-Passed, Keeps-setup_open_node_connection, check_echo-Passed,
  check_get_time-Passed, add-check,
}
use iot_lab_gateway.Autotest.Running.Closing.{teardown-Passed}

-- The operations that every good run records, the last one first.
abbrev pub connected : List String
connected = "setup_cn_connection" ∷ []

abbrev pub echoed : List String
echoed = "on_serial_echo" ∷ connected

abbrev pub opening : List String
opening = "on_serial_get_time" ∷ echoed

abbrev pub on_dc : List String
on_dc = "switch_to_dc" ∷ opening

abbrev pub all_checks : List String
all_checks = "teardown" ∷ on_dc

some-inj : {a b : ℤ} → some a ≡ some b → a ≡ b
some-inj e = cc e

-- A step with what it keeps, and at an exception no negative sum.
weaker :
    {M A : Type 0} (ops : List String) {Q : AutoTest M → Type 0} {m : Action (AutoTest M) A}
    → Triple (Sofar ops) m (λ _. Q) (Sofar ops)
    → Triple (Sofar ops) m (λ _. Q) Negless
weaker ops k = Triple-post k (λ x a p. p) (λ a p. p.0)

error-ne-zero : (r c : ℤ) → IsNonneg r → c ≡ pos 1 → r +ℤ c ≢ pos 0
error-ne-zero r c n e z =
    let zero : pos 1 ≡ pos 0 = (+ℤ-eq-zero r (pos 1) n (ground arith) (cc (e, z))).1 in
    ground (arith, zero)

-- A step from some operations to others, and what follows it.
next :
    {M A B : Type 0} (ops ops' : List String) {R : B → AutoTest M → Type 0}
    {m : Action (AutoTest M) A} {rest : Action (AutoTest M) B}
    → Triple (Sofar ops) m (λ _. Sofar ops') (Sofar ops)
    → Triple (Sofar ops') rest R Negless
    → Triple (Sofar ops) (m >> rest) R Negless
next ops ops' {m = m} {rest = rest} k kr =
    Triple-bind {Q = λ _. Sofar ops'} m (λ _. rest) (weaker ops k) λ _. kr

-- An error that is added leaves no sum of 0.
Sofar-add_error :
    {M : Type 0} (ops : List String) (e : Exception)
    → Triple {O = AutoTest M} Negless (add (fatal_as_1 e)) (λ _. Sofar ops) Negless
Sofar-add_error ops e =
    Triple-bind {Q = λ c a. (c ≡ pos 1) × Negless a} _ _
      (Triple-if (is_fatal e) (λ _. Triple-pure (pos 1) (λ a p. (refl, p)))
        (λ _. Triple-raise e (λ a p. p)))
      λ c.
        Triple-modify (λ a. record a { ret_val = a.ret_val +ℤ c })
          λ a p. (
            rw p.0 (+ℤ-IsNonneg a.ret_val (pos 1) p.1 (ground arith)),
            λ z. absurd (error-ne-zero a.ret_val c p.1 p.0 z),
          )

module _ {M : Type 0} (world : World) (bench : Bench M) (n : IsCounting bench) {F : Type 0}
    (floats : Floats F) (channel : Option ℕ) (flash gps : Bool) where
  instance stable_opening : Stable {M = M} (Sofar opening)
  stable_opening = Sofar-Stable opening

  instance stable_on_dc : Stable {M = M} (Sofar on_dc)
  stable_on_dc = Sofar-Stable on_dc

  -- A test is added, and more follow.
  then_add :
      {m : Action (AutoTest M) ℤ} {rest : Action (AutoTest M) (Unit {0})}
      → Counts (Sofar on_dc) m
      → Keeps (Sofar on_dc) rest
      → Keeps (Sofar on_dc) (add m >> rest)
  then_add k kr = Keeps-bind (Counts-add on_dc k) λ _. kr

  tests_on_dc-Passed :
      Triple
        (Sofar opening)
        (tests_on_dc world bench floats channel flash gps)
        (λ _. Sofar on_dc)
        Negless
  tests_on_dc-Passed =
      Triple-bind {Q = λ _. Sofar on_dc} _ _
        (weaker opening (
          add-check world bench opening "switch_to_dc"
            (Keeps-Counts (Counts-open_node_start world bench n))))
        λ _. weaker on_dc (
          Keeps-bind (Keeps-set_leds_off_and_on world bench) λ _.
            then_add (Counts-test_gyro world bench floats) (
              then_add (Counts-test_magneto world bench floats) (
                then_add (Counts-test_accelero world bench floats) (
                  then_add (Counts-test_gpio world bench n) (
                    then_add (Counts-test_i2c world bench n) (
                      then_add (Counts-test_radio_ping_pong world bench n channel) (
                        then_add (Counts-test_radio_with_rssi world bench n floats channel) (
                          then_add (Counts-test_consumption_dc world bench n floats) (
                            then_add (Counts-test_leds_with_consumption world bench n floats) (
                              then_add (Counts-test_pressure world bench floats) (
                                then_add (Counts-test_light world bench floats) (
                                  then_add (Counts-test_flash world bench flash)
                                    (Counts-add on_dc (Counts-test_gps world bench gps))))))))))))))

  tests-Passed :
      (fuel : ℕ)
      → Triple
          (Sofar [])
          (tests world bench floats fuel channel flash gps)
          (λ _. Sofar on_dc)
          Negless
  unfolding tests
  tests-Passed fuel = next [] connected (setup_control_node-Passed world bench []) (
      next connected connected
        (Counts-add connected
          (Counts-test_consumption_batt ⦃stable = Sofar-Stable connected⦄ world bench n floats))
        (next connected connected (Keeps-setup_open_node_connection world bench connected n fuel) (
          next connected connected (Keeps-perform world (sleep 10)) (
            next connected echoed (check_echo-Passed world bench connected) (
              next echoed opening (check_get_time-Passed world bench echoed) (
                next opening opening (Keeps-Counts (Counts-get_uid world bench))
                  tests_on_dc-Passed))))))

  auto_tests-Triple :
      (fuel : ℕ) (blink : Bool)
      → Triple
          (Sofar [])
          (auto_tests world bench floats fuel channel blink flash gps)
          (λ report a.
            (report.ret ≡ some a.ret_val)
            × (report.success ≡ a.report.success)
            × Sofar all_checks a)
          Negless
  unfolding auto_tests
  auto_tests-Triple fuel blink =
      next [] [] (Keeps-modify ⦃stable = Sofar-Stable []⦄ no_features (λ a. refl) (λ a. refl)) (
        Triple-bind {Q = λ _. Sofar on_dc} _ _
          (Triple-try (tests world bench floats fuel channel flash gps) _ (tests-Passed fuel)
            (λ e. Sofar-add_error on_dc e))
          λ _.
            Triple-bind {Q = λ _. Sofar on_dc} (gets (λ a. a)) _ (Triple-gets (λ a. a) (λ a p. p))
              λ a.
                next on_dc all_checks
                  (Triple-post
                    (Sofar-add on_dc ("teardown" ∷ []) (
                      Triple-post
                        (teardown-Passed world bench on_dc n (blink && (a.ret_val ==ℤ pos 0)))
                        (λ c a p. (p.0, λ z. (p.1 z, tt))) (λ a p. p)))
                    (λ x a p. (p.0, λ z. ((p.1 z).0.0, (p.1 z).1))) (λ a p. p))
                  (Triple-bind {Q = λ _ a. (a.report.ret ≡ some a.ret_val) × Sofar all_checks a}
                    (modify set_ret) _ (Triple-modify set_ret (λ a p. (refl, p)))
                    λ _. Triple-gets (λ a. a.report) (λ a p. (p.0, refl, p.1))))

  module _ (m : M) (calls : List Call) (fuel : ℕ) (blink : Bool) (report : Report)
      (t : State (AutoTest M)) where
    abbrev run : Result Report × State (AutoTest M)
    run =
        auto_tests world bench floats fuel channel blink flash gps
          (record { self = auto_test_manager m; trace = calls })

    reported :
        run ≡ (returned report, t)
        → (report.ret ≡ some t.self.ret_val)
          × (report.success ≡ t.self.report.success)
          × Sofar all_checks t.self
    reported e = rw e at (
        (auto_tests-Triple fuel blink).at (record { self = auto_test_manager m; trace = calls })
          (ground arith, λ z. tt))

    -- Where no command to the control node returns a negative code, a report with code 0 has the
    -- connection to the control node, the echo, the time, the switch to DC and the teardown among
    -- its successes.
    pub auto_tests-Passed :
        run ≡ (returned report, t)
        → report.ret ≡ some (pos 0)
        → All (λ operation. member operation report.success ≡ true) all_checks
    auto_tests-Passed e z =
        let (ret, success, sofar) = reported e in rw success (sofar.1 (some-inj (sym ret ∙ z)))

    -- Where no command to the control node returns a negative code, neither does a report.
    pub auto_tests-IsNonneg :
        (c : ℤ) → run ≡ (returned report, t) → report.ret ≡ some c → IsNonneg c
    auto_tests-IsNonneg c e z =
        let (ret, success, sofar) = reported e in rw (some-inj (sym ret ∙ z)) at sofar.0
