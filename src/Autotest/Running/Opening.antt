-- ===== src/Autotest/Running/Opening.antt =====
-- The start of the auto-tests: each assertion that is passed is a success in the report.
use iot_lab_gateway.Prelude.{ℕ, String, not, refl, Option, none, some, List, [], ◌∷◌}
use iot_lab_gateway.Prelude.Int.{ℤ, pos, ◌+ℤ◌, ◌==ℤ◌}
use iot_lab_gateway.Effects.{
  Attempt, called_process_error, World, Action, ◌>>=◌, fatal_error, check_output,
}
use iot_lab_gateway.Effects.Triples.{
  Triple, Keeps, Keeps-bind, Keeps-perform, Keeps-Steady, Triple-bind, Triple-raise, Triple-if,
  Triple-post,
}
use iot_lab_gateway.Text.{strip}
use iot_lab_gateway.OpenOcd.{attempted}
use iot_lab_gateway.Manager.Quiet.{Steady-attempted}
use iot_lab_gateway.Connection
use iot_lab_gateway.Autotest.{AutoTest, Bench, check, tst_ok}
use iot_lab_gateway.Autotest.Keeping.{
  Stable, IsCounting, Keeps-pure, Keeps-modify, Keeps-Counts, Keeps-on_g_m, Keeps-with_serial,
  Counts-check, Keeps-on_call, Keeps-run_test, Keeps-on_serial_send_command, Counts-open_node_start,
}
use iot_lab_gateway.Autotest.Sensors.{check_echo, check_get_time, is_echo, isdigit, any}
use iot_lab_gateway.Autotest.Sensors.Counting.{Keeps-third}
use iot_lab_gateway.Autotest.Running.{
  stripped, set_mac, new_serial, add, get_local_mac_addr, is_mac, setup_control_node,
  setup_open_node, setup_open_node_connection,
}
use iot_lab_gateway.Autotest.Running.Sound.{
  Sofar, Sofar-Stable, check-Passed, assert_ok-Passed, Sofar-add,
}

module _ {M : Type 0} (world : World) (bench : Bench M) (ops : List String) where
  instance stable : Stable {M = M} (Sofar ops)
  stable = Sofar-Stable ops

  Keeps-attempted :
      {A : Type 0} (outcome : Attempt A) → Keeps {O = AutoTest M} (Sofar ops) (attempted outcome)
  Keeps-attempted outcome = Keeps-Steady (Steady-attempted outcome)

  Keeps-stripped :
      (output : Option (Attempt String)) → Keeps {O = AutoTest M} (Sofar ops) (stripped output)
  Keeps-stripped none = Triple-raise called_process_error (λ a p. p)
  Keeps-stripped (some outcome) = Keeps-bind (Keeps-attempted outcome) λ mac. Keeps-pure (strip mac)

  Keeps-get_local_mac_addr : Keeps {O = AutoTest M} (Sofar ops) (get_local_mac_addr world)
  Keeps-get_local_mac_addr =
      Triple-bind {Q = λ _. Sofar ops} _ _
        (Keeps-perform world (check_output "cat /sys/class/net/eth0/address"))
        λ output. Keeps-stripped output

  pub setup_control_node-Passed :
      Triple
        (Sofar ops)
        (setup_control_node world bench)
        (λ _. Sofar ("setup_cn_connection" ∷ ops))
        (Sofar ops)
  unfolding setup_control_node
  setup_control_node-Passed =
      Triple-bind {Q = λ _. Sofar ops} _ _ (Keeps-on_g_m bench.autotest_setup) λ configured.
        Triple-bind {Q = λ _. Sofar ops} _ _ Keeps-get_local_mac_addr λ mac.
          Triple-bind {Q = λ _. Sofar ops} _ _ (Keeps-modify (set_mac mac) (λ a. refl) (λ a. refl))
            λ _.
              Triple-bind {Q = λ _. Sofar ops} _ _
                (Keeps-Counts (Counts-check (tst_ok (is_mac 5 mac)) "gw_mac_addr"))
                λ ok. assert_ok-Passed ops (configured +ℤ ok) "setup_cn_connection"

  Keeps-setup_open_node : Keeps (Sofar ops) (setup_open_node world bench)
  unfolding setup_open_node
  Keeps-setup_open_node = Keeps-bind (Keeps-on_g_m bench.open_setup) λ ret.
      Keeps-bind (Keeps-Counts (Counts-check ret "open_node_setup")) λ flashed.
        Keeps-bind (Keeps-modify new_serial (λ a. refl) (λ a. refl)) λ _.
          Keeps-bind (Keeps-with_serial (Connection.start world)) λ started.
            Keeps-bind (Keeps-Counts (Counts-check started "open_node_connection"))
              λ connected. Keeps-pure (flashed +ℤ connected)

  pub Keeps-setup_open_node_connection :
      IsCounting bench
      → (fuel : ℕ) → Keeps (Sofar ops) (setup_open_node_connection world bench fuel)
  unfolding setup_open_node_connection
  Keeps-setup_open_node_connection n fuel =
      Keeps-bind (Keeps-Counts (Counts-open_node_start world bench n)) λ started.
        Keeps-bind Keeps-setup_open_node λ connected.
          Keeps-bind (Keeps-with_serial (Connection.empty world fuel)) λ _.
            Triple-if (not ((started +ℤ connected) ==ℤ pos 0))
              (λ _. Triple-raise fatal_error (λ a p. p)) (λ _. Keeps-pure tt)

  pub check_echo-Passed :
      Triple (Sofar ops) (check_echo world bench) (λ _. Sofar ("on_serial_echo" ∷ ops)) (Sofar ops)
  unfolding check_echo
  check_echo-Passed =
      Triple-bind {Q = λ _. Sofar ops} _ _
        (Keeps-on_serial_send_command world bench "echo" ("HELLO" ∷ "WORLD" ∷ []))
        λ answer. assert_ok-Passed ops (tst_ok (is_echo answer)) "on_serial_echo"

  pub check_get_time-Passed :
      Triple
        (Sofar ops)
        (check_get_time world bench)
        (λ _. Sofar ("on_serial_get_time" ∷ ops))
        (Sofar ops)
  unfolding check_get_time
  check_get_time-Passed =
      Triple-bind {Q = λ _. Sofar ops} _ _ (Keeps-on_call world bench "get_time" []) λ _.
        Triple-bind {Q = λ _. Sofar ops} _ _
          (Keeps-run_test world bench 5 "get_time" [] _
            (λ x. Keeps-bind (Keeps-third x) λ word. Keeps-pure (isdigit word)))
          λ values. assert_ok-Passed ops (tst_ok (any values)) "on_serial_get_time"

  -- A step whose last action is a check, added to the sum.
  pub add-check :
      {m : Action (AutoTest M) ℤ} (operation : String)
      → Keeps (Sofar ops) m
      → Triple
          (Sofar ops)
          (add (m >>= λ ret. check ret operation))
          (λ _. Sofar (operation ∷ ops))
          (Sofar ops)
  add-check {m = m} operation k =
      Triple-post
        (Sofar-add ops (operation ∷ []) {m = m >>= λ ret. check ret operation} (
          Triple-bind {Q = λ _. Sofar ops} m _ k λ ret.
            Triple-post (check-Passed ops ret operation) (λ c a p. (p.0, λ z. (p.1 z, tt)))
              (λ a p. p)))
        (λ x a p. (p.0, λ z. ((p.1 z).0.0, (p.1 z).1))) (λ a p. p)
