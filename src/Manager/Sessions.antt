-- ===== src/Manager/Sessions.antt =====
-- Sequences of requests, from several threads: what holds behind each of them, whatever it raised.
use iot_lab_gateway.Prelude.{ℕ, suc, String, Bool, ◌≡◌, refl, true, Option, ◌==◌, if◌then◌else◌}
use iot_lab_gateway.Prelude.Int.{ℤ, pos}
use iot_lab_gateway.Json.{Json}
use iot_lab_gateway.Profile.{Profile, Checked, valid, failed, from_dict}
use iot_lab_gateway.Effects.{
  World, Action, Exception, gets, on, pure, perform, method, ◌>>=◌, sleep, value_error,
  assertion_error, environment_error, io_error, os_error,
}
use iot_lab_gateway.Effects.Triples.{
  Keeps, Triple-bind, Triple-pure, Triple-raise, Triple-gets, Triple-if, Keeps-on, Keeps-Steady,
  Keeps-total, Keeps-perform, Keeps-try,
}
use iot_lab_gateway.ElfTarget.{is_compatible_with_node}
use iot_lab_gateway.ControlNode.{ControlNode}
use iot_lab_gateway.OpenNode.{OpenNode}
use iot_lab_gateway.Manager.{
  Manager, Board, Target, control, open_node, other, control_part, open_part, synchronous,
  would_block, switched, flashed, accept, is_current, swallow_would_block, flash_target,
  node_flash_body, timeout_exp_stop, exp_start, exp_stop, exp_update_profile, open_power_start,
  open_power_stop, open_debug_start, open_debug_stop, node_soft_reset, node_flash, status,
  sleep_for,
}
use iot_lab_gateway.Manager.Requests.{
  Request, start, stop, timer_fires, update_profile, power_start, power_stop, debug_start,
  debug_stop, soft_reset, flash, auto_test, ask_status, sleep_seconds, handle, is_quiet,
}
use iot_lab_gateway.Manager.Autotests.{Tests, auto_tests, code_of, run_part, run_tests}
use iot_lab_gateway.Manager.Quiet.{Steady-is_compatible_with_node}

pub Keeps-accept :
    {S : Type 0} {P : S → Type 0} (checked : Checked (Option Profile))
    (next : Option Profile → Action S ℤ)
    → ((p : Option Profile) → Keeps P (next p))
    → Keeps P (accept checked next)
Keeps-accept (valid p) next k = k p
Keeps-accept (failed value_error) next k = Triple-pure (pos 1) (λ s p. p)
Keeps-accept (failed e) next k = Triple-raise e (λ s p. p)

module _ {C O : Type 0} (world : World) (board : Board) (cn : ControlNode C)
    (node : OpenNode O) where
  -- A predicate, at each depth of the lock, that does not depend on the nodes or on the lock.
  pub record IsUntouched (me : ℕ) (P : ℕ → Manager C O → Type 0) : Type 1 where
    pub at_control : (n : ℕ) (c : C) (m : Manager C O) → P n m → P n (record m { control = c })
    pub at_open : (n : ℕ) (o : O) (m : Manager C O) → P n m → P n (record m { open_node = o })
    pub at_synchronous :
        (n : ℕ) {A : Type 0} (func : Action (Manager C O) A)
        → Keeps (P (suc n)) func
        → Keeps (P n) (synchronous me func)

  -- Also: experiments keep it.
  pub record IsKept (me : ℕ) (P : ℕ → Manager C O → Type 0) : Type 1 where
    pub untouched : IsUntouched me P
    pub at_stop : (n : ℕ) → Keeps (P n) (exp_stop world board cn node me)
    pub at_start :
        (n : ℕ) (user : String) (exp_id : ℕ) (firmware : Option String) (profile : Json)
        (timeout : ℕ)
        → Keeps (P n) (exp_start world board cn node me user exp_id firmware profile timeout)

  module _ {me : ℕ} {P : ℕ → Manager C O → Type 0} (k : IsUntouched me P) where
    abbrev via_control : {n : ℕ} {A : Type 0} (m : Action C A) → Keeps (P n) (on control_part m)
    via_control {n} m = Keeps-on control_part m (k.at_control n)

    abbrev via_open : {n : ℕ} {A : Type 0} (m : Action O A) → Keeps (P n) (on open_part m)
    via_open {n} m = Keeps-on open_part m (k.at_open n)

    Keeps-flash_target :
        (n : ℕ) (target : Target) (firmware : Option String) (binary : Bool) (offset : ℤ)
        → Keeps (P n) (flash_target world board cn node target firmware binary offset)
    Keeps-flash_target n control firmware binary offset =
        via_control (cn.flash firmware binary offset)
    Keeps-flash_target n open_node firmware binary offset =
        via_open (flashed node.flash firmware binary offset)
    Keeps-flash_target n other firmware binary offset = Triple-raise assertion_error (λ m p. p)

    Keeps-node_flash_body :
        (n : ℕ) (target : Target) (firmware : Option String) (binary : Bool) (offset : ℤ)
        → Keeps (P n) (node_flash_body world board cn node target firmware binary offset)
    unfolding node_flash_body
    Keeps-node_flash_body n other firmware binary offset = Triple-raise assertion_error (λ m p. p)
    Keeps-node_flash_body n control firmware binary offset =
        Triple-bind
          (if binary then pure true else is_compatible_with_node world firmware cn.elf_target) _
          (Triple-if binary (λ _. Triple-pure true (λ m p. p))
            (λ _. Keeps-Steady (Steady-is_compatible_with_node world firmware cn.elf_target)))
          λ ok.
            Triple-if ok (λ _. Keeps-flash_target n control firmware binary offset)
              (λ _. Triple-pure (pos 1) (λ m p. p))
    Keeps-node_flash_body n open_node firmware binary offset =
        Triple-bind
          (if binary then pure true else is_compatible_with_node world firmware node.elf_target) _
          (Triple-if binary (λ _. Triple-pure true (λ m p. p))
            (λ _. Keeps-Steady (Steady-is_compatible_with_node world firmware node.elf_target)))
          λ ok.
            Triple-if ok (λ _. Keeps-flash_target n open_node firmware binary offset)
              (λ _. Triple-pure (pos 1) (λ m p. p))

    -- Requests that do not start or stop experiments.
    pub Keeps-quiet :
        {F : Type 0} (tests : Tests C O F) (n : ℕ) (request : Request)
        → is_quiet request ≡ true
        → Keeps (P n) (handle world board cn node tests me request)
    unfolding handle auto_tests exp_update_profile open_power_start open_power_stop open_debug_start
        open_debug_stop node_soft_reset node_flash status sleep_for
    Keeps-quiet tests n (start user exp_id firmware profile timeout) e = cc e
    Keeps-quiet tests n stop e = cc e
    Keeps-quiet tests n (timer_fires exp_id user) e = cc e
    Keeps-quiet tests n (update_profile profile) e =
        k.at_synchronous n _
          (Keeps-accept (from_dict node.alim profile) _ λ p. via_control (cn.configure_profile p))
    Keeps-quiet tests n (power_start power) e =
        k.at_synchronous n _ (via_control (switched cn.open_start power))
    Keeps-quiet tests n (power_stop power) e =
        k.at_synchronous n _ (via_control (switched cn.open_stop power))
    Keeps-quiet tests n debug_start e = k.at_synchronous n _ (via_open (method node.debug_start))
    Keeps-quiet tests n debug_stop e = k.at_synchronous n _ (via_open (method node.debug_stop))
    Keeps-quiet tests n (soft_reset control) e =
        k.at_synchronous n _ (via_control (method cn.reset))
    Keeps-quiet tests n (soft_reset open_node) e =
        k.at_synchronous n _ (via_open (method node.reset))
    Keeps-quiet tests n (soft_reset other) e =
        k.at_synchronous n _ (Triple-raise assertion_error (λ m p. p))
    Keeps-quiet tests n (flash target firmware binary offset) e =
        k.at_synchronous n _ (Keeps-node_flash_body (suc n) target firmware binary offset)
    Keeps-quiet tests n (auto_test channel blink with_flash gps) e =
        Triple-bind (auto_tests world tests me channel blink with_flash gps) _
          (k.at_synchronous n _ (
            Keeps-on run_part (run_tests world tests channel blink with_flash gps)
              λ a m p. k.at_open (suc n) a.g_m.1 _ (k.at_control (suc n) a.g_m.0 m p)))
          λ report. Triple-pure (code_of report) (λ m p. p)
    Keeps-quiet tests n ask_status e =
        k.at_synchronous n _ (Keeps-total _ (via_control cn.status, (via_open node.status, tt)))
    Keeps-quiet tests n (sleep_seconds seconds) e = k.at_synchronous n _ (
        Triple-bind (perform world (sleep seconds)) _ (Keeps-perform world (sleep seconds))
          λ _. Triple-pure (pos 0) (λ m p. p))

  module _ {me : ℕ} {P : ℕ → Manager C O → Type 0} (k : IsKept me P) where
    Keeps-swallow :
        (n : ℕ) (e : Exception) → Keeps (P n) (swallow_would_block world board cn node e)
    Keeps-swallow n (environment_error x) =
        Triple-if (x == would_block) (λ _. Triple-pure tt (λ s p. p))
          (λ _. Triple-raise _ (λ s p. p))
    Keeps-swallow n (io_error x) =
        Triple-if (x == would_block) (λ _. Triple-pure tt (λ s p. p))
          (λ _. Triple-raise _ (λ s p. p))
    Keeps-swallow n (os_error x) =
        Triple-if (x == would_block) (λ _. Triple-pure tt (λ s p. p))
          (λ _. Triple-raise _ (λ s p. p))
    Keeps-swallow n e = Triple-raise e (λ s p. p)

    Keeps-timeout :
        (n exp_id : ℕ) (user : String)
        → Keeps (P n) (timeout_exp_stop world board cn node me exp_id user)
    unfolding timeout_exp_stop
    Keeps-timeout n exp_id user = k.untouched.at_synchronous n _ (
        Triple-bind (gets (λ m. m)) _ (Triple-gets {Q = λ _. P (suc n)} _ (λ m p. p)) λ m.
          Triple-if (is_current exp_id user m)
            (λ _.
              Keeps-try (exp_stop world board cn node me >>= (λ _. pure tt)) _
                (Triple-bind (exp_stop world board cn node me) _ (k.at_stop (suc n))
                  (λ _. Triple-pure tt (λ m p. p)))
                (Keeps-swallow (suc n)))
            (λ _. Triple-pure tt (λ m p. p)))

    pub Keeps-handle :
        {F : Type 0} (tests : Tests C O F) (n : ℕ) (request : Request)
        → Keeps (P n) (handle world board cn node tests me request)
    unfolding handle
    Keeps-handle tests n (start user exp_id firmware profile timeout) =
        k.at_start n user exp_id firmware profile timeout
    Keeps-handle tests n stop = k.at_stop n
    Keeps-handle tests n (timer_fires exp_id user) =
        Triple-bind (timeout_exp_stop world board cn node me exp_id user) _
          (Keeps-timeout n exp_id user) λ _. Triple-pure (pos 0) (λ m p. p)
    Keeps-handle tests n (update_profile profile) =
        Keeps-quiet k.untouched tests n (update_profile profile) refl
    Keeps-handle tests n (power_start power) =
        Keeps-quiet k.untouched tests n (power_start power) refl
    Keeps-handle tests n (power_stop power) =
        Keeps-quiet k.untouched tests n (power_stop power) refl
    Keeps-handle tests n debug_start = Keeps-quiet k.untouched tests n debug_start refl
    Keeps-handle tests n debug_stop = Keeps-quiet k.untouched tests n debug_stop refl
    Keeps-handle tests n (soft_reset target) =
        Keeps-quiet k.untouched tests n (soft_reset target) refl
    Keeps-handle tests n (flash target firmware binary offset) =
        Keeps-quiet k.untouched tests n (flash target firmware binary offset) refl
    Keeps-handle tests n (auto_test channel blink with_flash gps) =
        Keeps-quiet k.untouched tests n (auto_test channel blink with_flash gps) refl
    Keeps-handle tests n ask_status = Keeps-quiet k.untouched tests n ask_status refl
    Keeps-handle tests n (sleep_seconds seconds) =
        Keeps-quiet k.untouched tests n (sleep_seconds seconds) refl
