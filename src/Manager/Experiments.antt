-- ===== src/Manager/Experiments.antt =====
-- Experiments: what `exp_start`, `exp_stop` and the timer leave behind.
use iot_lab_gateway.Prelude.{ℕ, ◌≡◌, refl, not, Option, none, some, arith, same}
use iot_lab_gateway.Prelude.Int.{pos, ◌+ℤ◌}
use iot_lab_gateway.Effects.{State, World, Action, gets, modify, on, method, attribute_error}
use iot_lab_gateway.Effects.Triples.{
  Post, Triple, Keeps, Steady, Steady-bind, Steady-pure, Triple-bind, Triple-pure, Triple-raise,
  Triple-gets, Triple-modify, Triple-if, Triple-post, Keeps-on, Keeps-Steady,
}
use iot_lab_gateway.Common.{wait_tty}
use iot_lab_gateway.ControlNode.{ControlNode}
use iot_lab_gateway.OpenNode.{OpenNode}
use iot_lab_gateway.Manager.{
  Manager, Board, control_part, open_part, clear_experiment, cleanup_user_exp_files, exp_stop_body,
  exp_stop_nodes, pycom_visible, exp_stop,
}
use iot_lab_gateway.Manager.Quiet.{Steady-if, Steady-wait_tty, Steady-cleanup_user_exp_files}
use iot_lab_gateway.Manager.Locking.{Triple-synchronous}
use iot_lab_gateway.Manager.Consistency.{IsConsistent, IsIdle, clear_experiment-IsIdle}

pub Keeps-method :
    {O A : Type 0} {P : O → Type 0} (m : Option (Action O A))
    → ((n : Action O A) → Keeps P n)
    → Keeps P (method m)
Keeps-method none k = Triple-raise attribute_error (λ o p. p)
Keeps-method (some m) k = k m

-- A step that keeps `P`, where an exception needs less.
pub step :
    {O A : Type 0} {P E : O → Type 0} {m : Action O A}
    → ((o : O) → P o → E o)
    → Keeps P m
    → Triple P m (λ _. P) E
step h k = Triple-post k (λ a o p. p) h

module _ {C O : Type 0} (world : World) (board : Board) (cn : ControlNode C)
    (node : OpenNode O) where
  abbrev TimerOff : Manager C O → Type 0
  TimerOff m = IsConsistent m × (m.timeout_timer ≡ none)

  timer_off : (m : Manager C O) → IsConsistent m → TimerOff (record m { timeout_timer = none })
  timer_off m (nothing, named, handlers, timer) = (
    (λ off. let (a, b, c, d, e) = nothing off in (a, b, c, d, refl), named, handlers, λ t h. cc h),
    refl,
  )

  drop_timer : (m : Manager C O) → TimerOff m → IsConsistent m
  drop_timer m p = p.0

  pub Steady-pycom_visible : Steady (pycom_visible world board cn node)
  unfolding pycom_visible
  Steady-pycom_visible =
      Steady-if (same node.type_name "pycom") _ _
        (Steady-bind (wait_tty world node.tty 10) _ (Steady-wait_tty world node.tty 10)
          λ _. Steady-pure tt)
        (Steady-pure tt)

  -- `P` holds until the experiment is cleared, which leaves `Q`.
  pub Triple-stop_nodes :
      {P Q E : Manager C O → Type 0}
      → ((c : C) (m : Manager C O) → P m → P (record m { control = c }))
      → ((o : O) (m : Manager C O) → P m → P (record m { open_node = o }))
      → ((m : Manager C O) → P m → Q (clear_experiment m))
      → ((m : Manager C O) → P m → E m)
      → Triple P (exp_stop_nodes world board cn node) (λ _. Q) E
  unfolding exp_stop_nodes
  Triple-stop_nodes {P} {Q} at_control at_open cleared left =
      Triple-bind (on control_part cn.stop_experiment) _
        (step left (Keeps-on control_part cn.stop_experiment at_control))
        λ monitoring.
          Triple-bind (pycom_visible world board cn node) _
            (step left (Keeps-Steady Steady-pycom_visible))
            λ _.
              Triple-bind (on open_part node.teardown) _
                (step left (Keeps-on open_part node.teardown at_open))
                λ cleanup.
                  Triple-bind (on control_part cn.stop) _
                    (step left (Keeps-on control_part cn.stop at_control))
                    λ _.
                      Triple-bind (gets (λ m. m.exp_files)) _
                        (Triple-gets {Q = λ _. P} _ (λ m p. p))
                        λ files.
                          Triple-bind (cleanup_user_exp_files world files) _
                            (step left (Keeps-Steady (Steady-cleanup_user_exp_files world files)))
                            λ _.
                              Triple-bind (modify clear_experiment) _
                                (Triple-modify {Q = λ _. Q} _ cleared)
                                λ _. Triple-pure (monitoring +ℤ cleanup) (λ m p. p)

  stop_nodes-Triple :
      Triple TimerOff (exp_stop_nodes world board cn node) (λ _. IsIdle) IsConsistent
  stop_nodes-Triple =
      Triple-stop_nodes {P = TimerOff} (λ c m p. p) (λ o m p. p)
        (λ m p. clear_experiment-IsIdle m p.0 p.1) drop_timer

  exp_stop_body-Triple :
      Triple IsConsistent (exp_stop_body world board cn node) (λ _. IsIdle) IsConsistent
  unfolding exp_stop_body
  exp_stop_body-Triple =
      Triple-bind (gets (λ m. m.experiment_is_running)) _
        (Triple-gets {Q = λ r m. IsConsistent m × (m.experiment_is_running ≡ r)} _
          (λ m p. (p, refl)))
        λ running.
          Triple-if (not running) (λ e. Triple-pure (pos 0) (λ m p. (p.0, ground arith)))
            λ _.
              Triple-bind (modify (λ m. record m { timeout_timer = none })) _
                (Triple-modify {Q = λ _. TimerOff} _ (λ m p. timer_off m p.0))
                λ _. stop_nodes-Triple

  pub exp_stop-Triple :
      (me : ℕ) → Triple IsConsistent (exp_stop world board cn node me) (λ _. IsIdle) IsConsistent
  unfolding exp_stop
  exp_stop-Triple me =
      Triple-synchronous me (exp_stop_body world board cn node) (record { relock = λ h m p. p })
        (λ a. record { relock = λ h m p. p }) (record { relock = λ h m p. p }) (λ m p. p)
        exp_stop_body-Triple

  -- From a consistent manager, `exp_stop` leaves nothing of an experiment behind where it returns,
  -- and where it raises the manager is still consistent.
  pub exp_stop-IsIdle :
      (me : ℕ) (s : State (Manager C O))
      → IsConsistent s.self
      → Post (λ code. IsIdle) IsConsistent (exp_stop world board cn node me s)
  exp_stop-IsIdle me s p = (exp_stop-Triple me).at s p
