-- ===== src/Manager/Starting.antt =====
-- Experiments: what `exp_start` leaves behind, on every path.
use iot_lab_gateway.Prelude.{
  ℕ, String, ◌≡◌, refl, not, Option, some, ◌==◌, inl, inr, ◌∙◌, if◌then◌else◌,
}
use iot_lab_gateway.Prelude.Int.{pos}
use iot_lab_gateway.Json.{Json}
use iot_lab_gateway.Profile.{from_dict, Profile, Checked, valid, failed}
use iot_lab_gateway.Effects.{State, World, gets, modify, pure, ◌>>=◌, value_error}
use iot_lab_gateway.Effects.Triples.{
  Post, Triple, Triple-bind, Triple-pure, Triple-raise, Triple-gets, Triple-modify, Triple-if,
  Triple-post, Triple-pre, Keeps-Steady,
}
use iot_lab_gateway.ElfTarget.{is_compatible_with_node}
use iot_lab_gateway.ControlNode.{ControlNode}
use iot_lab_gateway.OpenNode.{OpenNode}
use iot_lab_gateway.Manager.{
  Manager, exp_start, exp_start_body, exp_stop, Board, set_timer, prepare_gateway, start_nodes,
  launch, accept,
}
use iot_lab_gateway.Manager.Quiet.{Steady-is_compatible_with_node}
use iot_lab_gateway.Manager.Experiments.{exp_stop-Triple, step}
use iot_lab_gateway.Manager.Consistency.{
  Started, timer_for, IsConsistent, IsIdle, Runs, set_timer-Runs,
}
use iot_lab_gateway.Manager.Locking.{Triple-synchronous}
use iot_lab_gateway.Manager.Preparing.{prepare_gateway-Triple, Keeps-start_nodes}

module _ {C O : Type 0} (world : World) (board : Board) (cn : ControlNode C)
    (node : OpenNode O) where
  launch-Triple :
      (user : String) (exp_id : ℕ) (firmware : Option String) (profile : Option Profile)
      (timeout : ℕ)
      → Triple IsIdle
          (launch world board cn node user exp_id firmware profile timeout)
          (λ _. Runs user exp_id (timer_for user exp_id timeout))
          IsConsistent
  unfolding launch
  launch-Triple user exp_id firmware profile timeout =
      Triple-bind (prepare_gateway world board cn node user exp_id) _
        (prepare_gateway-Triple world board cn node user exp_id)
        λ _.
          Triple-bind (start_nodes world board cn node exp_id firmware profile) _
            (step (λ m p. p.0)
              (Keeps-start_nodes world board cn node (λ c m p. p) (λ o m p. p) exp_id firmware
                profile))
            λ ret.
              Triple-if (timeout == 0) (λ e. Triple-pure ret (λ m p. rw e p))
                (λ e.
                  Triple-bind
                    (modify
                      (set_timer (record { timeout = timeout; exp_id = exp_id; user = user })))
                    _
                    (Triple-modify
                      {Q = λ _.
                        Runs user exp_id
                          (some (record { timeout = timeout; exp_id = exp_id; user = user }))}
                      _ (λ m p. set_timer-Runs _ user exp_id m refl refl p))
                    λ _. Triple-pure ret (λ m p. rw e p))

  checked-Triple :
      (user : String) (exp_id : ℕ) (firmware : Option String) (profile : Option Profile)
      (timeout : ℕ)
      → Triple IsIdle
          (is_compatible_with_node world firmware node.elf_target >>= λ compatible.
            if not compatible
            then pure (pos 1)
            else launch world board cn node user exp_id firmware profile timeout)
          (Started user exp_id timeout)
          IsConsistent
  checked-Triple user exp_id firmware profile timeout =
      Triple-bind (is_compatible_with_node world firmware node.elf_target) _
        (step (λ m p. p.0)
          (Keeps-Steady (Steady-is_compatible_with_node world firmware node.elf_target)))
        λ compatible.
          Triple-if (not compatible) (λ e. Triple-pure (pos 1) (λ m p. inl (p, refl)))
            (λ e.
              Triple-post (launch-Triple user exp_id firmware profile timeout) (λ a m p. inr p)
                (λ m p. p))

  accept-Triple :
      (checked : Checked (Option Profile)) (user : String) (exp_id : ℕ) (firmware : Option String)
      (timeout : ℕ)
      → Triple IsIdle
          (accept checked λ profile.
            is_compatible_with_node world firmware node.elf_target >>= λ compatible.
            if not compatible
            then pure (pos 1)
            else launch world board cn node user exp_id firmware profile timeout)
          (Started user exp_id timeout)
          IsConsistent
  accept-Triple (valid profile) user exp_id firmware timeout =
      checked-Triple user exp_id firmware profile timeout
  accept-Triple (failed value_error) user exp_id firmware timeout =
      Triple-pure (pos 1) (λ m p. inl (p, refl))
  accept-Triple (failed e) user exp_id firmware timeout = Triple-raise e (λ m p. p.0)

  exp_start_body-Triple :
      (me : ℕ) (user : String) (exp_id : ℕ) (firmware : Option String) (profile : Json)
      (timeout : ℕ)
      → Triple IsConsistent
          (exp_start_body world board cn node me user exp_id firmware profile timeout)
          (Started user exp_id timeout)
          IsConsistent
  unfolding exp_start_body
  exp_start_body-Triple me user exp_id firmware profile timeout =
      Triple-bind (gets (λ m. m.experiment_is_running)) _
        (Triple-gets {Q = λ r m. IsConsistent m × (m.experiment_is_running ≡ r)} _
          (λ m p. (p, refl)))
        λ running.
          Triple-bind
            (if running then exp_stop world board cn node me >>= (λ _. pure tt) else pure tt) _
            (Triple-if {Q = λ _. IsIdle} running
              (λ e.
                Triple-bind (exp_stop world board cn node me) _
                  (Triple-pre (λ m p. p.0) (exp_stop-Triple world board cn node me))
                  λ _. Triple-pure tt (λ m p. p))
              (λ e. Triple-pure tt (λ m p. (p.0, p.1 ∙ e))))
            λ _. accept-Triple (from_dict node.alim profile) user exp_id firmware timeout

  pub exp_start-Triple :
      (me : ℕ) (user : String) (exp_id : ℕ) (firmware : Option String) (profile : Json)
      (timeout : ℕ)
      → Triple IsConsistent
          (exp_start world board cn node me user exp_id firmware profile timeout)
          (Started user exp_id timeout)
          IsConsistent
  unfolding exp_start
  exp_start-Triple me user exp_id firmware profile timeout =
      Triple-synchronous me
        (exp_start_body world board cn node me user exp_id firmware profile timeout)
        (record { relock = λ h m p. p }) (λ a. record { relock = λ h m p. p })
        (record { relock = λ h m p. p }) (λ m p. p)
        (exp_start_body-Triple me user exp_id firmware profile timeout)

  -- From a consistent manager, `exp_start` returns 1 with the gateway idle, or returns with the
  -- experiment that was asked for running, under a timer exactly when the timeout is not 0. If it
  -- raises, the manager is still consistent.
  pub exp_start-Started :
      (me : ℕ) (user : String) (exp_id : ℕ) (firmware : Option String) (profile : Json)
      (timeout : ℕ) (s : State (Manager C O))
      → IsConsistent s.self
      → Post
          (Started user exp_id timeout)
          IsConsistent
          (exp_start world board cn node me user exp_id firmware profile timeout s)
  exp_start-Started me user exp_id firmware profile timeout s p =
      (exp_start-Triple me user exp_id firmware profile timeout).at s p
