-- ===== src/Manager/Refinement.antt =====
-- `exp_start` and `exp_stop` as moves of the session.
pub mod Handling
use iot_lab_gateway.Prelude.{
  ℕ, String, ◌≡◌, refl, not, Option, some, none, ◌==◌, if◌then◌else◌, ◌∙◌, arith, ◌||◌, same,
}
use iot_lab_gateway.Prelude.Int.{ℤ, pos}
use iot_lab_gateway.Json.{Json}
use iot_lab_gateway.Profile.{from_dict, Profile, Checked, valid, failed}
use iot_lab_gateway.Effects.{
  World, Attempt, returned, raised, Exception, gets, modify, pure, open_log, ◌>>=◌, value_error,
}
use iot_lab_gateway.Effects.Triples.{
  Keeps, Keeps-bind, Triple, Triple-bind, Triple-pure, Triple-raise, Triple-gets, Triple-modify,
  Triple-if, Triple-post, Triple-pre, Keeps-Steady, Keeps-perform,
}
use iot_lab_gateway.ElfTarget.{is_compatible_with_node}
use iot_lab_gateway.ControlNode.{ControlNode}
use iot_lab_gateway.OpenNode.{OpenNode}
use iot_lab_gateway.Manager.{
  Manager, Board, begin_experiment, add_log_handler, set_timer, is_turtlebot, log_path, exp_start,
  exp_start_body, exp_stop, exp_stop_body, prepare_gateway, launch, accept,
}
use iot_lab_gateway.Manager.Requests.{Request, start}
use iot_lab_gateway.Manager.Quiet.{
  Steady-attempted, Steady-is_compatible_with_node, Steady-create_user_exp_files,
  Steady-create_user_exp_folders,
}
use iot_lab_gateway.Manager.Locking.{Triple-synchronous}
use iot_lab_gateway.Manager.Experiments.{Triple-stop_nodes, step}
use iot_lab_gateway.Manager.Preparing.{Keeps-start_nodes}
use iot_lab_gateway.Manager.Sessions.{IsUntouched}
use iot_lab_gateway.Manager.Moves

module _ {C O : Type 0} where
  abbrev pub Shows : Moves.Session → Manager C O → Type 0
  Shows x m = Moves.session m ≡ x

  -- The manager moved from the session `x`.
  abbrev pub Moved : Request → Moves.Session → ℤ → Manager C O → Type 0
  Moved request x code m = Moves.Moves request (returned code) x (Moves.session m)

  abbrev pub MovedOff : Request → Moves.Session → Manager C O → Type 0
  MovedOff request x m = (e : Exception) → Moves.Moves request (raised e) x (Moves.session m)

  pub shown :
      {request : Request} {x : Moves.Session} (m : Manager C O) → Shows x m → MovedOff request x m
  shown m p e = rw p Moves.undone

  assigned :
      {x : Moves.Session} (f : Manager C O → Manager C O)
      → ((m : Manager C O) → Moves.session (f m) ≡ Moves.session m)
      → Keeps (Shows x) (modify f)
  assigned f e = Triple-modify f (λ m p. e m ∙ p)

module _ {C O : Type 0} (world : World) (board : Board) (cn : ControlNode C)
    (node : OpenNode O) where
  pub Shows-IsUntouched :
      (me : ℕ) (x : Moves.Session) → IsUntouched world board cn node me (λ _. Shows x)
  Shows-IsUntouched me x = record {
    at_control = λ n c m p. p;
    at_open = λ n o m p. p;
    at_synchronous = λ n func k.
        Triple-synchronous me func (record { relock = λ h m p. p })
          (λ a. record { relock = λ h m p. p }) (record { relock = λ h m p. p }) (λ m p. p) k;
  }

  exp_stop_body-Shows :
      (x : Moves.Session)
      → Triple (Shows x) (exp_stop_body world board cn node) (λ _. Shows none) (Shows x)
  unfolding exp_stop_body
  exp_stop_body-Shows x =
      Triple-bind (gets (λ m. m.experiment_is_running)) _
        (Triple-gets {Q = λ r m. Shows x m × (m.experiment_is_running ≡ r)} _ (λ m p. (p, refl)))
        λ running.
          Triple-if (not running) (λ e. Triple-pure (pos 0) (λ m p. ground arith))
            λ _.
              Triple-bind (modify (λ m. record m { timeout_timer = none })) _
                (Triple-modify {Q = λ _. Shows x} _ (λ m p. p.0))
                λ _.
                  Triple-stop_nodes world board cn node {P = Shows x} (λ c m p. p) (λ o m p. p)
                    (λ m p. refl) (λ m p. p)

  pub exp_stop-Shows :
      (me : ℕ) (x : Moves.Session)
      → Triple (Shows x) (exp_stop world board cn node me) (λ _. Shows none) (Shows x)
  unfolding exp_stop
  exp_stop-Shows me x =
      Triple-synchronous me (exp_stop_body world board cn node) (record { relock = λ h m p. p })
        (λ a. record { relock = λ h m p. p }) (record { relock = λ h m p. p }) (λ m p. p)
        (exp_stop_body-Shows x)

  prepare_gateway-Shows :
      (user : String) (exp_id : ℕ)
      → Triple
          (Shows none)
          (prepare_gateway world board cn node user exp_id)
          (λ _. Shows (some (exp_id, user)))
          (Shows (some (exp_id, user)))
  unfolding prepare_gateway
  prepare_gateway-Shows user exp_id =
      Triple-bind (modify (begin_experiment user exp_id)) _
        (Triple-modify {Q = λ _. Shows (some (exp_id, user))} _ (λ m p. refl))
        λ _.
          Keeps-bind
            (Triple-if (is_turtlebot board.robot_type || same cn.type_name "no")
              (λ _. Keeps-Steady (Steady-create_user_exp_folders world user exp_id))
              (λ _. Triple-pure tt (λ m p. p)))
            λ _.
              Keeps-bind
                (Keeps-Steady (Steady-create_user_exp_files world board.node_id user exp_id))
                λ files.
                  Keeps-bind (assigned (λ m. record m { exp_files = files }) (λ m. refl)) λ _.
                    Keeps-bind (Keeps-perform world (open_log (log_path files)))
                      λ (opened : Attempt (Unit {0})).
                        Keeps-bind (Keeps-Steady (Steady-attempted opened))
                          λ _. assigned (add_log_handler (log_path files)) (λ m. refl)

  launch-Shows :
      (user : String) (exp_id : ℕ) (firmware : Option String) (profile : Option Profile)
      (timeout : ℕ)
      → Triple
          (Shows none)
          (launch world board cn node user exp_id firmware profile timeout)
          (λ _. Shows (some (exp_id, user)))
          (Shows (some (exp_id, user)))
  unfolding launch
  launch-Shows user exp_id firmware profile timeout =
      Triple-bind (prepare_gateway world board cn node user exp_id) _
        (prepare_gateway-Shows user exp_id)
        λ _.
          Keeps-bind
            (Keeps-start_nodes world board cn node (λ c m p. p) (λ o m p. p) exp_id firmware
              profile)
            λ ret.
              Triple-if (timeout == 0) (λ _. Triple-pure ret (λ m p. p))
                λ _.
                  Keeps-bind
                    (assigned
                      (set_timer (record { timeout = timeout; exp_id = exp_id; user = user }))
                      (λ m. refl))
                    λ _. Triple-pure ret (λ m p. p)

  module _ (user : String) (exp_id : ℕ) (firmware : Option String) (dict : Json) (timeout : ℕ)
      (x : Moves.Session) where
    abbrev request : Request
    request = start user exp_id firmware dict timeout

    dropped : (m : Manager C O) → Shows none m → MovedOff request x m
    dropped m p e = rw p Moves.broken_off

    checked-Moved :
        (profile : Option Profile)
        → Triple
            (Shows none)
            (is_compatible_with_node world firmware node.elf_target >>= λ compatible.
              if not compatible
              then pure (pos 1)
              else launch world board cn node user exp_id firmware profile timeout)
            (Moved request x)
            (MovedOff request x)
    checked-Moved profile =
        Triple-bind (is_compatible_with_node world firmware node.elf_target) _
          (step dropped
            (Keeps-Steady (Steady-is_compatible_with_node world firmware node.elf_target)))
          λ compatible.
            Triple-if (not compatible) (λ e. Triple-pure (pos 1) (λ m p. rw p Moves.refused))
              (λ e.
                Triple-post (launch-Shows user exp_id firmware profile timeout)
                  (λ a m p. rw p Moves.started) (λ m p e. rw p Moves.half_started))

    accept-Moved :
        (checked : Checked (Option Profile))
        → Triple
            (Shows none)
            (accept checked λ profile.
              is_compatible_with_node world firmware node.elf_target >>= λ compatible.
              if not compatible
              then pure (pos 1)
              else launch world board cn node user exp_id firmware profile timeout)
            (Moved request x)
            (MovedOff request x)
    accept-Moved (valid profile) = checked-Moved profile
    accept-Moved (failed value_error) = Triple-pure (pos 1) (λ m p. rw p Moves.refused)
    accept-Moved (failed e) = Triple-raise e dropped

    exp_start_body-Moved :
        (me : ℕ)
        → Triple
            (Shows x)
            (exp_start_body world board cn node me user exp_id firmware dict timeout)
            (Moved request x)
            (MovedOff request x)
    unfolding exp_start_body
    exp_start_body-Moved me =
        Triple-bind (gets (λ m. m.experiment_is_running)) _
          (Triple-gets {Q = λ r m. Shows x m × (m.experiment_is_running ≡ r)} _ (λ m p. (p, refl)))
          λ running.
            Triple-bind
              (if running then exp_stop world board cn node me >>= (λ _. pure tt) else pure tt) _
              (Triple-if {Q = λ _. Shows none} running
                (λ e.
                  Triple-bind (exp_stop world board cn node me) _
                    (Triple-pre (λ m p. p.0) (Triple-post (exp_stop-Shows me x) (λ a m p. p) shown))
                    λ _. Triple-pure tt (λ m p. p))
                (λ e. Triple-pure tt (λ m p. ground arith)))
              λ _. accept-Moved (from_dict node.alim dict)

    pub exp_start-Moved :
        (me : ℕ)
        → Triple
            (Shows x)
            (exp_start world board cn node me user exp_id firmware dict timeout)
            (Moved request x)
            (MovedOff request x)
    unfolding exp_start
    exp_start-Moved me =
        Triple-synchronous me
          (exp_start_body world board cn node me user exp_id firmware dict timeout)
          (record { relock = λ h m p. p }) (λ a. record { relock = λ h m p. p })
          (record { relock = λ h m p. p }) shown (exp_start_body-Moved me)
