-- ===== src/Manager/Balance.antt =====
-- `exp_start` and `exp_stop` release the lock as often as they acquire it, on every path.
use iot_lab_gateway.Prelude.{ℕ, suc, String, ◌≡◌, refl, ◌∙◌, not, ◌||◌, Option, none, same, ◌==◌}
use iot_lab_gateway.Prelude.Int.{pos}
use iot_lab_gateway.Json.{Json}
use iot_lab_gateway.Profile.{Profile, from_dict}
use iot_lab_gateway.Effects.{World, Action, Attempt, gets, modify, on, pure, open_log}
use iot_lab_gateway.Effects.Triples.{
  Keeps, Keeps-bind, Triple-pure, Triple-gets, Triple-modify, Triple-if, Keeps-on, Keeps-Steady,
  Keeps-perform,
}
use iot_lab_gateway.ControlNode.{ControlNode}
use iot_lab_gateway.OpenNode.{OpenNode}
use iot_lab_gateway.Manager.{
  Manager, Board, Held, control_part, open_part, begin_experiment, add_log_handler, set_timer,
  is_turtlebot, log_path, exp_stop_body, exp_stop, prepare_gateway, launch, exp_start_body,
  exp_start,
}
use iot_lab_gateway.Manager.Quiet.{
  Steady-attempted, Steady-is_compatible_with_node, Steady-create_user_exp_files,
  Steady-create_user_exp_folders,
}
use iot_lab_gateway.Manager.Locking.{Keeps-synchronous, depth, Locked}
use iot_lab_gateway.Manager.Experiments.{Triple-stop_nodes}
use iot_lab_gateway.Manager.Preparing.{Keeps-start_nodes}
use iot_lab_gateway.Manager.Sessions.{Keeps-accept}

module _ {C O : Type 0} {l : Option Held} where
  assigned :
      (f : Manager C O → Manager C O)
      → ((m : Manager C O) → (f m).rlock ≡ m.rlock)
      → Keeps (Locked l) (modify f)
  assigned f e = Triple-modify f (λ m p. e m ∙ p)

  read : {A : Type 0} (f : Manager C O → A) → Keeps (Locked l) (gets f)
  read f = Triple-gets f (λ m p. p)

  given : {A : Type 0} (a : A) → Keeps {O = Manager C O} (Locked l) (pure a)
  given a = Triple-pure a (λ m p. p)

  asked_control :
      {A : Type 0} (m : Action C A) → Keeps {O = Manager C O} (Locked l) (on control_part m)
  asked_control m = Keeps-on control_part m (λ c o p. p)

  asked_open : {A : Type 0} (m : Action O A) → Keeps {O = Manager C O} (Locked l) (on open_part m)
  asked_open m = Keeps-on open_part m (λ c o p. p)

module _ {C O : Type 0} (world : World) (board : Board) (cn : ControlNode C)
    (node : OpenNode O) where
  exp_stop_body-Locked : (l : Option Held) → Keeps (Locked l) (exp_stop_body world board cn node)
  unfolding exp_stop_body
  exp_stop_body-Locked l = Keeps-bind (read (λ m. m.experiment_is_running)) λ running.
      Triple-if (not running) (λ _. given (pos 0))
        λ _. Keeps-bind (assigned (λ m. record m { timeout_timer = none }) (λ m. refl)) λ _.
          Triple-stop_nodes world board cn node {P = Locked l} (λ c m p. p) (λ o m p. p) (λ m p. p)
            (λ m p. p)

  pub exp_stop-Locked : (me n : ℕ) → Keeps (Locked (depth me n)) (exp_stop world board cn node me)
  unfolding exp_stop
  exp_stop-Locked me n = Keeps-synchronous me n _ (exp_stop_body-Locked (depth me (suc n)))

  prepare_gateway-Locked :
      (l : Option Held) (user : String) (exp_id : ℕ)
      → Keeps (Locked l) (prepare_gateway world board cn node user exp_id)
  unfolding prepare_gateway
  prepare_gateway-Locked l user exp_id =
      Keeps-bind (assigned (begin_experiment user exp_id) (λ m. refl)) λ _.
        Keeps-bind
          (Triple-if (is_turtlebot board.robot_type || same cn.type_name "no")
            (λ _. Keeps-Steady (Steady-create_user_exp_folders world user exp_id)) (λ _. given tt))
          λ _.
            Keeps-bind (Keeps-Steady (Steady-create_user_exp_files world board.node_id user exp_id))
              λ files. Keeps-bind (assigned (λ m. record m { exp_files = files }) (λ m. refl)) λ _.
                Keeps-bind (Keeps-perform world (open_log (log_path files)))
                  λ (opened : Attempt (Unit {0})).
                    Keeps-bind (Keeps-Steady (Steady-attempted opened))
                      λ _. assigned (add_log_handler (log_path files)) (λ m. refl)

  launch-Locked :
      (l : Option Held) (user : String) (exp_id : ℕ) (firmware : Option String)
      (profile : Option Profile) (timeout : ℕ)
      → Keeps (Locked l) (launch world board cn node user exp_id firmware profile timeout)
  unfolding launch
  launch-Locked l user exp_id firmware profile timeout =
      Keeps-bind (prepare_gateway-Locked l user exp_id) λ _.
        Keeps-bind
          (Keeps-start_nodes world board cn node (λ c m p. p) (λ o m p. p) exp_id firmware profile)
          λ ret.
            Triple-if (timeout == 0) (λ _. given ret)
              λ _.
                Keeps-bind
                  (assigned (set_timer (record { timeout = timeout; exp_id = exp_id; user = user }))
                    (λ m. refl))
                  λ _. given ret

  exp_start_body-Locked :
      (me n : ℕ) (user : String) (exp_id : ℕ) (firmware : Option String) (profile : Json)
      (timeout : ℕ)
      → Keeps
          (Locked (depth me n))
          (exp_start_body world board cn node me user exp_id firmware profile timeout)
  unfolding exp_start_body
  exp_start_body-Locked me n user exp_id firmware profile timeout =
      Keeps-bind (read (λ m. m.experiment_is_running)) λ running.
        Keeps-bind
          (Triple-if running (λ _. Keeps-bind (exp_stop-Locked me n) λ _. given tt) (λ _. given tt))
          λ _. Keeps-accept (from_dict node.alim profile) _ λ p.
            Keeps-bind
              (Keeps-Steady (Steady-is_compatible_with_node world firmware node.elf_target))
              λ compatible.
                Triple-if (not compatible) (λ _. given (pos 1))
                  λ _. launch-Locked (depth me n) user exp_id firmware p timeout

  pub exp_start-Locked :
      (me n : ℕ) (user : String) (exp_id : ℕ) (firmware : Option String) (profile : Json)
      (timeout : ℕ)
      → Keeps
          (Locked (depth me n))
          (exp_start world board cn node me user exp_id firmware profile timeout)
  unfolding exp_start
  exp_start-Locked me n user exp_id firmware profile timeout =
      Keeps-synchronous me n _
        (exp_start_body-Locked me (suc n) user exp_id firmware profile timeout)
