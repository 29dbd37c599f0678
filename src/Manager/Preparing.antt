-- ===== src/Manager/Preparing.antt =====
-- What `exp_start` does to the manager's attributes while it sets an experiment up.
use iot_lab_gateway.Prelude.{
  ℕ, String, not, ◌||◌, ◌&&◌, Option, none, same, [], ◌∷◌, if◌then◌else◌, is_none,
}
use iot_lab_gateway.Prelude.Int.{pos}
use iot_lab_gateway.Json.{null}
use iot_lab_gateway.Profile.{Profile}
use iot_lab_gateway.Effects.{World, Attempt, gets, modify, pure, perform, total, open_log}
use iot_lab_gateway.Effects.Triples.{
  Triple, Keeps, Steady-pure, Triple-bind, Triple-pure, Triple-gets, Triple-modify, Triple-if,
  Keeps-on, Keeps-Steady, Keeps-total, Keeps-perform,
}
use iot_lab_gateway.OpenOcd.{attempted}
use iot_lab_gateway.ControlNode.{ControlNode}
use iot_lab_gateway.OpenNode.{OpenNode}
use iot_lab_gateway.Manager.{
  Manager, Board, control_part, open_part, begin_experiment, add_log_handler, create_user_exp_files,
  create_user_exp_folders, is_turtlebot, log_path, prepare_gateway, start_nodes, pycom_cycle,
  open_start_default, open_stop_default, switched, require_power_cycle,
}
use iot_lab_gateway.Manager.Quiet.{
  Steady-if, Steady-wait_tty, Steady-wait_no_tty, Steady-attempted, Steady-create_user_exp_files,
  Steady-create_user_exp_folders,
}
use iot_lab_gateway.Manager.Experiments.{step}
use iot_lab_gateway.Manager.Consistency.{
  IsConsistent, IsIdle, IsBegun, Runs, begin_experiment-IsBegun, set_exp_files-IsBegun,
  add_log_handler-Runs,
}

module _ {C O : Type 0} (world : World) (board : Board) (cn : ControlNode C)
    (node : OpenNode O) where
  begun : {name : String} {number : ℕ} (m : Manager C O) → IsBegun name number m → IsConsistent m
  begun m p = p.0

  pub prepare_gateway-Triple :
      (user : String) (exp_id : ℕ)
      → Triple IsIdle
          (prepare_gateway world board cn node user exp_id)
          (λ _. Runs user exp_id none)
          IsConsistent
  unfolding prepare_gateway
  prepare_gateway-Triple user exp_id =
      Triple-bind (modify (begin_experiment user exp_id)) _
        (Triple-modify {Q = λ _. IsBegun user exp_id} _ (begin_experiment-IsBegun user exp_id))
        λ _.
          Triple-bind
            (if is_turtlebot board.robot_type || same cn.type_name "no"
              then create_user_exp_folders world user exp_id
              else pure tt)
            _
            (step begun (
              Keeps-Steady (
                Steady-if (is_turtlebot board.robot_type || same cn.type_name "no") _ _
                  (Steady-create_user_exp_folders world user exp_id) (Steady-pure tt))))
            λ _.
              Triple-bind (create_user_exp_files world board.node_id user exp_id) _
                (step begun
                  (Keeps-Steady (Steady-create_user_exp_files world board.node_id user exp_id)))
                λ files.
                  Triple-bind (modify (λ m. record m { exp_files = files })) _
                    (Triple-modify {Q = λ _. IsBegun user exp_id} _
                      (set_exp_files-IsBegun files user exp_id))
                    λ _.
                      Triple-bind (perform world (open_log (log_path files))) _
                        (step begun (Keeps-perform world (open_log (log_path files))))
                        λ (opened : Attempt (Unit {0})).
                          Triple-bind (attempted opened) _
                            (step begun (Keeps-Steady (Steady-attempted opened)))
                            λ _.
                              Triple-modify (add_log_handler (log_path files))
                                (add_log_handler-Runs (log_path files) user exp_id)

  -- What does not depend on the two nodes is kept by all that `exp_start` asks of them.
  module _ {P : Manager C O → Type 0}
      (pc : (c : C) (m : Manager C O) → P m → P (record m { control = c }))
      (po : (o : O) (m : Manager C O) → P m → P (record m { open_node = o })) where
    Keeps-open_start_default : Keeps P (open_start_default world board cn node)
    Keeps-open_start_default = Keeps-on control_part (switched cn.open_start null) pc

    Keeps-open_stop_default : Keeps P (open_stop_default world board cn node)
    Keeps-open_stop_default = Keeps-on control_part (switched cn.open_stop null) pc

    Keeps-pycom_cycle : Keeps P (pycom_cycle world board cn node)
    unfolding pycom_cycle
    Keeps-pycom_cycle = Keeps-total _ (
      Keeps-open_stop_default,
      (
        Keeps-Steady (Steady-wait_no_tty world node.tty 10),
        (Keeps-open_start_default, (Keeps-Steady (Steady-wait_tty world node.tty 10), tt)),
      ),
    )

    Keeps-power_cycle :
        (firmware : Option String)
        → Keeps P (
            if not (is_none firmware) && require_power_cycle node.type_name
            then total (
                open_stop_default world board cn node ∷ open_start_default world board cn node ∷ [])
            else pure (pos 0))
    Keeps-power_cycle firmware =
        Triple-if (not (is_none firmware) && require_power_cycle node.type_name)
          (λ _. Keeps-total _ (Keeps-open_stop_default, (Keeps-open_start_default, tt)))
          (λ _. Triple-pure (pos 0) (λ m p. p))

    pub Keeps-start_nodes :
        (exp_id : ℕ) (firmware : Option String) (profile : Option Profile)
        → Keeps P (start_nodes world board cn node exp_id firmware profile)
    unfolding start_nodes
    Keeps-start_nodes exp_id firmware profile = Keeps-total _ (
      Triple-bind (gets (λ m. m.exp_files)) _ (Triple-gets {Q = λ _. P} _ (λ m p. p))
          (λ files. Keeps-on control_part (cn.start exp_id files) pc),
      (
        Triple-if (same node.type_name "pycom")
            (λ _. Keeps-total _ (Keeps-pycom_cycle, (Keeps-pycom_cycle, tt)))
            (λ _. Triple-pure (pos 0) (λ m p. p)),
        (
          Keeps-on open_part (node.setup firmware) po,
          (
            Keeps-on control_part (cn.start_experiment profile) pc,
            (Keeps-power_cycle firmware, tt),
          ),
        ),
      ),
    )
