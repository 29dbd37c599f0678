-- ===== src/Manager.antt =====
-- gateway_code/gateway_manager.py: experiments on an open node and its control node. The manager
-- is modelled for every control node and open node class; a thread is a number.
mod State
mod Files
pub use State.*
unfoldable pub use Files.{
  create_user_exp_files, cleanup_user_exp_files, create_user_exp_folders, exp_dir, create_files,
}
unfoldable pub use State.{synchronous, require_power_cycle}
pub mod Quiet
pub mod Locking
pub mod Consistency
pub mod Experiments
mod Preparing
pub mod Starting
pub mod Autotests
pub mod Requests
pub mod Sessions
mod Balance
pub mod Serving
pub mod Moves
pub mod Refinement
use iot_lab_gateway.Prelude.{
  ℕ, String, Bool, true, false, ◌||◌, ◌&&◌, not, Option, none, some, List, [], ◌∷◌, ◌++◌, same,
  ◌==◌, is_none, if◌then◌else◌,
}
use iot_lab_gateway.Prelude.Int.{ℤ, pos, ◌==ℤ◌, ◌+ℤ◌}
use iot_lab_gateway.Json.{Json, null}
use iot_lab_gateway.Profile.{Profile, Checked, valid, failed, from_dict}
use iot_lab_gateway.Effects.{
  World, Action, Exception, pure, raise, gets, modify, perform, on, method, total, try_except,
  ◌>>=◌, ◌>>◌, value_error, attribute_error, runtime_error, assertion_error, environment_error,
  io_error, os_error, sleep, open_log,
}
use iot_lab_gateway.OpenOcd.{attempted}
use iot_lab_gateway.Common.{wait_tty, wait_no_tty}
use iot_lab_gateway.ElfTarget.{is_compatible_with_node}
use iot_lab_gateway.ControlNode.{ControlNode}
use iot_lab_gateway.OpenNode.{OpenNode}

-- The two nodes of `_nodes`; any other name fails an assertion.
pub data Target : Type 0 where
  control open_node other : Target

-- `open_start(power)` or `open_stop(power)` of a class that may lack it.
abbrev pub switched : {C : Type 0} → Option (Json → Action C ℤ) → Json → Action C ℤ
switched none power = raise attribute_error
switched (some m) power = m power

-- `flash(firmware_path, binary, offset)` of a class that may lack it.
abbrev pub flashed :
    {O : Type 0}
    → Option (Option String → Bool → ℤ → Action O ℤ)
    → Option String
    → Bool
    → ℤ
    → Action O ℤ
flashed none firmware binary offset = raise attribute_error
flashed (some m) firmware binary offset = m firmware binary offset

-- The end of `with_profile`: the ValueError of a bad dictionary returns 1.
abbrev pub accept :
    {S : Type 0} → Checked (Option Profile) → (Option Profile → Action S ℤ) → Action S ℤ
accept (valid profile) next = next profile
accept (failed value_error) next = pure (pos 1)
accept (failed e) next = raise e

module _ {C O : Type 0} (world : World) (board : Board) (cn : ControlNode C)
    (node : OpenNode O) where
  abbrev on_control : {A : Type 0} → Action C A → Action (Manager C O) A
  on_control m = on control_part m

  abbrev on_open : {A : Type 0} → Action O A → Action (Manager C O) A
  on_open m = on open_part m

  abbrev open_start_default : Action (Manager C O) ℤ
  open_start_default = on_control (switched cn.open_start null)

  abbrev open_stop_default : Action (Manager C O) ℤ
  open_stop_default = on_control (switched cn.open_stop null)

  -- One of the two power cycles of a Pycom board.
  unfoldable pub pycom_cycle : Action (Manager C O) ℤ
  pycom_cycle = total (
      open_stop_default
      ∷ wait_no_tty world node.tty 10
      ∷ open_start_default
      ∷ wait_tty world node.tty 10
      ∷ [])

  -- The TTY of a Pycom board must be there before it is torn down.
  unfoldable pub pycom_visible : Action (Manager C O) (Unit {0})
  pycom_visible =
      if same node.type_name "pycom" then wait_tty world node.tty 10 >> pure tt else pure tt

  -- `exp_stop` of a running experiment, from the call of `stop_experiment` on.
  unfoldable pub exp_stop_nodes : Action (Manager C O) ℤ
  unfolding cleanup_user_exp_files pycom_visible
  exp_stop_nodes = do
    monitoring ← on_control cn.stop_experiment
    pycom_visible
    cleanup ← on_open node.teardown
    on_control cn.stop
    files ← gets (λ m. m.exp_files)
    cleanup_user_exp_files world files
    modify clear_experiment
    pure (monitoring +ℤ cleanup)

  -- `exp_stop` behind its lock.
  unfoldable pub exp_stop_body : Action (Manager C O) ℤ
  unfolding exp_stop_nodes
  exp_stop_body = do
    running ← gets (λ m. m.experiment_is_running)
    if not running
        then pure (pos 0)
        else modify (λ m. record m { timeout_timer = none }) >> exp_stop_nodes

  unfoldable pub exp_stop : ℕ → Action (Manager C O) ℤ
  unfolding exp_stop_body
  exp_stop me = synchronous me exp_stop_body

  -- Steps 1 of `exp_start`: the experiment is set up on the gateway.
  unfoldable pub prepare_gateway : String → ℕ → Action (Manager C O) (Unit {0})
  unfolding create_user_exp_files create_user_exp_folders
  prepare_gateway user exp_id = do
    modify (begin_experiment user exp_id)
    if is_turtlebot board.robot_type || same cn.type_name "no"
        then create_user_exp_folders world user exp_id
        else pure tt
    files ← create_user_exp_files world board.node_id user exp_id
    modify (λ m. record m { exp_files = files })
    opened ← perform world (open_log (log_path files))
    attempted opened
    modify (add_log_handler (log_path files))

  -- Steps 2 to 4: the codes that `exp_start` adds up.
  unfoldable pub start_nodes : ℕ → Option String → Option Profile → Action (Manager C O) ℤ
  unfolding pycom_cycle
  start_nodes exp_id firmware profile = total (
      (do files ← gets (λ m. m.exp_files); on_control (cn.start exp_id files))
      ∷ (if same node.type_name "pycom"
          then total (pycom_cycle ∷ pycom_cycle ∷ [])
          else pure (pos 0))
      ∷ on_open (node.setup firmware)
      ∷ on_control (cn.start_experiment profile)
      ∷ (if not (is_none firmware) && require_power_cycle node.type_name
          then total (open_stop_default ∷ open_start_default ∷ [])
          else pure (pos 0))
      ∷ [])

  -- `exp_start` from the point where profile and firmware are accepted.
  unfoldable pub launch : String → ℕ → Option String → Option Profile → ℕ → Action (Manager C O) ℤ
  unfolding prepare_gateway start_nodes
  launch user exp_id firmware profile timeout = do
    prepare_gateway user exp_id
    ret ← start_nodes exp_id firmware profile
    if timeout == 0
        then pure ret
        else modify (set_timer (record { timeout = timeout; exp_id = exp_id; user = user }))
          >> pure ret

  unfoldable pub exp_start_body : ℕ → String → ℕ → Option String → Json → ℕ → Action (Manager C O) ℤ
  unfolding launch exp_stop
  exp_start_body me user exp_id firmware profile_dict timeout = do
    running ← gets (λ m. m.experiment_is_running)
    if running then exp_stop me >> pure tt else pure tt
    accept (from_dict node.alim profile_dict) λ profile. do
      compatible ← is_compatible_with_node world firmware node.elf_target
      if not compatible then pure (pos 1) else launch user exp_id firmware profile timeout

  unfoldable pub exp_start : ℕ → String → ℕ → Option String → Json → ℕ → Action (Manager C O) ℤ
  unfolding exp_start_body
  exp_start me user exp_id firmware profile_dict timeout =
      synchronous me (exp_start_body me user exp_id firmware profile_dict timeout)

  -- `errno.EWOULDBLOCK`
  abbrev swallow_would_block : Exception → Action (Manager C O) (Unit {0})
  swallow_would_block (environment_error n) =
      if n == would_block then pure tt else raise (environment_error n)
  swallow_would_block (io_error n) = if n == would_block then pure tt else raise (io_error n)
  swallow_would_block (os_error n) = if n == would_block then pure tt else raise (os_error n)
  swallow_would_block e = raise e

  -- `_timeout_exp_stop`, run by the timer's thread.
  unfoldable pub timeout_exp_stop : ℕ → ℕ → String → Action (Manager C O) (Unit {0})
  unfolding exp_stop
  timeout_exp_stop me exp_id user = synchronous me (do
    m ← gets (λ m. m)
    if is_current exp_id user m
        then try_except (exp_stop me >> pure tt) swallow_would_block
        else pure tt)

  unfoldable pub exp_update_profile : ℕ → Json → Action (Manager C O) ℤ
  exp_update_profile me profile_dict = synchronous me (
      accept (from_dict node.alim profile_dict)
        λ profile. on_control (cn.configure_profile profile))

  unfoldable pub open_power_start : ℕ → Json → Action (Manager C O) ℤ
  open_power_start me power = synchronous me (on_control (switched cn.open_start power))

  unfoldable pub open_power_stop : ℕ → Json → Action (Manager C O) ℤ
  open_power_stop me power = synchronous me (on_control (switched cn.open_stop power))

  unfoldable pub open_debug_start : ℕ → Action (Manager C O) ℤ
  open_debug_start me = synchronous me (on_open (method node.debug_start))

  unfoldable pub open_debug_stop : ℕ → Action (Manager C O) ℤ
  open_debug_stop me = synchronous me (on_open (method node.debug_stop))

  unfoldable pub node_soft_reset : ℕ → Target → Action (Manager C O) ℤ
  node_soft_reset me control = synchronous me (on_control (method cn.reset))
  node_soft_reset me open_node = synchronous me (on_open (method node.reset))
  node_soft_reset me other = synchronous me (raise assertion_error)

  abbrev flash_target : Target → Option String → Bool → ℤ → Action (Manager C O) ℤ
  flash_target control firmware binary offset = on_control (cn.flash firmware binary offset)
  flash_target open_node firmware binary offset =
      on_open (flashed node.flash firmware binary offset)
  flash_target other firmware binary offset = raise assertion_error

  abbrev target_elf : Target → Option (String × String)
  target_elf control = cn.elf_target
  target_elf _ = node.elf_target

  unfoldable pub node_flash_body : Target → Option String → Bool → ℤ → Action (Manager C O) ℤ
  node_flash_body other firmware binary offset = raise assertion_error
  node_flash_body target firmware binary offset = do
    compatible ←
        if binary then pure true else is_compatible_with_node world firmware (target_elf target)
    if compatible then flash_target target firmware binary offset else pure (pos 1)

  unfoldable pub node_flash : ℕ → Target → Option String → Bool → ℤ → Action (Manager C O) ℤ
  unfolding node_flash_body
  node_flash me target firmware binary offset =
      synchronous me (node_flash_body target firmware binary offset)

  unfoldable pub status : ℕ → Action (Manager C O) ℤ
  status me = synchronous me (total (on_control cn.status ∷ on_open node.status ∷ []))

  unfoldable pub sleep_for : ℕ → ℕ → Action (Manager C O) ℤ
  sleep_for me seconds = synchronous me (perform world (sleep seconds) >> pure (pos 0))

  -- `setup`: the control node gets its default firmware.
  unfoldable pub setup : ℕ → Action (Manager C O) ℤ
  unfolding node_flash
  setup me = do
    ret ← node_flash me control none false (pos 0)
    if ret ==ℤ pos 0 then pure ret else raise runtime_error
