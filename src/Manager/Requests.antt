-- ===== src/Manager/Requests.antt =====
-- The requests to the manager as data, and threads that make them one after the other.
use iot_lab_gateway.Prelude.{ℕ, String, Bool, true, false, Option, List, [], ◌∷◌}
use iot_lab_gateway.Prelude.Int.{ℤ, pos}
use iot_lab_gateway.Json.{Json}
use iot_lab_gateway.Effects.{World, State, Result, Action, pure, ◌>>=◌, ◌>>◌}
use iot_lab_gateway.ControlNode.{ControlNode}
use iot_lab_gateway.OpenNode.{OpenNode}
use iot_lab_gateway.Manager.{
  Manager, Board, Target, exp_start, exp_stop, timeout_exp_stop, exp_update_profile,
  open_power_start, open_power_stop, open_debug_start, open_debug_stop, node_soft_reset, node_flash,
  status, sleep_for,
}
use iot_lab_gateway.Manager.Autotests.{Tests, auto_tests, code_of}

-- The calls of the manager's synchronized methods, and the run of a timer.
pub data Request : Type 0 where
  start : String → ℕ → Option String → Json → ℕ → Request
  stop : Request
  timer_fires : ℕ → String → Request
  update_profile power_start power_stop : Json → Request
  debug_start debug_stop : Request
  soft_reset : Target → Request
  flash : Target → Option String → Bool → ℤ → Request
  auto_test : (channel : Option ℕ) (blink with_flash gps : Bool) → Request
  ask_status : Request
  sleep_seconds : ℕ → Request

-- The request neither starts nor stops an experiment, and is no timer.
abbrev pub is_quiet : Request → Bool
is_quiet (start user exp_id firmware profile timeout) = false
is_quiet stop = false
is_quiet (timer_fires exp_id user) = false
is_quiet _ = true

module _ {C O F : Type 0} (world : World) (board : Board) (cn : ControlNode C) (node : OpenNode O)
    (tests : Tests C O F) where
  unfoldable pub handle : ℕ → Request → Action (Manager C O) ℤ
  handle me (start user exp_id firmware profile timeout) =
      exp_start world board cn node me user exp_id firmware profile timeout
  handle me stop = exp_stop world board cn node me
  handle me (timer_fires exp_id user) =
      timeout_exp_stop world board cn node me exp_id user >> pure (pos 0)
  handle me (update_profile profile) = exp_update_profile world board cn node me profile
  handle me (power_start power) = open_power_start world board cn node me power
  handle me (power_stop power) = open_power_stop world board cn node me power
  handle me debug_start = open_debug_start world board cn node me
  handle me debug_stop = open_debug_stop world board cn node me
  handle me (soft_reset target) = node_soft_reset world board cn node me target
  handle me (flash target firmware binary offset) =
      node_flash world board cn node me target firmware binary offset
  handle me (auto_test channel blink with_flash gps) = do
    report ← auto_tests world tests me channel blink with_flash gps
    pure (code_of report)
  handle me ask_status = status world board cn node me
  handle me (sleep_seconds seconds) = sleep_for world board cn node me seconds

  -- Each request by its thread, with what each returns or raises, which does not keep the next from
  -- being made.
  unfoldable pub serve :
      List (ℕ × Request) → State (Manager C O) → List (Result ℤ) × State (Manager C O)
  unfolding handle
  serve [] s = ([], s)
  serve ((me, request) ∷ rest) s =
      let (r, t) = handle me request s in let (rs, u) = serve rest t in (r ∷ rs, u)
