-- ===== src/Manager/State.antt =====
-- The manager's attributes, the lock, and the assignments that several methods share.
use Prim.Native.Char.{code}
use iot_lab_gateway.Prelude.{
  ℕ, zero, suc, String, Bool, true, false, ◌&&◌, ◌||◌, Option, none, some, List, [], ◌∷◌, ◌++◌,
  same, ◌==◌, if◌then◌else◌,
}
use iot_lab_gateway.Text.{is_digit, drop_prefix}
use iot_lab_gateway.Effects.{
  Action, Part, raise, gets, modify, try_finally, ◌>>=◌, ◌>>◌, environment_error,
}
use iot_lab_gateway.ControlNode.{Files}

-- The holder of an RLock and how often it was acquired.
pub record Held : Type 0 where
  pub owner : ℕ
  pub count : ℕ

-- A started `Timer(timeout, self._timeout_exp_stop, args=(exp_id, user))`.
pub record Timer : Type 0 where
  pub timeout : ℕ
  pub exp_id : ℕ
  pub user : String

-- What the manager reads of `BoardConfig`.
pub record Board : Type 0 where
  pub robot_type : Option String
  pub node_id : String

-- `GatewayManager`. `log_handlers` are the user handlers that LOGGER holds.
pub record Manager (C O : Type 0) : Type 0 where
  pub rlock : Option Held
  pub control : C
  pub open_node : O
  pub exp_id : Option ℕ
  pub user : Option String
  pub exp_files : Files
  pub experiment_is_running : Bool
  pub user_log_handler : Option String
  pub timeout_timer : Option Timer
  pub log_handlers : List String

-- `errno.EWOULDBLOCK`
abbrev pub would_block : ℕ
would_block = 11

-- `tlock.acquire(blocking=False)`; none if another thread holds the lock.
abbrev pub acquire : ℕ → Option Held → Option Held
acquire me none = some (record { owner = me; count = 1 })
acquire me (some h) = if h.owner == me then some (record h { count = suc h.count }) else none

-- `tlock.release()`
abbrev pub release_held : ℕ → ℕ → Option Held
release_held owner zero = none
release_held owner (suc zero) = none
release_held owner (suc (suc n)) = some (record { owner = owner; count = suc n })

abbrev pub release : Option Held → Option Held
release none = none
release (some h) = release_held h.owner h.count

-- `LOGGER.removeHandler(handler)`
abbrev pub remove_handler : Option String → List String → List String
remove_handler none hs = hs
remove_handler (some h) [] = []
remove_handler (some h) (k ∷ ks) = if same h k then ks else k ∷ remove_handler (some h) ks

module _ {C O : Type 0} where
  abbrev pub control_part : Part (Manager C O) C
  control_part = record { get = λ m. m.control; put = λ c m. record m { control = c } }

  abbrev pub open_part : Part (Manager C O) O
  open_part = record { get = λ m. m.open_node; put = λ o m. record m { open_node = o } }

  -- The lock is taken, or another thread holds it.
  abbrev pub holding : {A : Type 0} → Option Held → Action (Manager C O) A → Action (Manager C O) A
  holding none func = raise (environment_error would_block)
  holding (some h) func =
      modify (λ m. record m { rlock = some h })
      >> try_finally func (λ m. record m { rlock = release m.rlock })

  -- common.py, `synchronous('rlock')`: a held lock is not waited for.
  unfoldable pub synchronous : {A : Type 0} → ℕ → Action (Manager C O) A → Action (Manager C O) A
  synchronous me func = gets (λ m. m.rlock) >>= λ held. holding (acquire me held) func

  -- `experiment_is_running = True; exp_id = exp_id; user = user`
  abbrev pub begin_experiment : String → ℕ → Manager C O → Manager C O
  begin_experiment name number m = record m {
    exp_id = some number;
    user = some name;
    experiment_is_running = true;
  }

  abbrev pub add_log_handler : String → Manager C O → Manager C O
  add_log_handler path m = record m {
    user_log_handler = some path;
    log_handlers = m.log_handlers ++ path ∷ [];
  }

  abbrev pub set_timer : Timer → Manager C O → Manager C O
  set_timer t m = record m { timeout_timer = some t }

  -- The assignments at the end of `exp_stop`.
  abbrev pub clear_experiment : Manager C O → Manager C O
  clear_experiment m = record m {
    exp_id = none;
    user = none;
    exp_files = [];
    experiment_is_running = false;
    user_log_handler = none;
    log_handlers = remove_handler m.user_log_handler m.log_handlers;
  }

  -- `(self.exp_id, self.user) == (exp_id, user)`
  abbrev pub is_current : ℕ → String → Manager C O → Bool
  is_current number name m = elim m.exp_id [
    | none ↦ false
    | some n ↦ elim m.user [ none ↦ false | some u ↦ n == number && same u name ]
  ]

abbrev pub is_turtlebot : Option String → Bool
is_turtlebot none = false
is_turtlebot (some robot) = same robot "turtlebot2"

abbrev pub log_path : Files → String
log_path [] = ""
log_path ((k, path) ∷ rest) = if same k "log" then path else log_path rest

-- `[0-9]{0,n}`
unfoldable pub drop_digits : ℕ → String → String
drop_digits zero s = s
drop_digits (suc n) String.[] = ""
drop_digits (suc n) (String.◌∷◌ c s) =
    let rest = drop_digits n s in if is_digit (code c) then rest else String.◌∷◌ c s

-- `re.match('^nrf52[0-9]{0,3}dk$', board)`; `$` also matches before a last newline.
unfoldable pub require_power_cycle : String → Bool
unfolding drop_prefix drop_digits
require_power_cycle board = elim (drop_prefix "nrf52" board) [
  | none ↦ false
  | some rest ↦ same (drop_digits 3 rest) "dk" || same (drop_digits 3 rest) "dk\n"
]
