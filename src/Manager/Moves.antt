-- ===== src/Manager/Moves.antt =====
-- The experiment that a user of the gateway sees: an abstract machine that starts and stops it,
-- without nodes, files, timers and locks.
use iot_lab_gateway.Prelude.{
  ℕ, String, Bool, true, false, ◌≡◌, Option, none, some, List, [], ◌∷◌, ◌&&◌, ◌==◌, same, arith,
  eq_iff,
}
use iot_lab_gateway.Prelude.Int.{ℤ, pos}
use iot_lab_gateway.Json.{Json}
use iot_lab_gateway.Effects.{Result, returned, raised, Exception}
use iot_lab_gateway.Manager.{Manager, is_current}
use iot_lab_gateway.Manager.Requests.{Request, start, stop, timer_fires, is_quiet}

-- No experiment, or its number and its user.
abbrev pub Session : Type 0
Session = Option (ℕ × String)

abbrev session_of : Bool → Option ℕ → Option String → Session
session_of false exp_id user = none
session_of true none user = none
session_of true (some exp_id) none = none
session_of true (some exp_id) (some user) = some (exp_id, user)

abbrev pub session : {C O : Type 0} → Manager C O → Session
session m = session_of m.experiment_is_running m.exp_id m.user

-- The moves of the session at a request, by what it returned or raised.
pub data Moves : Request → Result ℤ → Session → Session → Type 0 where
  started :
      {user : String} {exp_id : ℕ} {firmware : Option String} {profile : Json} {timeout : ℕ}
      {code : ℤ} {x : Session}
      → Moves (start user exp_id firmware profile timeout) (returned code) x (some (exp_id, user))
  refused :
      {user : String} {exp_id : ℕ} {firmware : Option String} {profile : Json} {timeout : ℕ}
      {x : Session}
      → Moves (start user exp_id firmware profile timeout) (returned (pos 1)) x none
  broken_off :
      {user : String} {exp_id : ℕ} {firmware : Option String} {profile : Json} {timeout : ℕ}
      {e : Exception} {x : Session}
      → Moves (start user exp_id firmware profile timeout) (raised e) x none
  half_started :
      {user : String} {exp_id : ℕ} {firmware : Option String} {profile : Json} {timeout : ℕ}
      {e : Exception} {x : Session}
      → Moves (start user exp_id firmware profile timeout) (raised e) x (some (exp_id, user))
  stopped : {code : ℤ} {x : Session} → Moves stop (returned code) x none
  expired :
      {user : String} {exp_id : ℕ} {code : ℤ}
      → Moves (timer_fires exp_id user) (returned code) (some (exp_id, user)) none
  too_late :
      {user : String} {exp_id : ℕ} {code : ℤ} {x : Session}
      → Moves (timer_fires exp_id user) (returned code) x x
  quiet :
      {request : Request} {code : ℤ} {x : Session}
      → is_quiet request ≡ true
      → Moves request (returned code) x x
  undone : {request : Request} {e : Exception} {x : Session} → Moves request (raised e) x x

-- The session behind a sequence of requests, by what each of them returned or raised.
pub data Follows : List (ℕ × Request) → List (Result ℤ) → Session → Session → Type 0 where
  at_end : {x : Session} → Follows [] [] x x
  next :
      {me : ℕ} {request : Request} {rest : List (ℕ × Request)} {r : Result ℤ} {rs : List (Result ℤ)}
      {x y z : Session}
      → Moves request r x y
      → Follows rest rs y z
      → Follows ((me, request) ∷ rest) (r ∷ rs) x z

expiry :
    (running : Bool) (number : Option ℕ) (name : Option String) (exp_id : ℕ) (user : String)
    (code : ℤ)
    → elim number [
      | none ↦ false
      | some n ↦ elim name [ none ↦ false | some u ↦ n == exp_id && same u user ]
    ]
      ≡ true
    → Moves (timer_fires exp_id user) (returned code) (session_of running number name) none
expiry running none name exp_id user code e = cc e
expiry running (some n) none exp_id user code e = cc e
expiry false (some n) (some u) exp_id user code e = too_late
expiry true (some n) (some u) exp_id user code e =
    let h : (n ≡ exp_id) × (u ≡ user) = ground (arith, eq_iff u user) in rw (h.0, h.1) expired

-- The current experiment ends when its timer stops it.
pub is_current-expired :
    {C O : Type 0} (m : Manager C O) (exp_id : ℕ) (user : String) (code : ℤ)
    → is_current exp_id user m ≡ true
    → Moves (timer_fires exp_id user) (returned code) (session m) none
is_current-expired m exp_id user code e =
    expiry m.experiment_is_running m.exp_id m.user exp_id user code e
