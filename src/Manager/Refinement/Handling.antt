-- ===== src/Manager/Refinement/Handling.antt =====
-- The timer and all other requests as moves of the session, and sequences of requests.
use iot_lab_gateway.Prelude.{ℕ, String, ◌≡◌, refl, true, List, [], ◌∷◌, ◌==◌, if◌then◌else◌}
use iot_lab_gateway.Prelude.Int.{ℤ, pos}
use iot_lab_gateway.Effects.{
  State, World, Result, returned, raised, Exception, Action, gets, pure, ◌>>=◌, try_except,
  environment_error, io_error, os_error,
}
use iot_lab_gateway.Effects.Triples.{
  Post, Triple, Triple-bind, Triple-pure, Triple-raise, Triple-gets, Triple-if, Triple-post,
  Triple-try,
}
use iot_lab_gateway.ControlNode.{ControlNode}
use iot_lab_gateway.OpenNode.{OpenNode}
use iot_lab_gateway.Manager.{
  Manager, Board, exp_stop, timeout_exp_stop, is_current, swallow_would_block, would_block,
}
use iot_lab_gateway.Manager.Requests.{
  Request, start, stop, timer_fires, update_profile, power_start, power_stop, debug_start,
  debug_stop, soft_reset, flash, auto_test, ask_status, sleep_seconds, handle, serve, is_quiet,
}
use iot_lab_gateway.Manager.Locking.{Triple-synchronous}
use iot_lab_gateway.Manager.Autotests.{Tests}
use iot_lab_gateway.Manager.Sessions.{Keeps-quiet}
use iot_lab_gateway.Manager.Moves.{
  Session, session, Moves, Follows, stopped, too_late, quiet, at_end, next, is_current-expired,
}
use iot_lab_gateway.Manager.Refinement.{
  Shows, Moved, MovedOff, shown, Shows-IsUntouched, exp_stop-Shows, exp_start-Moved,
}

module _ {C O F : Type 0} (world : World) (board : Board) (cn : ControlNode C) (node : OpenNode O)
    (tests : Tests C O F) where
  swallowed :
      (exp_id : ℕ) (user : String) (x : Session) (e : Exception)
      → Triple
          (Shows x)
          (swallow_would_block world board cn node e)
          (λ _. Moved (timer_fires exp_id user) x (pos 0))
          (MovedOff (timer_fires exp_id user) x)
  swallowed exp_id user x (environment_error n) =
      Triple-if (n == would_block) (λ _. Triple-pure tt (λ m p. rw p too_late))
        (λ _. Triple-raise _ shown)
  swallowed exp_id user x (io_error n) =
      Triple-if (n == would_block) (λ _. Triple-pure tt (λ m p. rw p too_late))
        (λ _. Triple-raise _ shown)
  swallowed exp_id user x (os_error n) =
      Triple-if (n == would_block) (λ _. Triple-pure tt (λ m p. rw p too_late))
        (λ _. Triple-raise _ shown)
  swallowed exp_id user x e = Triple-raise e shown

  -- The body of the timer's method, where `m` is the manager that it read.
  abbrev expire : ℕ → ℕ → String → Manager C O → Action (Manager C O) (Unit {0})
  expire me exp_id user m =
      if is_current exp_id user m
      then try_except (exp_stop world board cn node me >>= (λ _. pure tt))
          (swallow_would_block world board cn node)
      else pure tt

  expire-Moved :
      (me exp_id : ℕ) (user : String) (x : Session) (m : Manager C O)
      → session m ≡ x
      → Triple
          (Shows x)
          (expire me exp_id user m)
          (λ _. Moved (timer_fires exp_id user) x (pos 0))
          (MovedOff (timer_fires exp_id user) x)
  expire-Moved me exp_id user x m same_session =
      Triple-if (is_current exp_id user m)
        (λ current.
          Triple-try (exp_stop world board cn node me >>= (λ _. pure tt)) _
            (Triple-bind (exp_stop world board cn node me) _
              (exp_stop-Shows world board cn node me x)
              λ _.
                Triple-pure tt (λ m' p.
                  rw (p, ← same_session) (is_current-expired m exp_id user (pos 0) current)))
            (swallowed exp_id user x))
        (λ _. Triple-pure tt (λ m' p. rw p too_late))

  timeout_exp_stop-Moved :
      (me exp_id : ℕ) (user : String) (x : Session)
      → Triple
          (Shows x)
          (timeout_exp_stop world board cn node me exp_id user)
          (λ _. Moved (timer_fires exp_id user) x (pos 0))
          (MovedOff (timer_fires exp_id user) x)
  unfolding timeout_exp_stop
  timeout_exp_stop-Moved me exp_id user x =
      Triple-synchronous me _ (record { relock = λ h m p. p }) (λ a. record { relock = λ h m p. p })
        (record { relock = λ h m p. p }) shown
        (Triple-bind (gets (λ m. m)) (expire me exp_id user)
          (Triple-gets {Q = λ m m'. Shows x m' × (session m ≡ x)} _ (λ m p. (p, p)))
          λ m. record { at = λ s p. (expire-Moved me exp_id user x m p.1).at s p.0 })

  quiet-Moved :
      (me : ℕ) (request : Request) (x : Session)
      → is_quiet request ≡ true
      → Triple
          (Shows x)
          (handle world board cn node tests me request)
          (Moved request x)
          (MovedOff request x)
  quiet-Moved me request x e =
      Triple-post
        (Keeps-quiet world board cn node (Shows-IsUntouched world board cn node me x) tests 0
          request e)
        (λ a m p. rw p (quiet e)) shown

  handle-Moved :
      (me : ℕ) (request : Request) (x : Session)
      → Triple
          (Shows x)
          (handle world board cn node tests me request)
          (Moved request x)
          (MovedOff request x)
  unfolding handle
  handle-Moved me (start user exp_id firmware profile timeout) x =
      exp_start-Moved world board cn node user exp_id firmware profile timeout x me
  handle-Moved me stop x =
      Triple-post (exp_stop-Shows world board cn node me x) (λ a m p. rw p stopped) shown
  handle-Moved me (timer_fires exp_id user) x =
      Triple-bind (timeout_exp_stop world board cn node me exp_id user) _
        (timeout_exp_stop-Moved me exp_id user x) λ _. Triple-pure (pos 0) (λ m p. p)
  handle-Moved me (update_profile profile) x = quiet-Moved me (update_profile profile) x refl
  handle-Moved me (power_start power) x = quiet-Moved me (power_start power) x refl
  handle-Moved me (power_stop power) x = quiet-Moved me (power_stop power) x refl
  handle-Moved me debug_start x = quiet-Moved me debug_start x refl
  handle-Moved me debug_stop x = quiet-Moved me debug_stop x refl
  handle-Moved me (soft_reset target) x = quiet-Moved me (soft_reset target) x refl
  handle-Moved me (flash target firmware binary offset) x =
      quiet-Moved me (flash target firmware binary offset) x refl
  handle-Moved me (auto_test channel blink with_flash gps) x =
      quiet-Moved me (auto_test channel blink with_flash gps) x refl
  handle-Moved me ask_status x = quiet-Moved me ask_status x refl
  handle-Moved me (sleep_seconds seconds) x = quiet-Moved me (sleep_seconds seconds) x refl

  moved :
      (request : Request) (x : Session) (r : Result ℤ) (t : State (Manager C O))
      → Post (Moved request x) (MovedOff request x) (r, t)
      → Moves request r x (session t.self)
  moved request x (returned code) t p = p
  moved request x (raised e) t p = p e

  -- From every state, a request by any thread moves the session, which is the number and the user of
  -- a running experiment, as the abstract machine does for what the request returned or raised: a
  -- start that returns leaves that experiment, or none with code 1; a stop that returns leaves none; a
  -- timer ends its own experiment only; no other request changes the session.
  pub handle-Moves :
      (me : ℕ) (request : Request) (s : State (Manager C O))
      → Moves request
          (handle world board cn node tests me request s).0
          (session s.self)
          (session (handle world board cn node tests me request s).1.self)
  handle-Moves me request s =
      let m = handle world board cn node tests me request s in
      moved request (session s.self) m.0 m.1 ((handle-Moved me request (session s.self)).at s refl)

  -- From every state, a sequence of requests by any threads, each run to its end, moves the session
  -- as the abstract machine does for the requests in order and for what each of them returned or
  -- raised.
  pub serve-Follows :
      (requests : List (ℕ × Request)) (s : State (Manager C O))
      → Follows requests
          (serve world board cn node tests requests s).0
          (session s.self)
          (session (serve world board cn node tests requests s).1.self)
  unfolding serve
  serve-Follows [] s = at_end
  serve-Follows ((me, request) ∷ rest) s =
      next (handle-Moves me request s)
        (serve-Follows rest (handle world board cn node tests me request s).1)
