-- ===== src/Manager/Serving.antt =====
-- What every sequence of requests keeps, a request while another thread runs one, and the timer of
-- an experiment that is no longer there.
use iot_lab_gateway.Prelude.{
  Option, some, ◌⊎◌, inl, inr, ◌==◌, ◌&&◌, same, arith, eq_iff, Bool-cases, ==_iff, ℕ, String, ◌≡◌,
  ◌≢◌, refl, ap, none, some, List, [], ◌∷◌, false,
}
use iot_lab_gateway.Prelude.Int.{pos}
use iot_lab_gateway.Effects.{World, State, Result, returned, raised, environment_error}
use iot_lab_gateway.Effects.Triples.{Post, Triple-post}
use iot_lab_gateway.ControlNode.{ControlNode}
use iot_lab_gateway.OpenNode.{OpenNode}
use iot_lab_gateway.Manager.{
  Manager, Board, Held, control, open_node, other, would_block, is_current, synchronous,
  timeout_exp_stop, exp_start, exp_stop, exp_update_profile, open_power_start, open_power_stop,
  open_debug_start, open_debug_stop, node_soft_reset, node_flash, status, sleep_for,
}
use iot_lab_gateway.Manager.Requests.{
  Request, start, stop, timer_fires, update_profile, power_start, power_stop, debug_start,
  debug_stop, soft_reset, flash, auto_test, ask_status, sleep_seconds, handle, serve,
}
use iot_lab_gateway.Manager.Locking.{
  Keeps-synchronous, Triple-synchronous, synchronous-blocked, depth, Locked,
}
use iot_lab_gateway.Manager.Experiments.{exp_stop-Triple}
use iot_lab_gateway.Manager.Starting.{exp_start-Triple}
use iot_lab_gateway.Manager.Consistency.{Started-IsConsistent, IsConsistent}
use iot_lab_gateway.Manager.Autotests.{Tests, auto_tests, code_of}
use iot_lab_gateway.Manager.Balance.{exp_stop-Locked, exp_start-Locked}
use iot_lab_gateway.Manager.Sessions.{IsKept, Keeps-handle}

differs :
    (number : Option ℕ) (name : Option String) (exp_id : ℕ) (user : String)
    → (number ≢ some exp_id) ⊎ (name ≢ some user)
    → elim number [
      | none ↦ false
      | some n ↦ elim name [ none ↦ false | some u ↦ n == exp_id && same u user ]
    ]
      ≡ false
differs none name exp_id user d = refl
differs (some n) none exp_id user d = refl
differs (some n) (some u) exp_id user (inl d) = elim (Bool-cases (n == exp_id)) [
  | inl h ↦ absurd (d (ap (λ k. some k) ((==_iff n exp_id).0 h)))
  | inr h ↦ rw h refl
]
differs (some n) (some u) exp_id user (inr d) = elim (Bool-cases (same u user)) [
  | inl h ↦ absurd (d (ap (λ k. some k) ((eq_iff u user).0 h)))
  | inr h ↦ ground (arith, h)
]

not_current :
    {C O : Type 0} (exp_id : ℕ) (user : String) (m : Manager C O)
    → (m.exp_id ≢ some exp_id) ⊎ (m.user ≢ some user)
    → is_current exp_id user m ≡ false
not_current exp_id user m d = differs m.exp_id m.user exp_id user d

kept :
    {O A : Type 0} (P : O → Type 0) (r : Result A) (t : State O) → Post (λ _. P) P (r, t) → P t.self
kept P (returned a) t p = p
kept P (raised e) t p = p

module _ {C O F : Type 0} (world : World) (board : Board) (cn : ControlNode C) (node : OpenNode O)
    (tests : Tests C O F) where
  IsConsistent-IsKept : (me : ℕ) → IsKept world board cn node me (λ _. IsConsistent)
  IsConsistent-IsKept me = record {
    untouched = record {
      at_control = λ n c m p. p;
      at_open = λ n o m p. p;
      at_synchronous = λ n func k.
          Triple-synchronous me func (record { relock = λ h m p. p })
            (λ a. record { relock = λ h m p. p }) (record { relock = λ h m p. p }) (λ m p. p) k;
    };
    at_stop = λ n. Triple-post (exp_stop-Triple world board cn node me) (λ a m p. p.0) (λ m p. p);
    at_start = λ n user exp_id firmware profile timeout.
        Triple-post (exp_start-Triple world board cn node me user exp_id firmware profile timeout)
          (λ a m p. Started-IsConsistent user exp_id timeout a m p) (λ m p. p);
  }

  Locked-IsKept : (me : ℕ) → IsKept world board cn node me (λ n. Locked (depth me n))
  Locked-IsKept me = record {
    untouched = record {
      at_control = λ n c m p. p;
      at_open = λ n o m p. p;
      at_synchronous = λ n func k. Keeps-synchronous me n func k;
    };
    at_stop = λ n. exp_stop-Locked world board cn node me n;
    at_start = λ n. exp_start-Locked world board cn node me n;
  }

  -- From a consistent manager whose lock is free, every sequence of requests by any threads, each
  -- run to its end, ends in a consistent manager whose lock is free, also where requests raise.
  pub serve-IsConsistent :
      (requests : List (ℕ × Request)) (s : State (Manager C O))
      → IsConsistent s.self
      → s.self.rlock ≡ none
      → IsConsistent (serve world board cn node tests requests s).1.self
        × ((serve world board cn node tests requests s).1.self.rlock ≡ none)
  unfolding serve
  serve-IsConsistent [] s p e = (p, e)
  serve-IsConsistent ((me, request) ∷ rest) s p e =
      let m = handle world board cn node tests me request in
      serve-IsConsistent rest (m s).1
        (kept IsConsistent (m s).0 (m s).1
          ((Keeps-handle world board cn node (IsConsistent-IsKept me) tests 0 request).at s p))
        (kept (Locked none) (m s).0 (m s).1
          ((Keeps-handle world board cn node (Locked-IsKept me) tests 0 request).at s e))

  -- While another thread holds the lock, every request raises EnvironmentError(EWOULDBLOCK) at
  -- once and changes nothing: no call is made.
  pub handle-blocked :
      (me : ℕ) (request : Request) (h : Held) (s : State (Manager C O))
      → s.self.rlock ≡ some h
      → h.owner ≢ me
      → handle world board cn node tests me request s ≡ (raised (environment_error would_block), s)
  unfolding handle auto_tests timeout_exp_stop exp_start exp_stop exp_update_profile
      open_power_start open_power_stop open_debug_start open_debug_stop node_soft_reset node_flash
      status sleep_for
  handle-blocked me (start user exp_id firmware profile timeout) h s e d =
      synchronous-blocked me _ h s e d
  handle-blocked me stop h s e d = synchronous-blocked me _ h s e d
  handle-blocked me (timer_fires exp_id user) h s e d =
      ap (λ x. elim x.0 [ returned a ↦ (returned (pos 0), x.1) | raised b ↦ (raised b, x.1) ])
        (synchronous-blocked me _ h s e d)
  handle-blocked me (update_profile profile) h s e d = synchronous-blocked me _ h s e d
  handle-blocked me (power_start power) h s e d = synchronous-blocked me _ h s e d
  handle-blocked me (power_stop power) h s e d = synchronous-blocked me _ h s e d
  handle-blocked me debug_start h s e d = synchronous-blocked me _ h s e d
  handle-blocked me debug_stop h s e d = synchronous-blocked me _ h s e d
  handle-blocked me (soft_reset control) h s e d = synchronous-blocked me _ h s e d
  handle-blocked me (soft_reset open_node) h s e d = synchronous-blocked me _ h s e d
  handle-blocked me (soft_reset other) h s e d = synchronous-blocked me _ h s e d
  handle-blocked me (flash target firmware binary offset) h s e d = synchronous-blocked me _ h s e d
  handle-blocked me (auto_test channel blink with_flash gps) h s e d =
      ap (λ x. elim x.0 [ returned a ↦ (returned (code_of a), x.1) | raised b ↦ (raised b, x.1) ])
        (synchronous-blocked me _ h s e d)
  handle-blocked me ask_status h s e d = synchronous-blocked me _ h s e d
  handle-blocked me (sleep_seconds seconds) h s e d = synchronous-blocked me _ h s e d

  -- With the lock free, the timer of an experiment does nothing where the manager's number is not
  -- that of the experiment, or the manager's user is not the one who started it.
  pub timeout_exp_stop-stale :
      (me exp_id : ℕ) (user : String) (s : State (Manager C O))
      → s.self.rlock ≡ none
      → (s.self.exp_id ≢ some exp_id) ⊎ (s.self.user ≢ some user)
      → timeout_exp_stop world board cn node me exp_id user s ≡ (returned tt, s)
  unfolding timeout_exp_stop synchronous
  timeout_exp_stop-stale me exp_id user s e d = rw (e, not_current exp_id user s.self d) refl
