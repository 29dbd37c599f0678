-- ===== src/Manager/Consistency.antt =====
-- What holds of the manager's attributes between two requests, on every path, exceptions included.
use iot_lab_gateway.Prelude.{
  ◌⊎◌, inl, inr, ◌==◌, if◌then◌else◌, ℕ, String, ◌≡◌, ◌≢◌, refl, true, false, Option, none, some,
  List, [], ◌∷◌, arith, eq_iff,
}
use iot_lab_gateway.Prelude.Int.{ℤ, pos}
use iot_lab_gateway.ControlNode.{Files}
use iot_lab_gateway.Manager.State.{
  Manager, Timer, remove_handler, begin_experiment, add_log_handler, set_timer, clear_experiment,
}

abbrev pub listed : Option String → List String
listed none = []
listed (some h) = h ∷ []

handler_cleared : (h : Option String) (hs : List String) → hs ≡ listed h → remove_handler h hs ≡ []
handler_cleared none hs e = e
handler_cleared (some h) hs e = rw e (ground (arith, eq_iff h h))

module _ {C O : Type 0} where
  -- Without an experiment nothing of one is left.
  abbrev pub LeavesNothing : Manager C O → Type 0
  LeavesNothing m =
      m.experiment_is_running ≡ false
      → (m.exp_id ≡ none)
        × (m.user ≡ none)
        × (m.exp_files ≡ [])
        × (m.user_log_handler ≡ none)
        × (m.timeout_timer ≡ none)

  -- A timer is that of the experiment.
  abbrev pub TimerFits : Manager C O → Type 0
  TimerFits m =
      (t : Timer) → m.timeout_timer ≡ some t → (m.exp_id ≡ some t.exp_id) × (m.user ≡ some t.user)

  -- Also: an experiment has a number and a user, and LOGGER holds its log handler and no other.
  abbrev pub IsConsistent : Manager C O → Type 0
  IsConsistent m =
      LeavesNothing m
      × (m.experiment_is_running ≡ true → (m.exp_id ≢ none) × (m.user ≢ none))
      × (m.log_handlers ≡ listed m.user_log_handler)
      × TimerFits m

  abbrev pub IsIdle : Manager C O → Type 0
  IsIdle m = IsConsistent m × (m.experiment_is_running ≡ false)

  -- An experiment that has begun: no timer and no log file yet.
  abbrev pub IsBegun : String → ℕ → Manager C O → Type 0
  IsBegun name number m =
      IsConsistent m
      × (m.experiment_is_running ≡ true)
      × (m.exp_id ≡ some number)
      × (m.user ≡ some name)
      × (m.timeout_timer ≡ none)
      × (m.user_log_handler ≡ none)

  -- An experiment whose log is there; its timer is as given.
  abbrev pub Runs : String → ℕ → Option Timer → Manager C O → Type 0
  Runs name number timer m =
      IsConsistent m
      × (m.experiment_is_running ≡ true)
      × (m.exp_id ≡ some number)
      × (m.user ≡ some name)
      × (m.timeout_timer ≡ timer)
      × (m.user_log_handler ≢ none)

  pub clear_experiment-IsIdle :
      (m : Manager C O) → IsConsistent m → m.timeout_timer ≡ none → IsIdle (clear_experiment m)
  clear_experiment-IsIdle m (nothing, named, handlers, timer) e = (
    (
      λ _. (refl, refl, refl, refl, e),
      λ r. cc r,
      handler_cleared m.user_log_handler m.log_handlers handlers,
      λ t h. cc (e, h),
    ),
    refl,
  )

  pub begin_experiment-IsBegun :
      (name : String) (number : ℕ) (m : Manager C O)
      → IsIdle m
      → IsBegun name number (begin_experiment name number m)
  begin_experiment-IsBegun name number m ((nothing, named, handlers, timer), off) = (
    (λ r. cc r, λ _. (λ e. cc e, λ e. cc e), handlers, λ t h. cc (h, (nothing off).4)),
    refl,
    refl,
    refl,
    (nothing off).4,
    (nothing off).3,
  )

  pub set_exp_files-IsBegun :
      (files : Files) (name : String) (number : ℕ) (m : Manager C O)
      → IsBegun name number m
      → IsBegun name number (record m { exp_files = files })
  set_exp_files-IsBegun files name number m
        ((nothing, named, handlers, timer), runs, id, who, no_timer, no_log) =
      ((λ off. cc (off, runs), named, handlers, timer), runs, id, who, no_timer, no_log)

  pub add_log_handler-Runs :
      (path name : String) (number : ℕ) (m : Manager C O)
      → IsBegun name number m
      → Runs name number none (add_log_handler path m)
  add_log_handler-Runs path name number m
        ((nothing, named, handlers, timer), runs, id, who, no_timer, no_log) =
      (
        (λ r. cc (r, runs), named, rw (handlers, no_log) refl, timer),
        runs,
        id,
        who,
        no_timer,
        λ e. cc e,
      )

  pub set_timer-Runs :
      (t : Timer) (name : String) (number : ℕ) (m : Manager C O)
      → t.exp_id ≡ number
      → t.user ≡ name
      → Runs name number none m
      → Runs name number (some t) (set_timer t m)
  set_timer-Runs t name number m e1 e2
        ((nothing, named, handlers, timer), runs, id, who, no_timer, log) =
      ((λ r. cc (r, runs), named, handlers, λ u h. ground arith), runs, id, who, refl, log)

-- The timer that `exp_start` sets: none for a timeout of 0.
abbrev pub timer_for : String → ℕ → ℕ → Option Timer
timer_for user exp_id timeout =
    if timeout == 0 then none else some (record { timeout = timeout; exp_id = exp_id; user = user })

-- What `exp_start` returns and leaves: a refused profile or firmware, with the gateway idle, or
-- the experiment that was asked for, with its timer.
abbrev pub Started : {C O : Type 0} → String → ℕ → ℕ → ℤ → Manager C O → Type 0
Started user exp_id timeout code m =
    (IsIdle m × (code ≡ pos 1)) ⊎ Runs user exp_id (timer_for user exp_id timeout) m

pub Started-IsConsistent :
    {C O : Type 0} (user : String) (exp_id timeout : ℕ) (code : ℤ) (m : Manager C O)
    → Started user exp_id timeout code m
    → IsConsistent m
Started-IsConsistent user exp_id timeout code m (inl p) = p.0.0
Started-IsConsistent user exp_id timeout code m (inr p) = p.0
