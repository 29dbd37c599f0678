-- ===== src/Redirection/Signals/Ending.antt =====
-- `stop` ends: the signals grow until the process cannot ignore them.
use iot_lab_gateway.Prelude.{
  ℕ, zero, suc, ◌+◌, ◌≤◌, ◌<◌, String, Bool, true, false, ◌≡◌, refl, ◌⊎◌, inl, inr, ap, ◌∙◌, List,
  [], ◌∷◌, arith, eq_iff, same, Bool-cases, if◌then◌else◌,
}
use iot_lab_gateway.Effects.{
  World, State, Call, Signal, sigkill, done, os_failed, returned, is_alive, has_process,
  send_signal, sleep,
}
use iot_lab_gateway.Redirection.Signals.{nth_signal, stop_loop}

-- Whether a call is a SIGKILL to the command, and how many are among the calls.
abbrev pub is_kill : String → Call → Bool
is_kill cmd (send_signal c sigkill) = same c cmd
is_kill cmd _ = false

abbrev pub kills : String → List Call → ℕ
kills cmd [] = 0
kills cmd (c ∷ calls) = if is_kill cmd c then suc (kills cmd calls) else kills cmd calls

-- A process that was started. A signal to it is taken, or the process has ended and the signal
-- fails with errno 3. The thread has ended once SIGKILL was sent, or tried, `k` times: the first ends
-- the process, and the thread sleeps for half a second behind it.
pub record IsKillable (world : World) (cmd : String) (k : ℕ) : Type 0 where
  pub there : (calls : List Call) → world calls (has_process cmd) ≡ true
  pub taken :
      (calls : List Call) (signal : Signal)
      → (world calls (send_signal cmd signal) ≡ done tt)
        ⊎ (world calls (send_signal cmd signal) ≡ os_failed 3)
  pub ended : (calls : List Call) → k ≤ kills cmd calls → world calls (is_alive cmd) ≡ false

either : (a b : ℕ) → (a < b) ⊎ (b ≤ a)
either a b = ground arith

nth_signal-kill : (n : ℕ) → 20 ≤ n → nth_signal n ≡ sigkill
unfolding nth_signal
nth_signal-kill n h = ground arith

module _ {O : Type 0} (world : World) (cmd : String) (k : ℕ)
    (killable : IsKillable world cmd k) where
  abbrev signalled : ℕ → State O → State O
  signalled n s = record {
    self = s.self;
    trace = sleep 1 ∷ send_signal cmd (nth_signal n) ∷ has_process cmd ∷ is_alive cmd ∷ s.trace;
  }

  round-ended :
      (fuel n : ℕ) (s : State O)
      → world s.trace (is_alive cmd) ≡ false
      → (stop_loop world cmd (suc fuel) n s).0 ≡ returned true
  unfolding stop_loop
  round-ended fuel n s e = rw e refl

  round-signalled :
      (fuel n : ℕ) (s : State O)
      → world s.trace (is_alive cmd) ≡ true
      → stop_loop world cmd (suc fuel) n s ≡ stop_loop world cmd fuel (suc n) (signalled n s)
  unfolding stop_loop
  round-signalled fuel n s e =
      elim (killable.taken (has_process cmd ∷ is_alive cmd ∷ s.trace) (nth_signal n)) [
        | inl taken ↦ rw (e, killable.there (is_alive cmd ∷ s.trace), taken) refl
        | inr gone ↦ rw (e, killable.there (is_alive cmd ∷ s.trace), gone) refl
      ]

  kills-signalled :
      (n : ℕ) (s : State O)
      → n ≤ 20 + kills cmd s.trace
      → suc n ≤ 20 + kills cmd (signalled n s).trace
  kills-signalled n s h = elim (either n 20) [
    | inl small ↦ omega arith
    | inr big ↦ rw (nth_signal-kill n big, (eq_iff cmd cmd).1 refl) (omega arith)
  ]

  not_enough : (s : State O) → world s.trace (is_alive cmd) ≡ true → kills cmd s.trace < k
  not_enough s e = elim (either (kills cmd s.trace) k) [
    | inl less ↦ less
    | inr enough ↦ cc (killable.ended s.trace enough, e)
  ]

  stop_loop-ends :
      (fuel n : ℕ) (s : State O)
      → 20 + k ≤ fuel + n
      → n ≤ 20 + kills cmd s.trace
      → (stop_loop world cmd (suc fuel) n s).0 ≡ returned true
  stop_loop-ends zero n s h i = elim (Bool-cases (world s.trace (is_alive cmd))) [
    | inl e ↦ absurd (omega (arith, not_enough s e))
    | inr e ↦ round-ended zero n s e
  ]
  stop_loop-ends (suc fuel) n s h i = elim (Bool-cases (world s.trace (is_alive cmd))) [
    | inl e ↦
        ap (λ x. x.0) (round-signalled (suc fuel) n s e)
        ∙ stop_loop-ends fuel (suc n) (signalled n s) (omega arith) (kills-signalled n s i)
    | inr e ↦ round-ended (suc fuel) n s e
  ]

  -- From every state, the loop of `stop` ends within `k` rounds behind the ten SIGTERMs and the ten
  -- SIGINTs, where the process was started, its thread has ended once SIGKILL was sent, or tried, `k`
  -- times, and a signal is taken or fails with errno 3, as to a process that has ended.
  pub stop_loop-Ends : (s : State O) → (stop_loop world cmd (suc (20 + k)) 0 s).0 ≡ returned true
  stop_loop-Ends s = stop_loop-ends (20 + k) 0 s (omega arith) (omega arith)
