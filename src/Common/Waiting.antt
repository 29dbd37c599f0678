-- ===== src/Common/Waiting.antt =====
-- The loop of `wait_cond` ends before its fuel does.
use iot_lab_gateway.Prelude.{
  ap, ◌∙◌, ◌⊎◌, Option, ℕ, zero, suc, ◌+◌, ◌*◌, ◌≤◌, ◌<◌, String, Bool, true, false, ◌≡◌, refl, inl,
  inr, some, arith, ltb, List, ◌∷◌, Bool-cases,
}
use iot_lab_gateway.Effects.{Action, World, State, Call, returned, path_exists, now, sleep}
use iot_lab_gateway.Common.{same_flag, wait_loop, wait_cond}

-- The clock: it does not go back from one reading to the next, and `time.sleep(0.1)` takes a tenth
-- of a second.
pub record Ticks (world : World) : Type 0 where
  pub forward :
      (path : String) (calls : List Call)
      → world calls now ≤ world (path_exists path ∷ now ∷ calls) now
  pub slept :
      (path : String) (calls : List Call)
      → suc (world (path_exists path ∷ calls) now)
        ≤ world (path_exists path ∷ sleep 1 ∷ now ∷ path_exists path ∷ calls) now

ltb-true : (a b : ℕ) → a < b → ltb a b ≡ true
ltb-true a b h = ground arith

ltb-false : (a b : ℕ) → b ≤ a → ltb a b ≡ false
ltb-false a b h = ground arith

in_time : (a b : ℕ) → (a < b) ⊎ (b ≤ a)
in_time a b = ground arith

module _ {O : Type 0} (world : World) (deadline : ℕ) (value : Bool) (path : String)
    (s : State O) where
  abbrev is_there : Bool
  is_there = same_flag value (world s.trace (path_exists path))

  abbrev time_read : ℕ
  time_read = world (path_exists path ∷ s.trace) now

  abbrev after_round : State O
  after_round = record { self = s.self; trace = sleep 1 ∷ now ∷ path_exists path ∷ s.trace }

  round-found :
      (fuel : ℕ)
      → is_there ≡ true
      → (wait_loop world (suc fuel) deadline value path s).0 ≡ returned (some true)
  unfolding wait_loop
  round-found fuel e = rw e refl

  round-late :
      (fuel : ℕ)
      → is_there ≡ false
      → deadline < time_read
      → (wait_loop world (suc fuel) deadline value path s).0 ≡ returned (some false)
  unfolding wait_loop
  round-late fuel e l = rw (e, ltb-true deadline time_read l) refl

  round-again :
      (fuel : ℕ)
      → is_there ≡ false
      → time_read ≤ deadline
      → wait_loop world (suc fuel) deadline value path s
        ≡ wait_loop world fuel deadline value path after_round
  unfolding wait_loop
  round-again fuel e l = rw (e, ltb-false deadline time_read l) refl

-- The action returns whether the condition held: the fuel is not used up.
abbrev pub Ends : {O : Type 0} → Action O (Option Bool) → State O → Type 0
Ends m s = (b : Bool) × ((m s).0 ≡ returned (some b))

module _ {O : Type 0} (world : World) (ticks : Ticks world) where
  wait_loop-Ends :
      (fuel deadline : ℕ) (value : Bool) (path : String) (s : State O)
      → deadline < world (path_exists path ∷ s.trace) now + fuel
      → Ends (wait_loop world (suc fuel) deadline value path) s
  wait_loop-Ends zero deadline value path s h =
      elim (Bool-cases (same_flag value (world s.trace (path_exists path)))) [
        | inl e ↦ (true, round-found world deadline value path s 0 e)
        | inr e ↦ (false, round-late world deadline value path s 0 e (omega arith))
      ]
  wait_loop-Ends (suc fuel) deadline value path s h =
      let next = after_round world deadline value path s in
      elim (Bool-cases (same_flag value (world s.trace (path_exists path)))) [
        | inl e ↦ (true, round-found world deadline value path s (suc fuel) e)
        | inr e ↦ elim (in_time deadline (world (path_exists path ∷ s.trace) now)) [
          | inl l ↦ (false, round-late world deadline value path s (suc fuel) e l)
          | inr l ↦
              let tick = ticks.slept path s.trace in
              let (b, k) = wait_loop-Ends fuel deadline value path next (omega arith) in
              (b, ap (λ x. x.0) (round-again world deadline value path s (suc fuel) e l) ∙ k)
        ]
      ]

  -- With a clock that goes on, `wait_cond` ends: the fuel, two rounds more than the timeout has
  -- tenths of a second, is enough for every timeout, path and state.
  pub wait_cond-Ends :
      (timeout : ℕ) (value : Bool) (path : String) (s : State O)
      → Ends (wait_cond world timeout value path) s
  unfolding wait_cond
  wait_cond-Ends timeout value path s =
      let start = world s.trace now in
      let forward = ticks.forward path s.trace in
      wait_loop-Ends (timeout * 10 + 1) (start + timeout * 10) value path
        (record { self = s.self; trace = now ∷ s.trace }) (omega arith)
