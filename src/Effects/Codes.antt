-- ===== src/Effects/Codes.antt =====
-- A sum of return codes: what it says of the parts.
use iot_lab_gateway.Prelude.{◌≡◌, sym, inl, inr, List, [], ◌∷◌, arith, All, refl}
use iot_lab_gateway.Prelude.Int.{ℤ, pos, ◌+ℤ◌, IsNonneg, +ℤ-IsNonneg, +ℤ-eq-zero, +ℤ-zero}
use iot_lab_gateway.Effects.Steps.{>>=-returned, Result-cases}
use iot_lab_gateway.Effects.{State, returned, Action, ◌>>=◌, pure, total}

module _ {O : Type 0} where
  abbrev pub Yields : Action O ℤ → State O → ℤ → Type 0
  Yields m s code = (m s).0 ≡ returned code

  -- No code that the action returns is negative.
  pub record NoNegative (m : Action O ℤ) : Type 0 where
    pub nonneg : (s : State O) (code : ℤ) → Yields m s code → IsNonneg code

  -- Every action returns 0, each from the state that the one before leaves.
  abbrev pub AllSucceed : List (Action O ℤ) → State O → Type 0
  AllSucceed [] s = Unit
  AllSucceed (m ∷ ms) s = Yields m s (pos 0) × AllSucceed ms (m s).1

  -- The sum of the codes is 0 if all actions return 0.
  pub total-AllSucceed :
      (ms : List (Action O ℤ)) (s : State O) → AllSucceed ms s → Yields (total ms) s (pos 0)
  unfolding total
  total-AllSucceed [] s h = refl
  total-AllSucceed (m ∷ ms) s h = cc (
    >>=-returned m (λ code. total ms >>= λ rest. pure (code +ℤ rest)) s h.0,
    >>=-returned (total ms) (λ rest. pure (pos 0 +ℤ rest)) (m s).1
        (total-AllSucceed ms (m s).1 h.1),
    +ℤ-zero (pos 0),
  )

  -- A sum that is returned is that of the first code and the sum of the others.
  total-cons :
      (m : Action O ℤ) (ms : List (Action O ℤ)) (s : State O) {c : ℤ}
      → Yields (total (m ∷ ms)) s c
      → (a b : ℤ) × Yields m s a × Yields (total ms) (m s).1 b × (c ≡ a +ℤ b)
  unfolding total
  total-cons m ms s e = elim (Result-cases (m s).0) [
    | inr (x, h) ↦ cc h
    | inl (a, h) ↦ elim (Result-cases (total ms (m s).1).0) [
      | inr (x, k) ↦ cc (h, k)
      | inl (b, k) ↦ (a, b, h, k, cc (h, k))
    ]
  ]

  pub total-NoNegative : (ms : List (Action O ℤ)) → All NoNegative ms → NoNegative (total ms)
  total-NoNegative [] n = record { nonneg = λ s c e. unfold total in ground arith }
  total-NoNegative (m ∷ ms) n = record {
    nonneg = λ s c e.
        let (a, b, h, k, sum) = total-cons m ms s e in
        rw sum (+ℤ-IsNonneg a b (n.0.nonneg s a h) ((total-NoNegative ms n.1).nonneg (m s).1 b k));
  }

  -- Where no code is negative, a sum of 0 means that all actions return 0.
  pub AllSucceed-total :
      (ms : List (Action O ℤ)) (s : State O)
      → All NoNegative ms
      → Yields (total ms) s (pos 0)
      → AllSucceed ms s
  AllSucceed-total [] s n e = tt
  AllSucceed-total (m ∷ ms) s n e =
      let (a, b, h, k, sum) = total-cons m ms s e in
      let (a_zero, b_zero) =
        +ℤ-eq-zero a b (n.0.nonneg s a h) ((total-NoNegative ms n.1).nonneg (m s).1 b k)
          (sym sum) in
      (cc (h, a_zero), AllSucceed-total ms (m s).1 n.1 (cc (k, b_zero)))
