-- ===== src/Autotest/Running/Sound.antt =====
-- What a report of the auto-tests says: a code that is 0 is not the sum of errors.
use iot_lab_gateway.Prelude.{
  String, not, ◌≡◌, ◌≢◌, refl, sym, ◌∙◌, List, [], ◌∷◌, ◌++◌, All, arith, member, eq_iff, inl, inr,
  Bool-cases, same, true, false,
}
use iot_lab_gateway.Prelude.Int.{
  ℤ, pos, negsuc, ◌+ℤ◌, ◌==ℤ◌, ==ℤ-eq, IsNonneg, +ℤ-IsNonneg, +ℤ-eq-zero,
}
use iot_lab_gateway.Effects.{Action, fatal_error}
use iot_lab_gateway.Effects.Triples.{
  Triple, Keeps, Triple-bind, Triple-pure, Triple-raise, Triple-modify, Triple-if, Triple-post,
}
use iot_lab_gateway.Autotest.{AutoTest, abs, check, assert_ok, log, succeeded, in_error}
use iot_lab_gateway.Autotest.Running.{add}
use iot_lab_gateway.Autotest.Keeping.{member-append, Passed, Stable, Counts, abs-IsNonneg}

-- No negative sum so far; a sum of 0 says that these operations succeeded.
abbrev pub Sofar : {M : Type 0} → List String → AutoTest M → Type 0
Sofar ops a = IsNonneg a.ret_val × (a.ret_val ≡ pos 0 → All (Passed a) ops)

abbrev pub Negless : {M : Type 0} → AutoTest M → Type 0
Negless a = IsNonneg a.ret_val

All-Passed :
    {M : Type 0} (ops : List String) (a b : AutoTest M)
    → ((operation : String) → Passed a operation → Passed b operation)
    → All (Passed a) ops
    → All (Passed b) ops
All-Passed [] a b h p = tt
All-Passed (op ∷ ops) a b h p = (h op p.0, All-Passed ops a b h p.1)

pub Sofar-Stable : {M : Type 0} (ops : List String) → Stable {M = M} (Sofar ops)
Sofar-Stable ops = record {
  keeps = λ a b e h p. (rw e p.0, λ z. All-Passed ops a b h (p.1 (sym e ∙ z)));
}

member-last : (x : String) (xs : List String) → member x (xs ++ x ∷ []) ≡ true
member-last x [] = rw ((eq_iff x x).1 refl) refl
member-last x (y ∷ xs) = elim (Bool-cases (same x y)) [
  | inl e ↦ rw e refl
  | inr e ↦ rw e (member-last x xs)
]

abs-ne-zero : (c : ℤ) → (c ==ℤ pos 0) ≡ false → abs c ≢ pos 0
abs-ne-zero (pos n) e z = ground (arith, e, z)
abs-ne-zero (negsuc n) e z = ground (arith, z)

module _ {M : Type 0} (ops : List String) where
  instance stable : Stable {M = M} (Sofar ops)
  stable = Sofar-Stable ops

  -- A check whose code is 0 is recorded as a success.
  pub check-Passed :
      (ret : ℤ) (operation : String)
      → Triple {O = AutoTest M}
          (Sofar ops)
          (check ret operation)
          (λ code a. (IsNonneg code × Sofar ops a) × (code ≡ pos 0 → Passed a operation))
          (Sofar ops)
  unfolding check
  check-Passed ret operation =
      Triple-if (ret ==ℤ pos 0)
        (λ _.
          Triple-bind {Q = λ _ a. Sofar ops a × Passed a operation} (log (succeeded operation)) _
            (Triple-modify _ λ a p. (
              stable.keeps a (record a { report = succeeded operation a.report }) refl
                  (λ x k. member-append x a.report.success (operation ∷ []) k) p,
              member-last operation a.report.success,
            ))
            λ _. Triple-pure (abs ret) λ a p. ((abs-IsNonneg ret, p.0), λ _. p.1))
        (λ failed.
          Triple-bind {Q = λ _. Sofar ops} (log (in_error operation)) _
            (Triple-modify _ λ a p.
              stable.keeps a (record a { report = in_error operation a.report }) refl (λ x k. k) p)
            λ _.
              Triple-pure (abs ret)
                λ a p. ((abs-IsNonneg ret, p), λ z. absurd (abs-ne-zero ret failed z)))

  -- `_assert` returns where the operation succeeded.
  pub assert_ok-Passed :
      (ret : ℤ) (operation : String)
      → Triple {O = AutoTest M}
          (Sofar ops)
          (assert_ok ret operation)
          (λ _. Sofar (operation ∷ ops))
          (Sofar ops)
  unfolding assert_ok
  assert_ok-Passed ret operation =
      Triple-bind (check ret operation) _
        (Triple-post (check-Passed ret operation) (λ c a p. p) (λ a p. p))
        λ c.
          Triple-if (not (c ==ℤ pos 0)) (λ _. Triple-raise fatal_error (λ a p. p.0.1))
            (λ e.
              Triple-pure tt
                λ a p. (p.0.1.0, λ z. (p.1 (==ℤ-eq c (pos 0) (ground (arith, e))), p.0.1.1 z)))

  -- A code that is added to the sum, with what it says where it is 0.
  pub Sofar-add :
      (more : List String) {m : Action (AutoTest M) ℤ}
      → Triple
          (Sofar ops)
          m
          (λ c a. (IsNonneg c × Sofar ops a) × (c ≡ pos 0 → All (Passed a) more))
          (Sofar ops)
      → Triple
          (Sofar ops)
          (add m)
          (λ _ a.
            IsNonneg a.ret_val × (a.ret_val ≡ pos 0 → All (Passed a) more × All (Passed a) ops))
          (Sofar ops)
  Sofar-add more {m = m} k = Triple-bind m _ k λ c.
      Triple-modify (λ a. record a { ret_val = a.ret_val +ℤ c })
        λ a p. (
          +ℤ-IsNonneg a.ret_val c p.0.1.0 p.0.0,
          λ z. let (u, v) = +ℤ-eq-zero a.ret_val c p.0.1.0 p.0.0 z in (p.1 v, p.0.1.1 u),
        )

  -- A test that keeps the sum and the successes is added to it.
  pub Counts-add : {m : Action (AutoTest M) ℤ} → Counts (Sofar ops) m → Keeps (Sofar ops) (add m)
  Counts-add k =
      Triple-post (Sofar-add [] (Triple-post k (λ c a p. (p, λ _. tt)) (λ a p. p)))
        (λ _ a p. (p.0, λ z. (p.1 z).1)) (λ a p. p)
