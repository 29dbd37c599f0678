-- ===== src/Autotest/Keeping.antt =====
-- What a step of the auto-tests keeps: the sum so far, and the operations recorded as successes.
use iot_lab_gateway.Prelude.{
  ℕ, zero, suc, String, true, Bool-cases, not, ◌≡◌, refl, Option, none, some, List, [], ◌∷◌, ◌++◌,
  arith, member, same, inl, inr,
}
use iot_lab_gateway.Prelude.Int.{ℤ, pos, negsuc, ◌==ℤ◌, IsNonneg}
use iot_lab_gateway.Effects.{
  World, State, Result, raised, fatal_error, type_error, Action, returned, pure, gets, modify, on,
  ◌>>=◌, attribute_error,
}
use iot_lab_gateway.Effects.Codes.{NoNegative}
use iot_lab_gateway.Effects.Triples.{
  Post, Triple, Keeps, Keeps-bind, Triple-bind, Triple-pure, Triple-raise, Triple-gets,
  Triple-modify, Triple-if, Triple-post, Keeps-on,
}
use iot_lab_gateway.Connection
use iot_lab_gateway.Connection.{Connection}
use iot_lab_gateway.Autotest.{
  AutoTest, Bench, abs, g_m_part, serial_part, with_serial, serial_call, parsed, tested, log,
  succeeded, in_error, check, assert_ok, acked, on_command, autotest_checker, control_node_checker,
  object_attr_has, on_serial_send_command, on_call, run_test, open_node_start,
}

-- The operation is recorded as a success.
abbrev pub Passed : {M : Type 0} → AutoTest M → String → Type 0
Passed a operation = member operation a.report.success ≡ true

-- What depends on the sum and on recorded successes alone, none of which is taken back.
pub record Stable {M : Type 0} (P : AutoTest M → Type 0) : Type 0 where
  pub keeps :
      (a b : AutoTest M)
      → b.ret_val ≡ a.ret_val
      → ((operation : String) → Passed a operation → Passed b operation)
      → P a
      → P b

-- The step keeps `P`, and no code that it returns is negative.
abbrev pub Counts : {M : Type 0} → (AutoTest M → Type 0) → Action (AutoTest M) ℤ → Type 0
Counts P m = Triple P m (λ code a. IsNonneg code × P a) P

-- No command to the control node returns a negative code.
pub record IsCounting {M : Type 0} (bench : Bench M) : Type 0 where
  pub open_start : NoNegative bench.open_start_dc
  pub command : (args : List String) → NoNegative (bench.send_cmd args)
  pub radio : (r : Option _) → NoNegative (bench.config_radio r)
  pub consumption : (c : Option _) → NoNegative (bench.config_consumption c)

pub member-append :
    (x : String) (xs ys : List String) → member x xs ≡ true → member x (xs ++ ys) ≡ true
member-append x [] ys h = cc h
member-append x (y ∷ xs) ys h = elim (Bool-cases (same x y)) [
  | inl e ↦ rw e refl
  | inr e ↦ rw e (member-append x xs ys (rw e at h))
]

pub abs-IsNonneg : (c : ℤ) → IsNonneg (abs c)
abs-IsNonneg (pos n) = ground arith
abs-IsNonneg (negsuc n) = ground arith

Post-counted :
    {O : Type 0} (P : O → Type 0) (x : Result ℤ) (t : State O)
    → ((c : ℤ) → x ≡ returned c → IsNonneg c)
    → P t.self
    → Post (λ code o. IsNonneg code × P o) P (x, t)
Post-counted P (returned c) t h p = (h c refl, p)
Post-counted P (raised e) t h p = p

module _ {M : Type 0} {P : AutoTest M → Type 0} ⦃stable : Stable P⦄ where
  pub Counts-bind :
      {A : Type 0} {m : Action (AutoTest M) A} {f : A → Action (AutoTest M) ℤ}
      → Keeps P m
      → ((a : A) → Counts P (f a))
      → Counts P (m >>= f)
  Counts-bind {m = m} {f = f} k kf = Triple-bind {Q = λ _. P} m f k kf

  -- A code that is counted, and what follows it.
  pub Counted-bind :
      {B : Type 0} {Q : B → AutoTest M → Type 0} {m : Action (AutoTest M) ℤ}
      {f : ℤ → Action (AutoTest M) B}
      → Counts P m
      → ((c : ℤ) → IsNonneg c → Triple P (f c) Q P)
      → Triple P (m >>= f) Q P
  Counted-bind {m = m} {f = f} k kf =
      Triple-bind m f k λ c. record { at = λ s p. (kf c p.0).at s p.1 }

  pub Counts-pure : (c : ℤ) → IsNonneg c → Counts P (pure c)
  Counts-pure c n = Triple-pure c (λ a p. (n, p))

  pub Keeps-pure : {A : Type 0} (x : A) → Keeps P (pure x)
  Keeps-pure x = Triple-pure x (λ a p. p)

  pub Keeps-Counts : {m : Action (AutoTest M) ℤ} → Counts P m → Keeps P m
  Keeps-Counts k = Triple-post k (λ c a p. p.1) (λ a p. p)

  -- A change of the state without the sum and the successes.
  pub Keeps-modify :
      (f : AutoTest M → AutoTest M)
      → ((a : AutoTest M) → (f a).ret_val ≡ a.ret_val)
      → ((a : AutoTest M) → (f a).report.success ≡ a.report.success)
      → Keeps P (modify f)
  Keeps-modify f e h =
      Triple-modify f λ a p. stable.keeps a (f a) (e a) (λ operation k. rw (h a) k) p

  pub Keeps-on_g_m : {A : Type 0} (m : Action M A) → Keeps P (on g_m_part m)
  Keeps-on_g_m m = Keeps-on g_m_part m λ g a p. stable.keeps a _ refl (λ operation k. k) p

  pub Counts-on_g_m : (m : Action M ℤ) → NoNegative m → Counts P (on g_m_part m)
  Counts-on_g_m m n = record {
    at = λ s p.
        let t : State M = record { self = s.self.g_m; trace = s.trace } in
        Post-counted P (m t).0
          (record { self = record s.self { g_m = (m t).1.self }; trace = (m t).1.trace })
          (n.nonneg t) (stable.keeps s.self _ refl (λ operation k. k) p);
  }

  Keeps-serial :
      {A : Type 0} (serial : Option Connection) (m : Action Connection A)
      → Keeps P (serial_call serial m)
  Keeps-serial none m = Triple-raise attribute_error (λ a p. p)
  Keeps-serial (some c) m =
      Keeps-on (serial_part c) m λ d a p. stable.keeps a _ refl (λ operation k. k) p

  pub Keeps-with_serial : {A : Type 0} (m : Action Connection A) → Keeps P (with_serial m)
  Keeps-with_serial m =
      Triple-bind {Q = λ _. P} (gets (λ a. a.on_serial)) _ (Triple-gets _ (λ a p. p))
        λ serial. Keeps-serial serial m

  pub Counts-check : (ret : ℤ) (operation : String) → Counts P (check ret operation)
  unfolding check
  Counts-check ret operation =
      Triple-if (ret ==ℤ pos 0)
        (λ _.
          Counts-bind {m = log (succeeded operation)}
            (Triple-modify _ λ a p.
              stable.keeps a _ refl (λ x k. member-append x a.report.success (operation ∷ []) k) p)
            λ _. Counts-pure (abs ret) (abs-IsNonneg ret))
        (λ _.
          Counts-bind {m = log (in_error operation)} (Keeps-modify _ (λ a. refl) (λ a. refl))
            λ _. Counts-pure (abs ret) (abs-IsNonneg ret))

  pub Keeps-assert_ok : (ret : ℤ) (operation : String) → Keeps P (assert_ok ret operation)
  unfolding assert_ok
  Keeps-assert_ok ret operation =
      Keeps-bind {m = check ret operation} (Keeps-Counts (Counts-check ret operation)) λ c.
        Triple-if (not (c ==ℤ pos 0)) (λ _. Triple-raise fatal_error (λ a p. p))
          (λ _. Keeps-pure tt)

  pub Keeps-tested : (words : List String) → Keeps P (tested words)
  Keeps-tested words = Keeps-modify _ (λ a. refl) (λ a. refl)

  module _ (world : World) (bench : Bench M) where
    pub Keeps-autotest_checker :
        {A : Type 0} (required : List String) (skipped : A) (m : Action (AutoTest M) A)
        → Keeps P m
        → Keeps P (autotest_checker world bench required skipped m)
    unfolding autotest_checker
    Keeps-autotest_checker required skipped m k =
        Triple-if (object_attr_has bench.autotest_available required)
          (λ _. Keeps-bind (Keeps-tested required) λ _. k) (λ _. Keeps-pure skipped)

    pub Counts-autotest_checker :
        (required : List String) (m : Action (AutoTest M) ℤ)
        → Counts P m
        → Counts P (autotest_checker world bench required (pos 0) m)
    unfolding autotest_checker
    Counts-autotest_checker required m k =
        Triple-if (object_attr_has bench.autotest_available required)
          (λ _. Counts-bind (Keeps-tested required) λ _. k)
          (λ _. Counts-pure (pos 0) (ground arith))

    pub Counts-control_node_checker :
        (required : List String) (m : Action (AutoTest M) ℤ)
        → Counts P m
        → Counts P (control_node_checker world bench required (pos 0) m)
    unfolding control_node_checker
    Counts-control_node_checker required m k =
        Triple-if (object_attr_has bench.features required) (λ _. k)
          (λ _. Counts-pure (pos 0) (ground arith))

    pub Keeps-on_serial_send_command :
        (cmd : String) (args : List String) → Keeps P (on_serial_send_command world bench cmd args)
    unfolding on_serial_send_command
    Keeps-on_serial_send_command cmd args =
        Keeps-bind (Keeps-tested (cmd ∷ []))
          λ _. Keeps-with_serial (Connection.send_command world (cmd ∷ args))

    pub Keeps-on_call : (cmd : String) (args : List String) → Keeps P (on_call world bench cmd args)
    unfolding on_call
    Keeps-on_call cmd args = Keeps-bind (Keeps-on_serial_send_command cmd args) λ answer.
        Triple-if (acked cmd answer) (λ _. Keeps-pure (pos 0, answer))
          λ _.
            Keeps-bind {m = check (pos 1) (on_command (cmd ∷ args))}
              (Keeps-Counts (Counts-check (pos 1) (on_command (cmd ∷ args))))
              λ _. Keeps-pure (pos 1, answer)

    Keeps-parsed :
        {A : Type 0} (parse : List String → Action (AutoTest M) A) (answer : Option (List String))
        → ((words : List String) → Keeps P (parse words))
        → Keeps P (parsed world bench parse answer)
    Keeps-parsed parse none k = Triple-raise type_error (λ a p. p)
    Keeps-parsed parse (some words) k = k words

    pub Keeps-run_test :
        {A : Type 0} (n : ℕ) (cmd : String) (args : List String)
        (parse : List String → Action (AutoTest M) A)
        → ((words : List String) → Keeps P (parse words))
        → Keeps P (run_test world bench n cmd args parse)
    unfolding run_test
    Keeps-run_test zero cmd args parse k = Keeps-pure []
    Keeps-run_test (suc n) cmd args parse k = Keeps-bind (Keeps-on_call cmd args) λ reply.
        Triple-if (not (reply.0 ==ℤ pos 0)) (λ _. Keeps-run_test n cmd args parse k)
          λ _. Keeps-bind (Keeps-parsed parse reply.1 k) λ value.
            Keeps-bind (Keeps-run_test n cmd args parse k) λ values. Keeps-pure (value ∷ values)

    pub Counts-open_node_start : IsCounting bench → Counts P (open_node_start world bench)
    unfolding open_node_start
    Counts-open_node_start n =
        Counts-control_node_checker ("open_node_power" ∷ []) (on g_m_part bench.open_start_dc)
          (Counts-on_g_m bench.open_start_dc n.open_start)
