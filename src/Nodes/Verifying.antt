-- ===== src/Nodes/Verifying.antt =====
-- What an open node class that is handed out was checked for.
use iot_lab_gateway.Prelude.{
  String, Bool, true, false, ◌≡◌, ◌≢◌, refl, ◌&&◌, Option, none, some, List, [], ◌∷◌, same, ap, ◌∙◌,
  arith, member, inl, inr, if◌then◌else◌,
}
use iot_lab_gateway.Prelude.Int.{pos, ◌==ℤ◌, ==ℤ-eq}
use iot_lab_gateway.Effects.{
  State, World, Action, returned, pure, ◌>>=◌, raise, value_error, assertion_error, Exception,
}
use iot_lab_gateway.Effects.Steps.{>>=-returned, Result-cases}
use iot_lab_gateway.Effects.Codes.{Yields, AllSucceed, AllSucceed-total, NoNegative}
use iot_lab_gateway.Protocol.Codes.{NoNegative-bind, NoNegative-pure, NoNegative-if}
use iot_lab_gateway.ElfTarget.{is_compatible_with_node}
use iot_lab_gateway.Nodes.{
  Verified, Verifier, inherited, overridden, verify_class, verify, verify_target, verify_firmware,
  verify_autotest, get, node_class, open_node_class,
}

-- What holds of a class with an ELF target and the mandatory tests.
abbrev pub IsComplete : Verified → Type 0
IsComplete class =
    (class.elf_target ≢ none)
    × ((available : List String) × (class.autotest_available ≡ some available)
        × (member "echo" available ≡ true)
        × (member "get_time" available ≡ true))

both :
    {O : Type 0} (b c : Bool) (s : State O)
    → Yields (if b && c then pure (pos 0) else pure (pos 1)) s (pos 0)
    → (b ≡ true) × (c ≡ true)
both true true s h = (refl, refl)
both true false s h = cc h
both false c s h = cc h

module _ {O : Type 0} (world : World) (class : Verified) where
  target-NoNegative :
      (t : Option (String × String)) → NoNegative (verify_target {O = O} world class t)
  target-NoNegative none = NoNegative-pure (pos 1) (omega arith)
  target-NoNegative (some t) = NoNegative-pure (pos 0) (omega arith)

  firmware-NoNegative : (f : Option String) → NoNegative (verify_firmware {O = O} world class f)
  firmware-NoNegative none = NoNegative-pure (pos 0) (omega arith)
  firmware-NoNegative (some f) =
      NoNegative-bind (is_compatible_with_node world (some f) class.elf_target) _ λ ok.
        NoNegative-if ok _ _ (NoNegative-pure (pos 0) (omega arith))
          (NoNegative-pure (pos 1) (omega arith))

  autotest-NoNegative :
      (a : Option (List String)) → NoNegative (verify_autotest {O = O} world class a)
  autotest-NoNegative none = NoNegative-pure (pos 1) (omega arith)
  autotest-NoNegative (some a) =
      NoNegative-if (member "echo" a && member "get_time" a) _ _
        (NoNegative-pure (pos 0) (omega arith)) (NoNegative-pure (pos 1) (omega arith))

  verify-AllSucceed :
      (s : State O)
      → Yields (verify world class) s (pos 0)
      → AllSucceed
          (verify_target world class class.elf_target
            ∷ verify_firmware world class class.fw_idle
            ∷ verify_firmware world class class.fw_autotest
            ∷ verify_autotest world class class.autotest_available
            ∷ [])
          s
  unfolding verify
  verify-AllSucceed s h =
      AllSucceed-total _ s
        (
          target-NoNegative class.elf_target,
          (
            firmware-NoNegative class.fw_idle,
            (
              firmware-NoNegative class.fw_autotest,
              (autotest-NoNegative class.autotest_available, tt),
            ),
          ),
        )
        h

  has_target :
      (t : Option (String × String)) (s : State O)
      → Yields (verify_target world class t) s (pos 0)
      → t ≢ none
  has_target none s h = cc h
  has_target (some t) s h = λ e. cc e

  offers :
      (a : Option (List String)) (s : State O)
      → Yields (verify_autotest world class a) s (pos 0)
      → (available : List String) × (a ≡ some available)
        × (member "echo" available ≡ true)
        × (member "get_time" available ≡ true)
  offers none s h = cc h
  offers (some a) s h =
      let (p, q) = both (member "echo" a) (member "get_time" a) s h in (a, refl, p, q)

  verify-IsComplete : (s : State O) → Yields (verify world class) s (pos 0) → IsComplete class
  verify-IsComplete s h =
      let (target, (idle, (autotest, (tests, _)))) = verify-AllSucceed s h in
      (has_target class.elf_target s target, offers class.autotest_available _ tests)

-- A class with a `verify` of its own needs nothing.
abbrev pub IsChecked : Verifier → Type 0
IsChecked (inherited attributes) = IsComplete attributes
IsChecked overridden = Unit

verify_class-IsChecked :
    {O : Type 0} (world : World) (v : Verifier) (s : State O)
    → Yields (verify_class world v) s (pos 0)
    → IsChecked v
unfolding verify_class
verify_class-IsChecked world (inherited attributes) s h = verify-IsComplete world attributes s h
verify_class-IsChecked world overridden s h = tt

bind_parts :
    {O A B : Type 0} (m : Action O A) (f : A → Action O B) (s : State O) (b : B)
    → ((m >>= f) s).0 ≡ returned b
    → (a : A) × ((m s).0 ≡ returned a) × ((f a (m s).1).0 ≡ returned b)
bind_parts m f s b e = elim (Result-cases (m s).0) [
  | inr (x, h) ↦ cc (h, e)
  | inl (a, h) ↦ (a, h, rw (>>=-returned m f s h) at e)
]

given_back :
    {O N : Type 0} (b : Bool) (x : Exception) (c class : N) (s : State O)
    → ((if b then pure c else raise x) s).0 ≡ returned class
    → (b ≡ true) × (c ≡ class)
given_back true x c class s e = (refl, cc e)
given_back false x c class s e = cc e

module _ {N O : Type 0} (type_name : N → String) where
  registered :
      (board_type : String) (o : Option N) (s : State O) (class : N)
      → ((elim o as (λ _. Action O N) [
        | none ↦ raise value_error
        | some c ↦ if same (type_name c) board_type then pure c else raise assertion_error
      ])
          s).0
        ≡ returned class
      → o ≡ some class
  registered board_type none s class e = cc e
  registered board_type (some c) s class e =
      ap some (given_back (same (type_name c) board_type) assertion_error c class s e).1

  module _ (world : World) (verifier : N → Verifier) where
    abbrev verified_class : N → Action O N
    verified_class c = verify_class world (verifier c) >>= λ ret.
        if ret ==ℤ pos 0 then pure c else raise value_error

    verified_class-IsChecked :
        (c class : N) (s : State O)
        → (verified_class c s).0 ≡ returned class
        → (c ≡ class) × IsChecked (verifier c)
    verified_class-IsChecked c class s e =
        let (ret, yields, back) =
          bind_parts (verify_class world (verifier c))
            (λ ret. if ret ==ℤ pos 0 then pure c else raise value_error) s class e in
        let (zero, same_class) = given_back (ret ==ℤ pos 0) value_error c class _ back in
        (
          same_class,
          verify_class-IsChecked world (verifier c) s
              (yields ∙ ap returned (==ℤ-eq ret (pos 0) zero)),
        )

    -- Every class that open_node_class returns is the one that is registered for the board type, and
    -- has an ELF target and the two mandatory tests, echo and get_time, unless it is a class with a
    -- verify of its own.
    pub open_node_class-IsChecked :
        (registry : List (String × N)) (board_type : String) (s : State O) (class : N)
        → (open_node_class type_name world verifier registry board_type s).0 ≡ returned class
        → (get type_name board_type registry ≡ some class) × IsChecked (verifier class)
    unfolding open_node_class node_class
    open_node_class-IsChecked registry board_type s class e =
        let (c, chosen, rest) =
          bind_parts (node_class type_name registry board_type) verified_class s class e in
        let (same_class, checked) = verified_class-IsChecked c class _ rest in
        (
          registered board_type (get type_name board_type registry) s c chosen ∙ ap some same_class,
          rw same_class at checked,
        )
