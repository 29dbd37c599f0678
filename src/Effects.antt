-- ===== src/Effects.antt =====
-- Methods of an object as actions. An action reads and writes the object (`self`), makes calls to
-- what lies outside the repository, and returns or raises. What was written before an exception
-- stays written. A world answers each call, in view of all calls made before, so a theorem for
-- every world holds whatever the hardware, the processes and the file system do.
mod Calls
pub mod Codes
pub mod Steps
pub mod Triples
pub use Calls.*
use iot_lab_gateway.Prelude.{ℕ, Bool, true, false, Option, none, some, List, [], ◌∷◌}
use iot_lab_gateway.Prelude.Int.{ℤ, pos, ◌+ℤ◌}

-- The exceptions that the code raises or catches. The three environment errors carry `errno`.
-- IOError and OSError are two classes, as in Python 2.7.
pub data Exception : Type 0 where
  value_error type_error assertion_error attribute_error key_error index_error : Exception
  runtime_error not_implemented fatal_error no_such_process : Exception
  termios_error elf_error called_process_error linux_error : Exception
  io_error os_error environment_error : ℕ → Exception

pub data Result (A : Type 0) : Type 0 where
  returned : A → Result A
  raised : Exception → Result A

-- The calls made so far, the last one first, beside the object.
pub record State (O : Type 0) : Type 0 where
  pub self : O
  pub trace : List Call

abbrev pub World : Type 0
World = List Call → (c : Call) → Reply c

abbrev pub Action : Type 0 → Type 0 → Type 0
Action O A = State O → Result A × State O

module _ {O A : Type 0} where
  abbrev pub pure : A → Action O A
  pure a s = (returned a, s)

  abbrev pub raise : Exception → Action O A
  raise e s = (raised e, s)

  abbrev pub gets : (O → A) → Action O A
  gets f s = (returned (f s.self), s)

  -- `try: body` / `except …: handler`; a handler raises again what it does not catch.
  abbrev pub try_except : Action O A → (Exception → Action O A) → Action O A
  try_except body handler s =
      let (r, t) = body s in elim r [ returned a ↦ (returned a, t) | raised e ↦ handler e t ]

  -- `try: body` / `finally: cleanup`, for a cleanup that only assigns.
  abbrev pub try_finally : Action O A → (O → O) → Action O A
  try_finally body cleanup s =
      let (r, t) = body s in (r, record { self = cleanup t.self; trace = t.trace })

abbrev pub modify : {O : Type 0} → (O → O) → Action O (Unit {0})
modify f s = (returned tt, record { self = f s.self; trace = s.trace })

abbrev pub perform : {O : Type 0} → World → (c : Call) → Action O (Reply c)
perform world c s = (returned (world s.trace c), record { self = s.self; trace = c ∷ s.trace })

module _ {O A B : Type 0} where
  infixl 5 ◌>>=◌ ◌>>◌
  abbrev pub ◌>>=◌ : Action O A → (A → Action O B) → Action O B
  ◌>>=◌ m f s = let (r, t) = m s in elim r [ returned a ↦ f a t | raised e ↦ (raised e, t) ]

  abbrev pub ◌>>◌ : Action O A → Action O B → Action O B
  m >> n = m >>= λ _. n

-- An attribute that holds another object.
pub record Part (O P : Type 0) : Type 0 where
  pub get : O → P
  pub put : P → O → O

-- A method of the object that the attribute holds.
abbrev pub on : {O P A : Type 0} → Part O P → Action P A → Action O A
on part m s =
    let (r, t) = m (record { self = part.get s.self; trace = s.trace }) in
    (r, record { self = part.put t.self s.self; trace = t.trace })

-- A method that a class may lack.
abbrev pub method : {O A : Type 0} → Option (Action O A) → Action O A
method none = raise attribute_error
method (some m) = m

-- `ret_val += a(); ret_val += b(); …; return ret_val`, from `ret_val = 0`.
unfoldable pub total : {O : Type 0} → List (Action O ℤ) → Action O ℤ
total [] = pure (pos 0)
total (m ∷ ms) = m >>= λ code. total ms >>= λ rest. pure (code +ℤ rest)
