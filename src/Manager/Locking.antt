-- ===== src/Manager/Locking.antt =====
-- The lock of the manager: what `synchronous` does to the method that it wraps.
use iot_lab_gateway.Prelude.{
  ℕ, zero, suc, ◌≡◌, ◌≢◌, refl, arith, ==_iff, ap, ◌∙◌, Option, none, some,
}
use iot_lab_gateway.Effects.{
  State, Result, returned, raised, Action, gets, modify, try_finally, environment_error,
}
use iot_lab_gateway.Effects.Triples.{
  Triple, Keeps, Post, Triple-bind, Triple-raise, Triple-gets, Triple-modify,
}
use iot_lab_gateway.Manager.State.{
  Manager, Held, acquire, release, synchronous, would_block, holding,
}

-- A predicate that does not depend on the lock.
pub record IgnoresLock {C O : Type 0} (P : Manager C O → Type 0) : Type 0 where
  pub relock : (h : Option Held) (m : Manager C O) → P m → P (record m { rlock = h })

module _ {O A : Type 0} {E : O → Type 0} {Q : A → O → Type 0} where
  Post-finally :
      (E' : O → Type 0) (Q' : A → O → Type 0) (r : Result A) (t : State O) (f : O → O)
      → ((a : A) (o : O) → Q a o → Q' a (f o))
      → ((o : O) → E o → E' (f o))
      → Post Q E (r, t)
      → Post Q' E' (r, record { self = f t.self; trace = t.trace })
  Post-finally E' Q' (returned a) t f h k p = h a t.self p
  Post-finally E' Q' (raised e) t f h k p = k t.self p

  pub Triple-finally :
      {P E' : O → Type 0} {Q' : A → O → Type 0} (m : Action O A) (f : O → O)
      → Triple P m Q E
      → ((a : A) (o : O) → Q a o → Q' a (f o))
      → ((o : O) → E o → E' (f o))
      → Triple P (try_finally m f) Q' E'
  Triple-finally {E' = E'} {Q' = Q'} m f km h k = record {
    at = λ s p. Post-finally E' Q' (m s).0 (m s).1 f h k (km.at s p);
  }

module _ {C O A : Type 0} {P E : Manager C O → Type 0} {Q : A → Manager C O → Type 0} where
  Triple-holding :
      (held : Option Held) (func : Action (Manager C O) A)
      → IgnoresLock P
      → ((a : A) → IgnoresLock (Q a))
      → IgnoresLock E
      → ((m : Manager C O) → P m → E m)
      → Triple P func Q E
      → Triple P (holding held func) Q E
  Triple-holding none func ip iq ie h k = Triple-raise (environment_error would_block) h
  Triple-holding (some l) func ip iq ie h k =
      Triple-bind (modify (λ m. record m { rlock = some l })) _
        (Triple-modify {Q = λ _. P} _ (ip.relock (some l)))
        λ _.
          Triple-finally func (λ m. record m { rlock = release m.rlock }) k
            (λ a m. (iq a).relock (release m.rlock) m) (λ m. ie.relock (release m.rlock) m)

  -- A method that is kept out by another thread raises with the object as it was.
  pub Triple-synchronous :
      (me : ℕ) (func : Action (Manager C O) A)
      → IgnoresLock P
      → ((a : A) → IgnoresLock (Q a))
      → IgnoresLock E
      → ((m : Manager C O) → P m → E m)
      → Triple P func Q E
      → Triple P (synchronous me func) Q E
  unfolding synchronous
  Triple-synchronous me func ip iq ie h k =
      Triple-bind (gets (λ m. m.rlock)) _ (Triple-gets {Q = λ _. P} _ (λ m p. p))
        λ held. Triple-holding (acquire me held) func ip iq ie h k

-- The lock when a thread holds it `n` times.
abbrev pub depth : ℕ → ℕ → Option Held
depth me zero = none
depth me (suc n) = some (record { owner = me; count = suc n })

acquire-depth : (me n : ℕ) → acquire me (depth me n) ≡ depth me (suc n)
acquire-depth me zero = refl
acquire-depth me (suc n) = ground (arith, ==_iff me me)

acquire-other : (me : ℕ) (h : Held) → h.owner ≢ me → acquire me (some h) ≡ none
acquire-other me h d = ground (arith, ==_iff h.owner me)

released : (me n : ℕ) (l : Option Held) → l ≡ depth me (suc n) → release l ≡ depth me n
released me zero l e = rw e refl
released me (suc n) l e = rw e refl

module _ {C O : Type 0} where
  -- The lock is `l`.
  abbrev pub Locked : Option Held → Manager C O → Type 0
  Locked l m = m.rlock ≡ l

module _ {C O A : Type 0} where
  Keeps-holding :
      (me n : ℕ) (func : Action (Manager C O) A)
      → Keeps (Locked (depth me (suc n))) func
      → Triple
          (Locked (depth me n))
          (holding (depth me (suc n)) func)
          (λ _. Locked (depth me n))
          (Locked (depth me n))
  Keeps-holding me n func k =
      Triple-bind (modify (λ m. record m { rlock = depth me (suc n) })) _
        (Triple-modify {Q = λ _. Locked (depth me (suc n))} _ (λ m p. refl))
        λ _.
          Triple-finally func (λ m. record m { rlock = release m.rlock }) k
            (λ a m p. released me n m.rlock p) (λ m p. released me n m.rlock p)

  Keeps-acquired :
      (me n : ℕ) (held : Option Held) (func : Action (Manager C O) A)
      → Keeps (Locked (depth me (suc n))) func
      → Triple
          (λ m. (held ≡ depth me n) × Locked (depth me n) m)
          (holding (acquire me held) func)
          (λ _. Locked (depth me n))
          (Locked (depth me n))
  Keeps-acquired me n held func k = record {
    at = λ s p. rw (p.0, acquire-depth me n) ((Keeps-holding me n func k).at s p.1);
  }

  -- The lock is released as often as it was acquired, on every path.
  pub Keeps-synchronous :
      (me n : ℕ) (func : Action (Manager C O) A)
      → Keeps (Locked (depth me (suc n))) func
      → Keeps (Locked (depth me n)) (synchronous me func)
  unfolding synchronous
  Keeps-synchronous me n func k =
      Triple-bind (gets (λ m. m.rlock)) _
        (Triple-gets {Q = λ held m. (held ≡ depth me n) × Locked (depth me n) m} _ (λ m p. (p, p)))
        λ held. Keeps-acquired me n held func k

  -- A lock that another thread holds keeps the method from running.
  pub synchronous-blocked :
      (me : ℕ) (func : Action (Manager C O) A) (h : Held) (s : State (Manager C O))
      → s.self.rlock ≡ some h
      → h.owner ≢ me
      → synchronous me func s ≡ (raised (environment_error would_block), s)
  unfolding synchronous
  synchronous-blocked me func h s e d =
      ap (λ l. holding l func s) (ap (acquire me) e ∙ acquire-other me h d)
