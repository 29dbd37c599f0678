-- ===== src/Effects/Triples.antt =====
-- What an action does to its object: from a state with `P`, a returned value and its object are in
-- `Q`, and the object behind an exception is in `E`.
use iot_lab_gateway.Prelude.{
  ◌≡◌, refl, Bool, true, false, List, [], ◌∷◌, inl, inr, All, if◌then◌else◌,
}
use iot_lab_gateway.Prelude.Int.{ℤ, pos, ◌+ℤ◌}
use iot_lab_gateway.Effects.{
  State, World, Call, Result, returned, raised, Exception, Action, Part, pure, raise, gets, modify,
  perform, try_except, on, total, ◌>>=◌,
}
use iot_lab_gateway.Effects.Steps.{Result-cases, >>=-returned, >>=-raised, try-returned, try-raised}

module _ {O A : Type 0} where
  abbrev pub Post : (A → O → Type 0) → (O → Type 0) → Result A × State O → Type 0
  Post Q E x = elim x.0 [ returned a ↦ Q a x.1.self | raised e ↦ E x.1.self ]

  pub record Triple (P : O → Type 0) (m : Action O A) (Q : A → O → Type 0) (E : O → Type 0)
      : Type 0 where
    pub at : (s : State O) → P s.self → Post Q E (m s)

  -- The action keeps `P`, whether it returns or raises.
  abbrev pub Keeps : (O → Type 0) → Action O A → Type 0
  Keeps P m = Triple P m (λ _. P) P

  -- The action leaves its object alone.
  pub record Steady (m : Action O A) : Type 0 where
    pub same_self : (s : State O) → (m s).1.self ≡ s.self

module _ {O A : Type 0} where
  Post-weaken :
      {Q Q' : A → O → Type 0} {E E' : O → Type 0} (r : Result A) (t : State O)
      → ((a : A) (o : O) → Q a o → Q' a o)
      → ((o : O) → E o → E' o)
      → Post Q E (r, t)
      → Post Q' E' (r, t)
  Post-weaken (returned a) t h k p = h a t.self p
  Post-weaken (raised e) t h k p = k t.self p

  Post-same :
      (P : O → Type 0) (r : Result A) (t : State O) → P t.self → Post {A = A} (λ _. P) P (r, t)
  Post-same P (returned a) t p = p
  Post-same P (raised e) t p = p

module _ {O A : Type 0} {P E : O → Type 0} {Q : A → O → Type 0} where
  pub Triple-pure : (a : A) → ((o : O) → P o → Q a o) → Triple P (pure a) Q E
  Triple-pure a h = record { at = λ s p. h s.self p }

  pub Triple-raise : (e : Exception) → ((o : O) → P o → E o) → Triple P (raise e) Q E
  Triple-raise e h = record { at = λ s p. h s.self p }

  pub Triple-gets : (f : O → A) → ((o : O) → P o → Q (f o) o) → Triple P (gets f) Q E
  Triple-gets f h = record { at = λ s p. h s.self p }

  pub Triple-pre :
      {P' : O → Type 0} {m : Action O A} → ((o : O) → P' o → P o) → Triple P m Q E → Triple P' m Q E
  Triple-pre h k = record { at = λ s p. k.at s (h s.self p) }

  pub Triple-post :
      {Q' : A → O → Type 0} {E' : O → Type 0} {m : Action O A}
      → Triple P m Q E
      → ((a : A) (o : O) → Q a o → Q' a o)
      → ((o : O) → E o → E' o)
      → Triple P m Q' E'
  Triple-post {m = m} t h k = record { at = λ s p. Post-weaken (m s).0 (m s).1 h k (t.at s p) }

  pub Triple-if :
      (b : Bool) {m n : Action O A}
      → (b ≡ true → Triple P m Q E)
      → (b ≡ false → Triple P n Q E)
      → Triple P (if b then m else n) Q E
  Triple-if true km kn = km refl
  Triple-if false km kn = kn refl

module _ {O : Type 0} {P E : O → Type 0} {Q : Unit {0} → O → Type 0} where
  pub Triple-modify : (f : O → O) → ((o : O) → P o → Q tt (f o)) → Triple P (modify f) Q E
  Triple-modify f h = record { at = λ s p. h s.self p }

module _ {O : Type 0} {P : O → Type 0} where
  pub Keeps-perform : (world : World) (c : Call) → Keeps P (perform world c)
  Keeps-perform world c = record { at = λ s p. p }

module _ {O A B : Type 0} {P E : O → Type 0} {Q : A → O → Type 0} {R : B → O → Type 0} where
  pub Triple-bind :
      (m : Action O A) (f : A → Action O B)
      → Triple P m Q E
      → ((a : A) → Triple (Q a) (f a) R E)
      → Triple P (m >>= f) R E
  Triple-bind m f km kf = record {
    at = λ s p. elim (Result-cases (m s).0) [
      | inl (a, h) ↦ rw (>>=-returned m f s h) ((kf a).at (m s).1 (rw h at (km.at s p)))
      | inr (e, h) ↦ rw (>>=-raised m f s h) (rw h at (km.at s p))
    ];
  }

pub Keeps-bind :
    {O A B : Type 0} {P : O → Type 0} {m : Action O A} {f : A → Action O B}
    → Keeps P m
    → ((a : A) → Keeps P (f a))
    → Keeps P (m >>= f)
Keeps-bind {P = P} {m = m} {f = f} k kf = Triple-bind {Q = λ _. P} m f k kf

module _ {O A : Type 0} {P : O → Type 0} where
  pub Keeps-Steady : {m : Action O A} → Steady m → Keeps P m
  Keeps-Steady {m} st = record { at = λ s p. Post-same P (m s).0 (m s).1 (rw (st.same_self s) p) }

  -- A method of a part keeps what does not depend on the part.
  pub Keeps-on :
      {C : Type 0} (part : Part O C) (m : Action C A)
      → ((c : C) (o : O) → P o → P (part.put c o))
      → Keeps P (on part m)
  Keeps-on part m h = record {
    at = λ s p.
        let (r, t) = m (record { self = part.get s.self; trace = s.trace }) in
        Post-same P r (record { self = part.put t.self s.self; trace = t.trace })
          (h t.self s.self p);
  }

  pub Keeps-try :
      (m : Action O A) (handler : Exception → Action O A)
      → Keeps P m
      → ((e : Exception) → Keeps P (handler e))
      → Keeps P (try_except m handler)
  Keeps-try m handler km kh = record {
    at = λ s p. elim (Result-cases (m s).0) [
      | inl (a, h) ↦ rw (try-returned m handler s h) (rw h at (km.at s p))
      | inr (e, h) ↦ rw (try-raised m handler s h) ((kh e).at (m s).1 (rw h at (km.at s p)))
    ];
  }

module _ {O : Type 0} {P : O → Type 0} where
  pub Keeps-total : (ms : List (Action O ℤ)) → All (Keeps P) ms → Keeps P (total ms)
  unfolding total
  Keeps-total [] k = Triple-pure (pos 0) (λ o p. p)
  Keeps-total (m ∷ ms) k = Triple-bind m _ k.0 λ code.
      Triple-bind (total ms) _ (Keeps-total ms k.1) λ rest. Triple-pure (code +ℤ rest) (λ o p. p)

module _ {O A B : Type 0} where
  pub Steady-bind :
      (m : Action O A) (f : A → Action O B) → Steady m → ((a : A) → Steady (f a)) → Steady (m >>= f)
  Steady-bind m f sm sf = record {
    same_self = λ s. elim (Result-cases (m s).0) [
      | inl (a, h) ↦ rw (>>=-returned m f s h) (rw ((sf a).same_self (m s).1) (sm.same_self s))
      | inr (e, h) ↦ rw (>>=-raised m f s h) (sm.same_self s)
    ];
  }

module _ {O : Type 0} where
  pub Steady-perform : (world : World) (c : Call) → Steady {O = O} (perform world c)
  Steady-perform world c = record { same_self = λ s. refl }

module _ {O A : Type 0} where
  pub Steady-pure : (a : A) → Steady {O = O} (pure a)
  Steady-pure a = record { same_self = λ s. refl }

  pub Steady-raise : (e : Exception) → Steady {O = O} {A = A} (raise e)
  Steady-raise e = record { same_self = λ s. refl }

module _ {O A : Type 0} {P E E' : O → Type 0} {Q : A → O → Type 0} where
  -- What the body raises is left to the handler.
  pub Triple-try :
      (m : Action O A) (handler : Exception → Action O A)
      → Triple P m Q E
      → ((e : Exception) → Triple E (handler e) Q E')
      → Triple P (try_except m handler) Q E'
  Triple-try m handler km kh = record {
    at = λ s p. elim (Result-cases (m s).0) [
      | inl (a, h) ↦ rw (try-returned m handler s h) (rw h at (km.at s p))
      | inr (e, h) ↦ rw (try-raised m handler s h) ((kh e).at (m s).1 (rw h at (km.at s p)))
    ];
  }
