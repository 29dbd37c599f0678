-- ===== src/Effects/Steps.antt =====
-- How a chain of actions goes on, by how its first action ends.
use iot_lab_gateway.Prelude.{◌≡◌, refl, ◌⊎◌, inl, inr}
use iot_lab_gateway.Effects.{State, Result, returned, raised, Exception, Action, ◌>>=◌, try_except}

pub Result-cases :
    {A : Type 0} (r : Result A) → ((a : A) × (r ≡ returned a)) ⊎ ((e : Exception) × (r ≡ raised e))
Result-cases (returned a) = inl (a, refl)
Result-cases (raised e) = inr (e, refl)

module _ {O A B : Type 0} where
  pub >>=-returned :
      (m : Action O A) (f : A → Action O B) (s : State O) {a : A}
      → (m s).0 ≡ returned a
      → (m >>= f) s ≡ f a (m s).1
  >>=-returned m f s h =
      λ i. elim (h i) [ returned a ↦ f a (m s).1 | raised e ↦ (raised e, (m s).1) ]

  pub >>=-raised :
      (m : Action O A) (f : A → Action O B) (s : State O) {e : Exception}
      → (m s).0 ≡ raised e
      → (m >>= f) s ≡ (raised e, (m s).1)
  >>=-raised m f s h = λ i. elim (h i) [ returned a ↦ f a (m s).1 | raised e ↦ (raised e, (m s).1) ]

module _ {O A : Type 0} where
  pub try-returned :
      (m : Action O A) (handler : Exception → Action O A) (s : State O) {a : A}
      → (m s).0 ≡ returned a
      → try_except m handler s ≡ (returned a, (m s).1)
  try-returned m handler s h =
      λ i. elim (h i) [ returned a ↦ (returned a, (m s).1) | raised e ↦ handler e (m s).1 ]

  pub try-raised :
      (m : Action O A) (handler : Exception → Action O A) (s : State O) {e : Exception}
      → (m s).0 ≡ raised e
      → try_except m handler s ≡ handler e (m s).1
  try-raised m handler s h =
      λ i. elim (h i) [ returned a ↦ (returned a, (m s).1) | raised e ↦ handler e (m s).1 ]
