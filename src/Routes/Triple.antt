-- ===== src/Routes/Triple.antt =====
-- What a function of a route makes of what holds before it.
use waspp.Routes.Ends.{EndsIn, Keeps}
use waspp.Routes.{Action, State, Ended, goes_on, returned, threw, ◌>>=◌, pure}

module _ {W : Type 0} where
  -- `M` of the value where the action goes on, and `E` where it ends the function.
  abbrev pub Outcome :
      {A : Type 0} → (A → State W → Type 0) → (State W → Type 0) → Ended W A → Type 0
  Outcome M E (goes_on a s) = M a s
  Outcome M E (returned s) = E s
  Outcome M E (threw s) = E s

  pub record Triple {A : Type 0} (P : State W → Type 0) (M : A → State W → Type 0)
      (E : State W → Type 0) (m : Action W A) : Type 0 where
    pub run : (s : State W) → P s → Outcome M E (m s)

  after-Outcome :
      {A B : Type 0} (M : A → State W → Type 0) (N : B → State W → Type 0) (E : State W → Type 0)
      (e : Ended W A) (f : A → Action W B)
      → Outcome M E e
      → ((a : A) (t : State W) → M a t → Outcome N E (f a t))
      → Outcome N E (elim e as (λ x. Ended W B) [
        | goes_on a t ↦ f a t
        | returned t ↦ returned t
        | threw t ↦ threw t
      ])
  after-Outcome M N E (goes_on a s) f h k = k a s h
  after-Outcome M N E (returned s) f h k = h
  after-Outcome M N E (threw s) f h k = h

  infixr 5 ◌>>=-Triple◌
  pub ◌>>=-Triple◌ :
      {A B : Type 0} {P : State W → Type 0} {M : A → State W → Type 0} {N : B → State W → Type 0}
      {E : State W → Type 0} {m : Action W A} {f : A → Action W B}
      → Triple P M E m
      → ((a : A) → Triple (M a) N E (f a))
      → Triple P N E (m >>= f)
  unfolding ◌>>=◌
  ◌>>=-Triple◌ {M = M} {N = N} {E = E} {m = m} {f = f} h k = record {
    run = λ s p. after-Outcome M N E (m s) f (h.run s p) λ a t q. (k a).run t q;
  }

  -- A fact that does not concern the state.
  pub given-Triple :
      {A : Type 0} {P : State W → Type 0} {M : A → State W → Type 0} {E : State W → Type 0}
      {Q : Type 0} {m : Action W A}
      → (Q → Triple P M E m)
      → Triple (λ s. P s × Q) M E m
  given-Triple h = record { run = λ s p. (h p.1).run s p.0 }

  -- One and the same fact wherever the function ends.
  pub Outcome-EndsIn :
      {A : Type 0} (E : State W → Type 0) (e : Ended W A) → Outcome (λ a. E) E e → EndsIn E e
  Outcome-EndsIn E (goes_on a s) h = h
  Outcome-EndsIn E (returned s) h = h
  Outcome-EndsIn E (threw s) h = h

  pub pure-Triple :
      {A : Type 0} {M : A → State W → Type 0} {E : State W → Type 0} (a : A)
      → Triple (M a) M E (pure a)
  pure-Triple a = record { run = λ s p. p }

  map-Outcome :
      {A : Type 0} (M N : A → State W → Type 0) (E : State W → Type 0) (e : Ended W A)
      → ((a : A) (s : State W) → M a s → N a s)
      → Outcome M E e
      → Outcome N E e
  map-Outcome M N E (goes_on a s) f h = f a s h
  map-Outcome M N E (returned s) f h = h
  map-Outcome M N E (threw s) f h = h

  -- Less may hold where the action goes on.
  pub map-Triple :
      {A : Type 0} {P : State W → Type 0} {M N : A → State W → Type 0} {E : State W → Type 0}
      {m : Action W A}
      → ((a : A) (s : State W) → M a s → N a s)
      → Triple P M E m
      → Triple P N E m
  map-Triple {M = M} {N = N} {E = E} {m = m} f h = record {
    run = λ s p. map-Outcome M N E (m s) f (h.run s p);
  }

  kept-Outcome :
      {A : Type 0} (P E : State W → Type 0) (e : Ended W A)
      → ((s : State W) → P s → E s)
      → EndsIn P e
      → Outcome (λ a. P) E e
  kept-Outcome P E (goes_on a s) f h = h
  kept-Outcome P E (returned s) f h = f s h
  kept-Outcome P E (threw s) f h = f s h

  -- What an action keeps holds where it goes on.
  pub Keeps-Triple :
      {A : Type 0} {P E : State W → Type 0} {m : Action W A}
      → ((s : State W) → P s → E s)
      → Keeps P m
      → Triple P (λ a. P) E m
  Keeps-Triple {P = P} {E = E} {m = m} f h = record {
    run = λ s p. kept-Outcome P E (m s) f (h.ends s p);
  }
