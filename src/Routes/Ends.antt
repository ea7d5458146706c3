-- ===== src/Routes/Ends.antt =====
-- What holds of a function's state, however the function ends.
use waspp.Base.{Bool, true, false, Option, none, some}
use waspp.Routes.{Action, State, Ended, goes_on, returned, threw, ◌>>=◌, pure, leave_if, or_throw}

module _ {W : Type 0} (P : State W → Type 0) where
  abbrev pub EndsIn : {A : Type 0} → Ended W A → Type 0
  EndsIn (goes_on a s) = P s
  EndsIn (returned s) = P s
  EndsIn (threw s) = P s

  -- An action keeps `P` when every end of it has it.
  pub record Keeps {A : Type 0} (m : Action W A) : Type 0 where
    pub ends : (s : State W) → P s → EndsIn (m s)

module _ {W : Type 0} {P : State W → Type 0} where
  after-EndsIn :
      {A B : Type 0} (e : Ended W A) (f : A → Action W B)
      → EndsIn P e
      → ((a : A) (t : State W) → P t → EndsIn P (f a t))
      → EndsIn P (elim e as (λ x. Ended W B) [
        | goes_on a t ↦ f a t
        | returned t ↦ returned t
        | threw t ↦ threw t
      ])
  after-EndsIn (goes_on a s) f h k = k a s h
  after-EndsIn (returned s) f h k = h
  after-EndsIn (threw s) f h k = h

  infixr 5 ◌>>=-Keeps◌
  -- One action after another.
  pub ◌>>=-Keeps◌ :
      {A B : Type 0} {m : Action W A} {f : A → Action W B}
      → Keeps P m
      → ((a : A) → Keeps P (f a))
      → Keeps P (m >>= f)
  unfolding ◌>>=◌
  ◌>>=-Keeps◌ {m = m} {f = f} h k = record {
    ends = λ s p. after-EndsIn (m s) f (h.ends s p) λ a. (k a).ends;
  }

  pub pure-Keeps : {A : Type 0} (a : A) → Keeps P (pure a)
  pure-Keeps a = record { ends = λ s p. p }

  pub leave_if-Keeps : (c : Bool) {m : Action W (Unit {0})} → Keeps P m → Keeps P (leave_if c m)
  unfolding leave_if ◌>>=◌
  leave_if-Keeps false h = record { ends = λ s p. p }
  leave_if-Keeps true {m = m} h = record {
    ends = λ s p. after-EndsIn (m s) (λ a t. returned t) (h.ends s p) λ a t q. q;
  }

  pub or_throw-Keeps : {A : Type 0} (a : Option A) → Keeps P (or_throw a)
  unfolding or_throw
  or_throw-Keeps none = record { ends = λ s p. p }
  or_throw-Keeps (some a) = record { ends = λ s p. p }

pub EndsIn-map :
    {W A : Type 0} (P R : State W → Type 0) (e : Ended W A)
    → ((s : State W) → P s → R s)
    → EndsIn P e
    → EndsIn R e
EndsIn-map P R (goes_on a s) f h = f s h
EndsIn-map P R (returned s) f h = f s h
EndsIn-map P R (threw s) f h = f s h
