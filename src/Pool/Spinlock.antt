-- ===== src/Pool/Spinlock.antt =====
-- src/spinlock.hpp: threads that take turns at one lock, with any interleaving of the rounds of `lock`.
use waspp.Base.{ℕ, ◌+◌, ◌≡◌, List, [], ◌∷◌, ◌++◌, arith}

-- `state_`
pub data LockState : Type 0 where
  locked unlocked : LockState

-- A thread is elsewhere, in the loop of `lock`, or between `lock` and `unlock`.
pub data Phase : Type 0 where
  elsewhere waiting holding : Phase

pub record Spinlock : Type 0 where
  pub state : LockState
  pub threads : List Phase

-- `state_.exchange(locked)`: the old value and the new one.
unfoldable pub exchange : LockState → LockState × LockState
exchange s = (s, locked)

-- One round of the loop of `lock`: the loop goes on where the old value was `locked`.
unfoldable pub lock_round : LockState → Phase × LockState
unfolding exchange
lock_round s = elim (exchange s).0 [
  | locked ↦ (waiting, (exchange s).1)
  | unlocked ↦ (holding, (exchange s).1)
]

-- `unlock`
unfoldable pub unlock : LockState → LockState
unlock s = unlocked

pub data Step : Spinlock → Spinlock → Type 0 where
  enters :
      (s : LockState) (xs ys : List Phase)
      → Step
          (record { state = s; threads = xs ++ elsewhere ∷ ys })
          (record { state = s; threads = xs ++ waiting ∷ ys })
  rounds :
      (s : LockState) (xs ys : List Phase)
      → Step
          (record { state = s; threads = xs ++ waiting ∷ ys })
          (record { state = (lock_round s).1; threads = xs ++ (lock_round s).0 ∷ ys })
  leaves :
      (s : LockState) (xs ys : List Phase)
      → Step
          (record { state = s; threads = xs ++ holding ∷ ys })
          (record { state = unlock s; threads = xs ++ elsewhere ∷ ys })

pub data Reach (s : Spinlock) : Spinlock → Type 0 where
  here : Reach s s
  next : {t u : Spinlock} → Reach s t → Step t u → Reach s u

-- How many threads hold the lock.
abbrev holds : Phase → ℕ
holds elsewhere = 0
holds waiting = 0
holds holding = 1

unfoldable pub holders : List Phase → ℕ
holders [] = 0
holders (p ∷ ps) = holds p + holders ps

abbrev as_number : LockState → ℕ
as_number locked = 1
as_number unlocked = 0

-- One thread holds the lock where it is locked, and none where it is unlocked.
abbrev pub IsExclusive : Spinlock → Type 0
IsExclusive s = holders s.threads ≡ as_number s.state

holders-append : (xs ys : List Phase) → holders (xs ++ ys) ≡ holders xs + holders ys
unfolding holders
holders-append [] ys = omega arith
holders-append (x ∷ xs) ys = omega (arith, holders-append xs ys)

holders-middle :
    (xs ys : List Phase) (p : Phase) → holders (xs ++ p ∷ ys) ≡ holds p + (holders xs + holders ys)
unfolding holders
holders-middle xs ys p = omega (arith, holders-append xs (p ∷ ys))

round-IsExclusive :
    (s : LockState) (xs ys : List Phase)
    → holders (xs ++ waiting ∷ ys) ≡ as_number s
    → holders (xs ++ (lock_round s).0 ∷ ys) ≡ as_number (lock_round s).1
unfolding lock_round exchange
round-IsExclusive locked xs ys h = h
round-IsExclusive unlocked xs ys h =
    omega (arith, h, holders-middle xs ys waiting, holders-middle xs ys holding)

leave-IsExclusive :
    (s : LockState) (xs ys : List Phase)
    → holders (xs ++ holding ∷ ys) ≡ as_number s
    → holders (xs ++ elsewhere ∷ ys) ≡ 0
leave-IsExclusive locked xs ys h =
    omega (arith, h, holders-middle xs ys holding, holders-middle xs ys elsewhere)
leave-IsExclusive unlocked xs ys h = absurd (omega (arith, h, holders-middle xs ys holding))

Step-IsExclusive : {s t : Spinlock} → Step s t → IsExclusive s → IsExclusive t
unfolding unlock
Step-IsExclusive (enters s xs ys) h =
    omega (arith, h, holders-middle xs ys elsewhere, holders-middle xs ys waiting)
Step-IsExclusive (rounds s xs ys) h = round-IsExclusive s xs ys h
Step-IsExclusive (leaves s xs ys) h = leave-IsExclusive s xs ys h

-- From a state in which one thread holds the lock where it is locked and none where it is unlocked,
-- every interleaving of the rounds of `lock` and of `unlock` keeps this.
pub Reach-IsExclusive : {s t : Spinlock} → IsExclusive s → Reach s t → IsExclusive t
Reach-IsExclusive h here = h
Reach-IsExclusive h (next r st) = Step-IsExclusive st (Reach-IsExclusive h r)
