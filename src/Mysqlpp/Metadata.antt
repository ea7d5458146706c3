-- ===== src/Mysqlpp/Metadata.antt =====
-- Who frees the metadata of a result, in src/mysqlpp_result.cpp.
use waspp.Base.{subst, sym, ℕ, zero, suc, ◌≡◌, List, [], ◌∷◌, Option, none, some}
use waspp.Mysqlpp.Fetch.{Result, Done, done, threw}

-- The numbers below one, the greatest first.
unfoldable pub below : ℕ → List ℕ
below zero = []
below (suc n) = n ∷ below n

-- Every metadata that was made was freed, once, up to the one that is held.
abbrev IsHeld : Option ℕ → ℕ → List ℕ → Type 0
IsHeld none made freed = freed ≡ below made
IsHeld (some n) made freed = (made ≡ suc n) × (freed ≡ below n)

module _ {W : Type 0} where
  abbrev pub IsOwned : Result W → Type 0
  IsOwned r = IsHeld r.metadata r.made r.freed

  abbrev pub IsFreed : Result W → Type 0
  IsFreed r = (r.metadata ≡ none) × (r.freed ≡ below r.made)

  IsFreed-IsOwned : (r : Result W) → IsFreed r → IsOwned r
  IsFreed-IsOwned r h = subst (λ m. IsHeld m r.made r.freed) (sym h.0) h.1

  -- What holds of the result at either end.
  abbrev Ends : {A : Type 0} → (Result W → Type 0) → (Result W → Type 0) → Done W A → Type 0
  Ends P Q (done a r) = P r
  Ends P Q (threw r) = Q r
