-- ===== src/Fields/Outcome.antt =====
-- How one of these functions ends.
use waspp.Base.{◌≡◌, refl, ◌⊎◌, inl, inr}
use waspp.Request.{Request}

-- Besides a normal return: `std::runtime_error("invalid part header")`, and undefined behaviour.
pub data Outcome : Type 0 where
  done : Request → Outcome
  invalid_part_header : Outcome
  undefined : Outcome

infixl 5 ◌>>=◌
abbrev pub ◌>>=◌ : Outcome → (Request → Outcome) → Outcome
done r >>= f = f r
invalid_part_header >>= f = invalid_part_header
undefined >>= f = undefined

pub Outcome-cases :
    (o : Outcome) → ((req : Request) × (o ≡ done req)) ⊎ (o ≡ invalid_part_header) ⊎ (o ≡ undefined)
Outcome-cases (done req) = inl (req, refl)
Outcome-cases invalid_part_header = inr (inl refl)
Outcome-cases undefined = inr (inr refl)
