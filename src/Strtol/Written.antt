-- ===== src/Strtol/Written.antt =====
-- `strtoull` of what `std::to_string` writes, as src/route_dir_forum.cpp reads the number of a user that
-- src/route_dir_user.cpp has put into the session.
use waspp.Base.{
  is_empty, ◌||◌, ◌&&◌, subst, sym, ℕ, zero, suc, ◌+◌, ◌/◌, ◌%◌, ◌^◌, ◌≤◌, ◌<◌, ◌≡◌, refl, ap, ◌∙◌,
  inl, inr, Bool, true, false, [], ◌∷◌, Bytes, if◌then◌else◌, ◌==◌, ltb, Bool-cases, arith,
}
use waspp.Strtol.{digit_value, read_digits, read_prefixed, read_signed, skip_spaces}
use waspp.Response.Decimal.{digits_onto, to_string, read_decimal, read_decimal-to_string}
use waspp.Config.Init.{strtoull}

-- A text whose first byte is a digit from 1 to 9.
record StartsAbove (s : Bytes) : Type 0 where
  pub first : ℕ
  pub rest : Bytes
  pub same : s ≡ (48 + first) ∷ rest
  pub positive : 1 ≤ first
  pub digit : first < 10

digits_onto-StartsAbove :
    (fuel n : ℕ) (rest : Bytes) → n < fuel → 1 ≤ n → StartsAbove (digits_onto fuel n rest)
unfolding digits_onto
digits_onto-StartsAbove zero n rest h k = absurd (omega arith)
digits_onto-StartsAbove (suc fuel) n rest h k = elim (Bool-cases (ltb n 10)) [
  | inl small ↦ rw small (record {
    first = n % 10;
    rest = rest;
    same = refl;
    positive = ground arith;
    digit = omega arith;
  })
  | inr large ↦
      rw large
        (digits_onto-StartsAbove fuel (n / 10) ((48 + n % 10) ∷ rest) (ground arith) (ground arith))
]

not_zero : (first : ℕ) → 1 ≤ first → ((48 + first) == b'0') ≡ false
not_zero first h = ground arith

decimal_base :
    (is_zero is_x is_hex : Bool) (hex : ℕ) (s : Bytes)
    → is_zero ≡ false
    → (if is_zero && is_x && is_hex then hex else read_digits (if is_zero then 8 else 10) 0 s)
      ≡ read_digits 10 0 s
decimal_base false is_x is_hex hex s h = refl
decimal_base true is_x is_hex hex s h = absurd (ground arith)

-- Such a text is read in base 10, has no spaces in front, and no sign.
read_prefixed-decimal :
    (first : ℕ) (rest : Bytes)
    → 1 ≤ first
    → read_prefixed ((48 + first) ∷ rest) ≡ read_digits 10 0 ((48 + first) ∷ rest)
unfolding read_prefixed
read_prefixed-decimal first [] h = rw (not_zero first h)
read_prefixed-decimal first (x ∷ []) h = rw (not_zero first h)
read_prefixed-decimal first (x ∷ y ∷ rest) h =
    decimal_base ((48 + first) == b'0') ((x == b'x') || (x == b'X')) (ltb (digit_value y) 16)
      (read_digits 16 0 (y ∷ rest)) ((48 + first) ∷ x ∷ y ∷ rest) (not_zero first h)

skip_spaces-digit :
    (first : ℕ) (rest : Bytes)
    → first < 10
    → skip_spaces ((48 + first) ∷ rest) ≡ (48 + first) ∷ rest
unfolding skip_spaces
skip_spaces-digit first rest h = ground arith

read_signed-digit :
    (first : ℕ) (rest : Bytes)
    → first < 10
    → read_signed ((48 + first) ∷ rest) ≡ (false, read_prefixed ((48 + first) ∷ rest))
unfolding read_signed
read_signed-digit first rest h = ground arith

read-StartsAbove :
    (s : Bytes) → StartsAbove s → read_signed (skip_spaces s) ≡ (false, read_digits 10 0 s)
read-StartsAbove s h =
    subst (λ t. read_signed (skip_spaces t) ≡ (false, read_digits 10 0 t)) (sym h.same)
      (ap read_signed (skip_spaces-digit h.first h.rest h.digit)
        ∙ read_signed-digit h.first h.rest h.digit
        ∙ ap (λ v. (false, v)) (read_prefixed-decimal h.first h.rest h.positive))

pub read-to_string : (n : ℕ) → 1 ≤ n → read_signed (skip_spaces (to_string n)) ≡ (false, n)
unfolding to_string read_decimal
read-to_string n h =
    read-StartsAbove (to_string n) (digits_onto-StartsAbove (suc n) n [] (omega arith) h)
    ∙ ap (λ v. (false, v)) (read_decimal-to_string n)

zero_read : strtoull (to_string 0) ≡ 0
unfolding strtoull to_string digits_onto skip_spaces read_signed read_prefixed read_digits
zero_read = refl

-- `strtoull` reads back every number below 2 ^ 64 that `std::to_string` writes.
pub strtoull-to_string : (n : ℕ) → n < 2 ^ 64 → strtoull (to_string n) ≡ n
unfolding strtoull
strtoull-to_string zero h = zero_read
strtoull-to_string (suc n) h = ground (arith, read-to_string (suc n))

-- A number is not written as an empty text.
pub is_empty-to_string : (n : ℕ) → is_empty (to_string n) ≡ false
unfolding to_string digits_onto
is_empty-to_string zero = refl
is_empty-to_string (suc n) =
    ap is_empty (digits_onto-StartsAbove (suc (suc n)) (suc n) [] (omega arith) (omega arith)).same
