-- ===== src/Response/Decimal.antt =====
-- `std::to_string` of an unsigned number, and what reading it back gives.
use waspp.Base.{
  ℕ, zero, suc, ◌+◌, ◌*◌, ◌/◌, ◌%◌, ◌<◌, ◌≡◌, ap, ◌∙◌, [], ◌∷◌, Bytes, inl, inr, if◌then◌else◌, ltb,
  Bool-cases, arith,
}
use waspp.Strtol.{digit_value, read_digits}

-- The digits of `n` in front of `rest`; `n + 1` rounds are enough.
unfoldable pub digits_onto : ℕ → ℕ → Bytes → Bytes
digits_onto zero n rest = rest
digits_onto (suc fuel) n rest =
    let more = digits_onto fuel (n / 10) ((48 + n % 10) ∷ rest) in
    if ltb n 10 then (48 + n % 10) ∷ rest else more

unfoldable pub to_string : ℕ → Bytes
unfolding digits_onto
to_string n = digits_onto (suc n) n []

-- The number that decimal digits write.
unfoldable pub read_decimal : Bytes → ℕ
unfolding read_digits
read_decimal s = read_digits 10 0 s

digit_value_of : (d : ℕ) → d < 10 → digit_value (48 + d) ≡ d
digit_value_of d h = ground arith

read_digit :
    (acc d : ℕ) (rest : Bytes)
    → d < 10
    → read_digits 10 acc ((48 + d) ∷ rest) ≡ read_digits 10 (acc * 10 + d) rest
unfolding read_digits
read_digit acc d rest h = ground (arith, digit_value_of d h)

read_digits_onto :
    (fuel n : ℕ) (rest : Bytes)
    → n < fuel
    → read_digits 10 0 (digits_onto fuel n rest) ≡ read_digits 10 n rest
unfolding digits_onto
read_digits_onto zero n rest h = absurd (omega arith)
read_digits_onto (suc fuel) n rest h = elim (Bool-cases (ltb n 10)) [
  | inl small ↦
      rw small
        (read_digit 0 (n % 10) rest (omega arith) ∙ ap (λ k. read_digits 10 k rest) (ground arith))
  | inr large ↦ rw large (
      read_digits_onto fuel (n / 10) ((48 + n % 10) ∷ rest) (ground arith)
      ∙ read_digit (n / 10) (n % 10) rest (omega arith)
      ∙ ap (λ k. read_digits 10 k rest) (omega arith))
]

-- Reading undoes writing.
pub read_decimal-to_string : (n : ℕ) → read_decimal (to_string n) ≡ n
read_decimal-to_string n =
    unfold read_decimal to_string in read_digits_onto (suc n) n [] (omega arith)
