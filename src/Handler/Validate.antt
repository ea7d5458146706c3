-- ===== src/Handler/Validate.antt =====
-- `percent_decode_and_validate` of src/request_handler.cpp.
pub mod RoundTrip
use mathlib.Core.Option
use waspp.Base.{
  ℕ, zero, suc, ◌+◌, ◌-◌, ◌*◌, ◌%◌, Bool, ◌&&◌, ◌||◌, [], ◌∷◌, ltb, ◌==◌, if◌then◌else◌, Bytes,
  Option, none, some,
}
use waspp.Strtol.{is_space, digit_value}

abbrev is_hex : ℕ → Bool
is_hex c = ltb (digit_value c) 16

-- `std::istringstream is(two bytes); is >> std::hex >> value`, as the byte that `value` is cast to:
-- white space is skipped, a sign is taken, and a second byte that is no digit ends the number. `0x`
-- is a prefix without digits.
unfoldable pub extract_hex : ℕ → ℕ → Option ℕ
extract_hex a b =
    if is_space a || (a == b'+')
    then (if is_hex b then some (digit_value b) else none)
    else if a == b'-'
    then (if is_hex b then some ((256 - digit_value b) % 256) else none)
    else if is_hex a && is_hex b
    then some (digit_value a * 16 + digit_value b)
    else if is_hex a
    then (if (a == b'0') && ((b == b'x') || (b == b'X')) then none else some (digit_value a))
    else none

-- What one round appends, and how far it moves the index beyond its own byte; `none` is
-- `return false`.
unfoldable pub validate_byte : ℕ → Bytes → Option (ℕ × ℕ)
unfolding extract_hex
validate_byte c (a ∷ b ∷ cs) =
    if c == b'%'
    then Option.map (λ v. (v, 2)) (extract_hex a b)
    else if c == b'+'
    then some (b' ', 0)
    else some (c, 0)
validate_byte c _ = if c == b'%' then none else if c == b'+' then some (b' ', 0) else some (c, 0)

unfoldable pub validate_from : ℕ → Bytes → Option Bytes
unfolding validate_byte
validate_from skip [] = some []
validate_from (suc skip) (c ∷ cs) = validate_from skip cs
validate_from zero (c ∷ cs) = elim (validate_byte c cs) [
  | none ↦ none
  | some (v, skip) ↦ Option.map (◌∷◌ v) (validate_from skip cs)
]

-- `out`, or `none` where the function returns false.
unfoldable pub percent_decode_and_validate : Bytes → Option Bytes
unfolding validate_from
percent_decode_and_validate = validate_from 0
