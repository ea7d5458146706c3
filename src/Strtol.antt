-- ===== src/Strtol.antt =====
-- `strtol(s.c_str(), nullptr, 0)` of the C library, and what an `int` keeps of it.
pub mod Written
use Prim.Native.Nat.{min}
use waspp.Base.{
  ℕ, ◌+◌, ◌-◌, ◌*◌, ◌%◌, ◌^◌, Bool, true, false, ◌&&◌, ◌||◌, [], ◌∷◌, ltb, within, ◌==◌,
  if◌then◌else◌, Bytes,
}

-- `std::isspace` in the C locale.
abbrev pub is_space : ℕ → Bool
is_space c = (c == 32) || within 9 13 c

-- The value of a digit; 36 for any other byte.
abbrev pub digit_value : ℕ → ℕ
digit_value c =
    if within b'0' b'9' c
    then c - 48
    else if within b'a' b'z' c
    then c - 87
    else if within b'A' b'Z' c
    then c - 55
    else 36

unfoldable pub skip_spaces : Bytes → Bytes
skip_spaces [] = []
skip_spaces (c ∷ cs) = if is_space c then skip_spaces cs else c ∷ cs

-- The digits of `base` that stand first, onto the value read so far.
unfoldable pub read_digits : ℕ → ℕ → Bytes → ℕ
read_digits base acc [] = acc
read_digits base acc (c ∷ cs) =
    let rest = read_digits base (acc * base + digit_value c) cs in
    if ltb (digit_value c) base then rest else acc

-- A minus sign or not, and the magnitude. Base 0: a prefix `0x` before a hexadecimal digit, or `0`.
unfoldable pub read_prefixed : Bytes → ℕ
unfolding read_digits
read_prefixed (zero_digit ∷ x ∷ h ∷ cs) =
    if (zero_digit == b'0') && ((x == b'x') || (x == b'X')) && ltb (digit_value h) 16
    then read_digits 16 0 (h ∷ cs)
    else read_digits (if zero_digit == b'0' then 8 else 10) 0 (zero_digit ∷ x ∷ h ∷ cs)
read_prefixed (c ∷ cs) = read_digits (if c == b'0' then 8 else 10) 0 (c ∷ cs)
read_prefixed [] = 0

unfoldable pub read_signed : Bytes → Bool × ℕ
unfolding read_prefixed
read_signed [] = (false, 0)
read_signed (c ∷ cs) =
    if c == b'-'
    then (true, read_prefixed cs)
    else if c == b'+'
    then (false, read_prefixed cs)
    else (false, read_prefixed (c ∷ cs))

-- The 32-bit pattern of `(int)strtol(s, nullptr, 0)`: a `long` has 64 bits, and out of its range the
-- result is the nearest end.
unfoldable pub strtol_int : Bytes → ℕ
unfolding skip_spaces read_signed
strtol_int s =
    let (negative, value) = read_signed (skip_spaces s) in
    if negative
    then (2 ^ 32 - min value (2 ^ 63) % 2 ^ 32) % 2 ^ 32
    else min value (2 ^ 63 - 1) % 2 ^ 32
