-- ===== src/Utility/Percent.antt =====
-- `char2hex`, `hex2char`, `percent_encode` and `percent_decode` of src/utility.cpp, on the bytes of a
-- string.
pub mod Hex
pub mod RoundTrip
use Prim.Native.Nat.{bit_and}
use waspp.Base.{
  ℕ, zero, suc, ◌+◌, ◌-◌, ◌*◌, ◌/◌, ◌%◌, Bool, ◌&&◌, ◌||◌, [], ◌∷◌, ◌++◌, Option, none, some, ltb,
  leb, within, ◌==◌, if◌then◌else◌, Bytes, codes,
}

-- The digit of a value below 16: `v += v > 9 ? 'A' - 10 : '0'`.
abbrev pub to_digit : ℕ → ℕ
to_digit v = v + (if ltb 9 v then b'A' - 10 else b'0')

unfoldable pub char2hex : ℕ → Bytes
char2hex c = to_digit (bit_and c 0xf0 / 16) ∷ to_digit (bit_and c 0x0f) ∷ []

-- The value of a digit, modulo 256. A byte from 128 on is a negative `char`, so that it is not
-- at least 'A'; `x - k` is `x + 256 - k` there.
abbrev of_digit : ℕ → ℕ
of_digit c =
    if leb b'A' c && ltb c 128 then bit_and c 0xdf + 10 - b'A' else (c + (256 - b'0')) % 256

unfoldable pub hex2char : ℕ → ℕ → ℕ
hex2char first second = (of_digit first * 16 + of_digit second) % 256

-- The bytes that `percent_encode` lets through: letters, digits and marks.
unfoldable pub is_unreserved : ℕ → Bool
is_unreserved c =
    within b'A' b'Z' c
    || within b'a' b'z' c
    || within b'0' b'9' c
    || (c == b'-')
    || (c == b'_')
    || (c == b'.')
    || (c == b'!')
    || (c == b'~')
    || (c == b'*')
    || (c == b'\'')
    || (c == b'(')
    || (c == b')')

unfoldable pub encode_byte : ℕ → Bytes
encode_byte c =
    if c == b' ' then codes "%20" else if is_unreserved c then c ∷ [] else b'%' ∷ char2hex c

unfoldable pub percent_encode : Bytes → Bytes
percent_encode [] = []
percent_encode (c ∷ cs) = encode_byte c ++ percent_encode cs

-- `std::isxdigit`
unfoldable pub is_xdigit : ℕ → Bool
is_xdigit c = within b'0' b'9' c || within b'A' b'F' c || within b'a' b'f' c

-- The byte that two hexadecimal digits behind a percent sign stand for. With one byte left the
-- source reads the terminating zero, which is no digit.
unfoldable pub escape? : Bytes → Option ℕ
escape? (a ∷ b ∷ cs) = if is_xdigit a && is_xdigit b then some (hex2char a b) else none
escape? _ = none

-- What one round of the loop appends, and how far it moves the iterator beyond its own byte.
unfoldable pub decode_byte : ℕ → Bytes → ℕ × ℕ
decode_byte c cs =
    if c == b'+'
    then (b' ', 0)
    else if c == b'%'
    then elim (escape? cs) [ some v ↦ (v, 2) | none ↦ (b'%', 0) ]
    else (c, 0)

-- `skip` bytes were consumed by the round before.
unfoldable pub decode_from : ℕ → Bytes → Bytes
decode_from skip [] = []
decode_from (suc skip) (c ∷ cs) = decode_from skip cs
decode_from zero (c ∷ cs) = (decode_byte c cs).0 ∷ decode_from (decode_byte c cs).1 cs

unfoldable pub percent_decode : Bytes → Bytes
percent_decode = decode_from 0
