-- ===== src/Utility/Percent/Hex.antt =====
-- The two hexadecimal digits of a byte, by the table of all bytes.
use Prim.Native.Nat.{bit_and}
use waspp.Base.{
  ℕ, ◌/◌, ◌<◌, ◌≡◌, refl, true, Bool, ◌&&◌, not, [], ◌∷◌, ◌==◌, Bytes, all_below, all_below_sound,
  arith,
}
use waspp.Utility.Percent.{char2hex, hex2char, to_digit, is_xdigit, is_unreserved}

abbrev reads_back : Bytes → ℕ → Bool
reads_back (a ∷ b ∷ _) c =
    (hex2char a b == c) && is_xdigit a && is_xdigit b && is_unreserved a && is_unreserved b
reads_back _ c = not true

hex_table : all_below 256 (λ c. reads_back (char2hex c) c) ≡ true
unfolding all_below char2hex hex2char is_xdigit is_unreserved
hex_table = refl

-- What stands behind the percent sign of an encoded byte.
pub record IsHexOf (c : ℕ) (s : Bytes) : Type 0 where
  pub first : ℕ
  pub second : ℕ
  pub splits : s ≡ first ∷ second ∷ []
  pub value : hex2char first second ≡ c
  pub digits : (is_xdigit first ≡ true) × (is_xdigit second ≡ true)
  pub unreserved : (is_unreserved first ≡ true) × (is_unreserved second ≡ true)

-- `hex2char` undoes `char2hex` on every byte, and what lies between are two hexadecimal digits.
pub char2hex-IsHexOf : (c : ℕ) → c < 256 → IsHexOf c (char2hex c)
unfolding char2hex
char2hex-IsHexOf c h =
    let t = all_below_sound 256 (λ c. reads_back (char2hex c) c) c hex_table h in
    record {
      first = to_digit (bit_and c 0xf0 / 16);
      second = to_digit (bit_and c 0x0f);
      splits = refl;
      value = ground (arith, t);
      digits = ground (arith, t);
      unreserved = ground (arith, t);
    }
