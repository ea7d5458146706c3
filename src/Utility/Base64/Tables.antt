-- ===== src/Utility/Base64/Tables.antt =====
-- The alphabet and the masks of base64, by tables over all values.
use Prim.Native.Nat.{bit_and}
use waspp.Base.{
  ℕ, ◌*◌, ◌/◌, ◌%◌, ◌<◌, ◌≡◌, refl, true, Bool, not, ◌&&◌, ◌==◌, all_below, all_below_sound, find,
  arith,
}
use waspp.Utility.Base64.{to_char, of_char, is_base64}

char_table :
    all_below 64
      (λ i. (of_char (to_char i) == i) && (not (to_char i == b'=') && is_base64 (to_char i)))
    ≡ true
unfolding all_below to_char of_char is_base64 find
char_table = refl

-- The alphabet has 64 different characters, each of which the decoder takes.
pub of_char-to_char : (i : ℕ) → i < 64 → of_char (to_char i) ≡ i
of_char-to_char i h = ground (
  arith,
  all_below_sound 64
      (λ i. (of_char (to_char i) == i) && (not (to_char i == b'=') && is_base64 (to_char i))) i
      char_table h,
)

pub to_char-is_base64 : (i : ℕ) → i < 64 → (not (to_char i == b'=') && is_base64 (to_char i)) ≡ true
to_char-is_base64 i h = ground (
  arith,
  all_below_sound 64
      (λ i. (of_char (to_char i) == i) && (not (to_char i == b'=') && is_base64 (to_char i))) i
      char_table h,
)

abbrev masks : ℕ → Bool
masks a =
    (bit_and a 0xfc == a / 4 * 4)
    && (bit_and a 0x03 == a % 4)
    && (bit_and a 0xf0 == a / 16 * 16)
    && (bit_and a 0x0f == a % 16)
    && (bit_and a 0xc0 == a / 64 * 64)
    && (bit_and a 0x3f == a % 64)
    && (bit_and a 0x30 == a % 64 / 16 * 16)
    && (bit_and a 0x3c == a % 64 / 4 * 4)

mask_table : all_below 256 masks ≡ true
unfolding all_below
mask_table = refl

-- Each mask of the code, on a byte, as a quotient or a remainder.
pub record HasMasks (a : ℕ) : Type 0 where
  pub mask_fc : bit_and a 0xfc ≡ a / 4 * 4
  pub mask_03 : bit_and a 0x03 ≡ a % 4
  pub mask_f0 : bit_and a 0xf0 ≡ a / 16 * 16
  pub mask_0f : bit_and a 0x0f ≡ a % 16
  pub mask_c0 : bit_and a 0xc0 ≡ a / 64 * 64
  pub mask_3f : bit_and a 0x3f ≡ a % 64
  pub mask_30 : bit_and a 0x30 ≡ a % 64 / 16 * 16
  pub mask_3c : bit_and a 0x3c ≡ a % 64 / 4 * 4

pub byte-HasMasks : (a : ℕ) → a < 256 → HasMasks a
byte-HasMasks a h = ground (arith, all_below_sound 256 masks a mask_table h)
