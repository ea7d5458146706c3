-- ===== src/Utility/Base64.antt =====
-- `base64_encode` and `base64_decode` of src/utility.cpp. The loops fill an array of three, or four,
-- bytes and work it off when it is full: here the input is taken by threes, or fours, and what is left
-- over is the array at the end of the loop.
pub mod Tables
pub mod RoundTrip
use Prim.Native.Nat.{bit_and}
use waspp.Base.{
  ℕ, zero, suc, ◌+◌, ◌*◌, ◌/◌, ◌%◌, Bool, not, ◌&&◌, ◌||◌, [], ◌∷◌, ◌++◌, Option, none, some,
  within, ◌==◌, if◌then◌else◌, Bytes, codes, find, take, length, ◌^◌,
}

abbrev pub base64_chars : Bytes
base64_chars = codes "ABCDEFGHIJKLMNOPQRSTUVWXYZabcdefghijklmnopqrstuvwxyz0123456789+/"

-- `base64_chars[i]`; every index is below 64.
abbrev at : Bytes → ℕ → ℕ
at [] i = 0
at (c ∷ cs) zero = c
at (c ∷ cs) (suc i) = at cs i

unfoldable pub to_char : ℕ → ℕ
to_char i = at base64_chars i

unfoldable pub is_base64 : ℕ → Bool
is_base64 c =
    within b'0' b'9' c || within b'A' b'Z' c || within b'a' b'z' c || (c == b'+') || (c == b'/')

-- `(unsigned char)base64_chars.find(c)`; `npos` is all ones.
abbrev byte_of : Option ℕ → ℕ
byte_of none = 255
byte_of (some i) = i

unfoldable pub of_char : ℕ → ℕ
of_char c = byte_of (find base64_chars (c ∷ []))

-- The four indices of `char_array_4`, each an `unsigned char`.
abbrev index0 : ℕ → ℕ
index0 a = bit_and a 0xfc / 4

abbrev index1 : ℕ → ℕ → ℕ
index1 a b = (bit_and a 0x03 * 16 + bit_and b 0xf0 / 16) % 256

abbrev index2 : ℕ → ℕ → ℕ
index2 b c = (bit_and b 0x0f * 4 + bit_and c 0xc0 / 64) % 256

abbrev index3 : ℕ → ℕ
index3 c = bit_and c 0x3f

-- The loop over the bytes.
unfoldable pub encode_groups : Bytes → Bytes
encode_groups [] = []
encode_groups (a ∷ []) = to_char (index0 a) ∷ to_char (index1 a 0) ∷ b'=' ∷ b'=' ∷ []
encode_groups (a ∷ b ∷ []) =
    to_char (index0 a) ∷ to_char (index1 a b) ∷ to_char (index2 b 0) ∷ b'=' ∷ []
encode_groups (a ∷ b ∷ c ∷ cs) =
    to_char (index0 a)
    ∷ to_char (index1 a b)
    ∷ to_char (index2 b c)
    ∷ to_char (index3 c)
    ∷ encode_groups cs

-- `in_len` is an `unsigned int`, which keeps 32 bits of the size.
unfoldable pub base64_encode : Bytes → Bytes
unfolding encode_groups
base64_encode s = encode_groups (take (length s % 2 ^ 32) s)

-- The bytes up to the first one that ends the loop: padding, or no character of the alphabet.
unfoldable pub base64_prefix : Bytes → Bytes
base64_prefix [] = []
base64_prefix (c ∷ cs) =
    let rest = base64_prefix cs in if not (c == b'=') && is_base64 c then c ∷ rest else []

-- `char_array_3` from the four values, each an `unsigned char`.
abbrev byte0 : ℕ → ℕ → ℕ
byte0 p q = (p * 4 + bit_and q 0x30 / 16) % 256

abbrev byte1 : ℕ → ℕ → ℕ
byte1 q r = (bit_and q 0xf * 16 + bit_and r 0x3c / 4) % 256

abbrev byte2 : ℕ → ℕ → ℕ
byte2 r s = (bit_and r 0x3 * 64 + s) % 256

-- One character left over gives no byte; `i` characters give `i - 1`.
unfoldable pub decode_groups : Bytes → Bytes
decode_groups (p ∷ q ∷ r ∷ s ∷ cs) =
    byte0 (of_char p) (of_char q)
    ∷ byte1 (of_char q) (of_char r)
    ∷ byte2 (of_char r) (of_char s)
    ∷ decode_groups cs
decode_groups (p ∷ q ∷ r ∷ []) = byte0 (of_char p) (of_char q) ∷ byte1 (of_char q) (of_char r) ∷ []
decode_groups (p ∷ q ∷ []) = byte0 (of_char p) (of_char q) ∷ []
decode_groups (p ∷ []) = []
decode_groups [] = []

-- `in_len` is an `int`, as its 32-bit pattern, which is counted down to 0.
unfoldable pub base64_decode : Bytes → Bytes
unfolding decode_groups base64_prefix
base64_decode s = decode_groups (base64_prefix (take (length s % 2 ^ 32) s))
