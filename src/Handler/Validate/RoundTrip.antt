-- ===== src/Handler/Validate/RoundTrip.antt =====
-- The decoding of the path undoes `percent_encode`.
use Prim.Native.Nat.{bit_and}
use mathlib.Core.Option
use waspp.Base.{
  ℕ, ◌/◌, ◌<◌, ◌≡◌, refl, sym, ap, ◌∙◌, Bool, true, false, inl, inr, [], ◌∷◌, ◌++◌, ◌==◌, Bytes,
  IsBytes, Option, none, some, all_below, all_below_sound, Bool-cases, arith,
}
use waspp.Utility.Percent.{char2hex, to_digit, is_unreserved, encode_byte, percent_encode}
use waspp.Handler.Validate.{extract_hex, validate_byte, validate_from, percent_decode_and_validate}

abbrev extracts : ℕ → Option ℕ → Bool
extracts c none = false
extracts c (some v) = v == c

abbrev digits_extract : ℕ → Bool
digits_extract c =
    extracts c (extract_hex (to_digit (bit_and c 0xf0 / 16)) (to_digit (bit_and c 0x0f)))

hex_table : all_below 256 digits_extract ≡ true
unfolding all_below extract_hex
hex_table = refl

extracts-some : (c : ℕ) (o : Option ℕ) → extracts c o ≡ true → o ≡ some c
extracts-some c none h = cc
extracts-some c (some v) h = ground arith

extract_hex-char2hex :
    (c : ℕ)
    → c < 256
    → extract_hex (to_digit (bit_and c 0xf0 / 16)) (to_digit (bit_and c 0x0f)) ≡ some c
extract_hex-char2hex c h = extracts-some c _ (all_below_sound 256 digits_extract c hex_table h)

validate_escape :
    (a b c : ℕ) (rest : Bytes)
    → extract_hex a b ≡ some c
    → validate_from 0 (b'%' ∷ a ∷ b ∷ rest) ≡ Option.map (◌∷◌ c) (validate_from 0 rest)
unfolding validate_from validate_byte
validate_escape a b c rest h = ground arith

is_unreserved-others :
    (c : ℕ) → is_unreserved c ≡ true → ((c == b'+') ≡ false) × ((c == b'%') ≡ false)
unfolding is_unreserved
is_unreserved-others c h = (ground arith, ground arith)

validate_byte-plain :
    (c : ℕ) (rest : Bytes) → is_unreserved c ≡ true → validate_byte c rest ≡ some (c, 0)
unfolding validate_byte
validate_byte-plain c [] h = rw (is_unreserved-others c h).0 (rw (is_unreserved-others c h).1)
validate_byte-plain c (a ∷ []) h = rw (is_unreserved-others c h).0 (rw (is_unreserved-others c h).1)
validate_byte-plain c (a ∷ b ∷ rest) h =
    rw (is_unreserved-others c h).0 (rw (is_unreserved-others c h).1)

validate_plain :
    (c : ℕ) (rest : Bytes)
    → is_unreserved c ≡ true
    → validate_from 0 (c ∷ rest) ≡ Option.map (◌∷◌ c) (validate_from 0 rest)
unfolding validate_from
validate_plain c rest h = ground (arith, validate_byte-plain c rest h)

space_digits : extract_hex b'2' b'0' ≡ some b' '
unfolding extract_hex
space_digits = refl

validate-encode_byte :
    (c : ℕ) (rest : Bytes)
    → c < 256
    → validate_from 0 (encode_byte c ++ rest) ≡ Option.map (◌∷◌ c) (validate_from 0 rest)
unfolding encode_byte char2hex
validate-encode_byte c rest h = elim (Bool-cases (c == b' ')) [
  | inl space ↦
      let is_space : c ≡ b' ' = ground arith in
      rw space (
        validate_escape b'2' b'0' b' ' rest space_digits
        ∙ ap (λ d. Option.map (◌∷◌ d) (validate_from 0 rest)) (sym is_space))
  | inr other ↦ rw other (elim (Bool-cases (is_unreserved c)) [
    | inl plain ↦ rw plain (validate_plain c rest plain)
    | inr escaped ↦ rw escaped (validate_escape _ _ c rest (extract_hex-char2hex c h))
  ])
]

validate-percent_encode : (s : Bytes) → IsBytes s → validate_from 0 (percent_encode s) ≡ some s
unfolding percent_encode
validate-percent_encode [] h = unfold validate_from in refl
validate-percent_encode (c ∷ s) h =
    validate-encode_byte c (percent_encode s) h.0
    ∙ ap (Option.map (◌∷◌ c)) (validate-percent_encode s h.1)

-- The decoding of the path accepts every percent-encoded string of bytes, and gives the string.
pub percent_decode_and_validate-percent_encode :
    (s : Bytes) → IsBytes s → percent_decode_and_validate (percent_encode s) ≡ some s
unfolding percent_decode_and_validate
percent_decode_and_validate-percent_encode s h = validate-percent_encode s h
