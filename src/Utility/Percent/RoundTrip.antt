-- ===== src/Utility/Percent/RoundTrip.antt =====
-- Decoding what was encoded, and the bytes of encoded text.
use waspp.Base.{
  ℕ, ◌<◌, ◌==◌, ◌||◌, codes, ◌≡◌, refl, ◌∙◌, ap, true, false, [], ◌∷◌, ◌++◌, Bytes, All, All-append,
  IsBytes, Bool-cases, inl, inr, some, arith, append_assoc,
}
use waspp.Utility.Percent.Hex.{IsHexOf, char2hex-IsHexOf}
use waspp.Utility.Percent.{
  char2hex, hex2char, is_unreserved, encode_byte, percent_encode, is_xdigit, escape?, decode_byte,
  decode_from, percent_decode,
}

escape?-xdigit :
    (a b : ℕ) (cs : Bytes)
    → is_xdigit a ≡ true
    → is_xdigit b ≡ true
    → escape? (a ∷ b ∷ cs) ≡ some (hex2char a b)
unfolding escape?
escape?-xdigit a b cs h k = rw (h, k)

decode_escape :
    (a b : ℕ) (rest : Bytes)
    → is_xdigit a ≡ true
    → is_xdigit b ≡ true
    → decode_from 0 (b'%' ∷ a ∷ b ∷ rest) ≡ hex2char a b ∷ decode_from 0 rest
unfolding decode_from decode_byte
decode_escape a b rest h k = rw (escape?-xdigit a b rest h k)

decode_plain :
    (c : ℕ) (rest : Bytes)
    → is_unreserved c ≡ true
    → decode_from 0 (c ∷ rest) ≡ c ∷ decode_from 0 rest
unfolding decode_from decode_byte is_unreserved
decode_plain c rest h =
    let plus : (c == b'+') ≡ false = ground arith in
    let percent : (c == b'%') ≡ false = ground arith in rw (plus, percent)

decode-hex :
    (c : ℕ) (s rest : Bytes)
    → IsHexOf c s
    → decode_from 0 (b'%' ∷ (s ++ rest)) ≡ c ∷ decode_from 0 rest
decode-hex c s rest h = rw h.splits (
    decode_escape h.first h.second rest h.digits.0 h.digits.1
    ∙ ap (λ x. x ∷ decode_from 0 rest) h.value)

decode-encode_byte :
    (c : ℕ) (rest : Bytes)
    → c < 256
    → decode_from 0 (encode_byte c ++ rest) ≡ c ∷ decode_from 0 rest
unfolding encode_byte
decode-encode_byte c rest h = elim (Bool-cases (c == b' ')) [
  | inl space ↦ rw space (decode_space ∙ ap (λ x. x ∷ decode_from 0 rest) (ground arith))
  | inr other ↦ rw other (elim (Bool-cases (is_unreserved c)) [
    | inl plain ↦ rw plain (decode_plain c rest plain)
    | inr escaped ↦ rw escaped (decode-hex c (char2hex c) rest (char2hex-IsHexOf c h))
  ])
]
  where
    decode_space : decode_from 0 (codes "%20" ++ rest) ≡ b' ' ∷ decode_from 0 rest
    decode_space =
        decode_escape b'2' b'0' rest (unfold is_xdigit in refl) (unfold is_xdigit in refl)
        ∙ unfold hex2char in refl

decode-encode :
    (s rest : Bytes)
    → IsBytes s
    → decode_from 0 (percent_encode s ++ rest) ≡ s ++ decode_from 0 rest
unfolding percent_encode
decode-encode [] rest h = refl
decode-encode (c ∷ cs) rest h =
    rw append_assoc (
      decode-encode_byte c (percent_encode cs ++ rest) h.0 ∙ ap (◌∷◌ c) (decode-encode cs rest h.1))

-- Decoding undoes encoding on every string of bytes, whatever text stands behind it.
pub percent_decode-percent_encode :
    (s rest : Bytes)
    → IsBytes s
    → percent_decode (percent_encode s ++ rest) ≡ s ++ percent_decode rest
unfolding percent_decode
percent_decode-percent_encode s rest h = decode-encode s rest h

-- What encoded text is made of.
abbrev pub IsEncoded : ℕ → Type 0
IsEncoded c = (is_unreserved c || (c == b'%')) ≡ true

encode_byte-IsEncoded : (c : ℕ) → c < 256 → All IsEncoded (encode_byte c)
unfolding encode_byte
encode_byte-IsEncoded c h = elim (Bool-cases (c == b' ')) [
  | inl space ↦ rw space (unfold is_unreserved in (refl, (refl, (refl, tt))))
  | inr other ↦ rw other (elim (Bool-cases (is_unreserved c)) [
    | inl plain ↦ rw plain (rw plain refl, tt)
    | inr escaped ↦
        let x = char2hex-IsHexOf c h in
        rw (escaped, x.splits)
          (unfold is_unreserved in refl, (rw x.unreserved.0 refl, (rw x.unreserved.1 refl, tt)))
  ])
]

-- Encoded text holds only unreserved bytes and percent signs: no control byte, and none of the
-- separators of URIs, cookies and header lines.
pub percent_encode-IsEncoded : (s : Bytes) → IsBytes s → All IsEncoded (percent_encode s)
unfolding percent_encode
percent_encode-IsEncoded [] h = tt
percent_encode-IsEncoded (c ∷ cs) h =
    All-append IsEncoded (encode_byte c) (percent_encode cs) (encode_byte-IsEncoded c h.0)
      (percent_encode-IsEncoded cs h.1)
