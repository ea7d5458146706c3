-- ===== src/Utility/Base64/RoundTrip.antt =====
-- Decoding what was encoded.
use waspp.Base.{
  zero, suc, take, ◌%◌, ◌^◌, ℕ, ◌+◌, ◌*◌, ◌/◌, ◌<◌, ◌≡◌, refl, ap, ◌∙◌, [], ◌∷◌, Bytes, IsBytes,
  length, arith,
}
use waspp.Utility.Base64.Tables.{of_char-to_char, to_char-is_base64, byte-HasMasks}
use waspp.Utility.Base64.{
  to_char, base64_encode, encode_groups, base64_prefix, decode_groups, base64_decode, index0,
  index1, index2, index3, byte0, byte1, byte2,
}

-- The indices of three bytes are below 64, and give the bytes back.
record Recovers (a b c : ℕ) : Type 0 where
  below0 : index0 a < 64
  below1 : index1 a b < 64
  below2 : index2 b c < 64
  below3 : index3 c < 64
  first : byte0 (index0 a) (index1 a b) ≡ a
  second : byte1 (index1 a b) (index2 b c) ≡ b
  third : byte2 (index2 b c) (index3 c) ≡ c

bytes-Recovers : (a b c : ℕ) → a < 256 → b < 256 → c < 256 → Recovers a b c
bytes-Recovers a b c ha hb hc =
    let ma = byte-HasMasks a ha in
    let mb = byte-HasMasks b hb in
    let mc = byte-HasMasks c hc in
    let below1 : index1 a b < 64 = omega (arith, ma.mask_03, mb.mask_f0) in
    let below2 : index2 b c < 64 = omega (arith, mb.mask_0f, mc.mask_c0) in
    let i1 = byte-HasMasks (index1 a b) (omega arith) in
    let i2 = byte-HasMasks (index2 b c) (omega arith) in
    record {
      below0 = omega (arith, ma.mask_fc);
      below1 = below1;
      below2 = below2;
      below3 = omega (arith, mc.mask_3f);
      first = omega (arith, ma.mask_fc, ma.mask_03, mb.mask_f0, i1.mask_30);
      second =
          omega (arith, ma.mask_03, mb.mask_f0, mb.mask_0f, mc.mask_c0, i1.mask_0f, i2.mask_3c);
      third = omega (arith, mb.mask_0f, mc.mask_c0, mc.mask_3f, i2.mask_03);
    }

prefix-to_char :
    (i : ℕ) (cs : Bytes) → i < 64 → base64_prefix (to_char i ∷ cs) ≡ to_char i ∷ base64_prefix cs
unfolding base64_prefix
prefix-to_char i cs h = rw (to_char-is_base64 i h)

prefix_padding : (cs : Bytes) → base64_prefix (b'=' ∷ cs) ≡ []
unfolding base64_prefix
prefix_padding cs = refl

abbrev decode_prefix : Bytes → Bytes
decode_prefix s = decode_groups (base64_prefix s)

take_all : (n : ℕ) (s : Bytes) → length s ≡ n → take n s ≡ s
take_all zero [] h = refl
take_all (suc n) [] h = refl
take_all zero (c ∷ s) h = absurd (omega arith)
take_all (suc n) (c ∷ s) h = ap (◌∷◌ c) (take_all n s (omega arith))

decode_three :
    (a b c : ℕ) (rest : Bytes)
    → Recovers a b c
    → decode_prefix (
        to_char (index0 a)
        ∷ to_char (index1 a b)
        ∷ to_char (index2 b c)
        ∷ to_char (index3 c)
        ∷ rest)
      ≡ a ∷ b ∷ c ∷ decode_prefix rest
unfolding decode_groups
decode_three a b c rest r = simp (
  prefix-to_char _ _ r.below0,
  prefix-to_char _ _ r.below1,
  prefix-to_char _ _ r.below2,
  prefix-to_char _ _ r.below3,
  of_char-to_char _ r.below0,
  of_char-to_char _ r.below1,
  of_char-to_char _ r.below2,
  of_char-to_char _ r.below3,
  r.first,
  r.second,
  r.third,
)

decode-encode_groups : (s : Bytes) → IsBytes s → decode_prefix (encode_groups s) ≡ s
unfolding encode_groups decode_groups
decode-encode_groups [] h = unfold base64_prefix in refl
decode-encode_groups (a ∷ []) h =
    let r = bytes-Recovers a 0 0 h.0 (omega arith) (omega arith) in
    simp (
      prefix-to_char _ _ r.below0,
      prefix-to_char _ _ r.below1,
      prefix_padding,
      of_char-to_char _ r.below0,
      of_char-to_char _ r.below1,
      r.first,
    )
decode-encode_groups (a ∷ b ∷ []) h =
    let r = bytes-Recovers a b 0 h.0 h.1.0 (omega arith) in
    simp (
      prefix-to_char _ _ r.below0,
      prefix-to_char _ _ r.below1,
      prefix-to_char _ _ r.below2,
      prefix_padding,
      of_char-to_char _ r.below0,
      of_char-to_char _ r.below1,
      of_char-to_char _ r.below2,
      r.first,
      r.second,
    )
decode-encode_groups (a ∷ b ∷ c ∷ cs) h =
    decode_three a b c (encode_groups cs) (bytes-Recovers a b c h.0 h.1.0 h.1.1.0)
    ∙ ap (λ x. a ∷ b ∷ c ∷ x) (decode-encode_groups cs h.1.1.1)

-- Encoding writes four characters for each three bytes begun.
length-encode_groups : (s : Bytes) → length (encode_groups s) ≡ (length s + 2) / 3 * 4
unfolding encode_groups
length-encode_groups [] = omega arith
length-encode_groups (a ∷ []) = omega arith
length-encode_groups (a ∷ b ∷ []) = omega arith
length-encode_groups (a ∷ b ∷ c ∷ cs) = omega (arith, length-encode_groups cs)

-- Decoding undoes encoding on every string of bytes whose encoding is shorter than 2 ^ 31 characters.
pub base64_decode-base64_encode :
    (s : Bytes) → IsBytes s → (length s + 2) / 3 * 4 < 2 ^ 31 → base64_decode (base64_encode s) ≡ s
unfolding base64_decode base64_encode
base64_decode-base64_encode s h small =
    let whole : take (length s % 2 ^ 32) s ≡ s = take_all _ s (omega arith) in
    let e = encode_groups s in
    let whole_e : take (length e % 2 ^ 32) e ≡ e =
      take_all _ e (omega (arith, length-encode_groups s)) in
    ap (λ t. base64_decode (encode_groups t)) whole
    ∙ ap decode_prefix whole_e
    ∙ decode-encode_groups s h
