-- ===== src/Fields/Content/Form.antt =====
-- An URL-encoded form is read back.
use mathlib.Core.Option
use waspp.Base.{
  ◌<◌, ℕ, zero, suc, ◌≡◌, ◌≢◌, refl, sym, ap, ◌∙◌, true, ◌||◌, List, [], ◌∷◌, ◌++◌, ◌==◌, Bytes,
  IsBytes, All, length, length-append, none, some, arith, append-nil,
}
use waspp.Request.{NameValue}
use waspp.Utility.Percent.{percent_encode, percent_decode, decode_from, is_unreserved}
use waspp.Utility.Percent.RoundTrip.{
  percent_decode-percent_encode, percent_encode-IsEncoded, IsEncoded,
}
use waspp.Fields.Content.{break_at, take_value, form_loop, parse_form}

-- Names and values encoded, with the separators of a form.
abbrev pub format_form : List NameValue → Bytes
format_form [] = []
format_form (x ∷ []) = percent_encode x.name ++ (b'=' ∷ percent_encode x.value)
format_form (x ∷ y ∷ ys) =
    percent_encode x.name ++ (b'=' ∷ (percent_encode x.value ++ (b'&' ∷ format_form (y ∷ ys))))

pub record IsField (x : NameValue) : Type 0 where
  pub name_bytes : IsBytes x.name
  pub value_bytes : IsBytes x.value

abbrev Avoids : ℕ → ℕ → Bytes → Type 0
Avoids a b = All λ c. (c ≢ a) × (c ≢ b)

break_at-append :
    (a b c : ℕ) (s rest : Bytes)
    → Avoids a b s
    → ((c == a) || (c == b)) ≡ true
    → break_at a b (s ++ (c ∷ rest)) ≡ some (s, c, rest)
unfolding break_at
break_at-append a b c [] rest h k = rw k
break_at-append a b c (x ∷ s) rest h k = ground (arith, break_at-append a b c s rest h.1 k)

break_at-none : (a b : ℕ) (s : Bytes) → Avoids a b s → break_at a b s ≡ none
unfolding break_at
break_at-none a b [] h = refl
break_at-none a b (x ∷ s) h = ground (arith, break_at-none a b s h.1)

IsEncoded-ne : (c : ℕ) → IsEncoded c → (c ≢ b'&') × (c ≢ b'=') × (c ≢ b';')
unfolding is_unreserved
IsEncoded-ne c h = ground arith

Avoids-name : (s : Bytes) → All IsEncoded s → Avoids b'&' b'=' s
Avoids-name [] h = tt
Avoids-name (c ∷ s) h = let k = IsEncoded-ne c h.0 in ((k.0, k.1), Avoids-name s h.1)

Avoids-value : (s : Bytes) → All IsEncoded s → Avoids b';' b'&' s
Avoids-value [] h = tt
Avoids-value (c ∷ s) h = let k = IsEncoded-ne c h.0 in ((k.2, k.0), Avoids-value s h.1)

percent_decode-nil : percent_decode [] ≡ []
unfolding percent_decode decode_from
percent_decode-nil = refl

decode_encoded : (s : Bytes) → IsBytes s → percent_decode (percent_encode s) ≡ s
decode_encoded s h =
    ap percent_decode (sym (append-nil (percent_encode s)))
    ∙ percent_decode-percent_encode s [] h
    ∙ rw percent_decode-nil (append-nil s)

-- The loop over a text that begins with an encoded name and its equals sign.
form_loop-name :
    (fuel : ℕ) (n : Bytes) (behind : Bytes)
    → IsBytes n
    → form_loop (suc fuel) (percent_encode n ++ (b'=' ∷ behind))
      ≡ Option.map
          (◌∷◌ (record { name = n; value = percent_decode (take_value behind).0 }))
          (elim (take_value behind).1 [ none ↦ some [] | some rest ↦ form_loop fuel rest ])
unfolding form_loop
form_loop-name fuel n behind h = rw (
  break_at-append b'&' b'=' b'=' (percent_encode n) behind
      (Avoids-name (percent_encode n) (percent_encode-IsEncoded n h)) refl,
  form_loop,
  decode_encoded n h,
)

take_value-last : (v : Bytes) → IsBytes v → take_value (percent_encode v) ≡ (percent_encode v, none)
unfolding take_value
take_value-last v h = rw (
  break_at-none b';' b'&' (percent_encode v)
      (Avoids-value (percent_encode v) (percent_encode-IsEncoded v h)),
  take_value,
)

take_value-next :
    (v rest : Bytes)
    → IsBytes v
    → take_value (percent_encode v ++ (b'&' ∷ rest)) ≡ (percent_encode v, some rest)
unfolding take_value
take_value-next v rest h = rw (
  break_at-append b';' b'&' b'&' (percent_encode v) rest
      (Avoids-value (percent_encode v) (percent_encode-IsEncoded v h)) refl,
  take_value,
)

form_loop-nil : (fuel : ℕ) → form_loop (suc fuel) [] ≡ some []
unfolding form_loop break_at
form_loop-nil fuel = refl

form_loop-format :
    (fuel : ℕ) (xs : List NameValue)
    → All IsField xs
    → length (format_form xs) < fuel
    → form_loop fuel (format_form xs) ≡ some xs
form_loop-format zero [] h k = absurd (omega arith)
form_loop-format (suc fuel) [] h k = form_loop-nil fuel
form_loop-format zero (x ∷ []) h k =
    absurd (omega (arith, length-append (percent_encode x.name) (b'=' ∷ percent_encode x.value)))
form_loop-format zero (x ∷ y ∷ ys) h k = absurd (
    omega (
      arith,
      length-append (percent_encode x.name)
          (b'=' ∷ (percent_encode x.value ++ (b'&' ∷ format_form (y ∷ ys)))),
    ))
form_loop-format (suc fuel) (x ∷ []) h k =
    form_loop-name fuel x.name (percent_encode x.value) h.0.name_bytes
    ∙ rw (take_value-last x.value h.0.value_bytes, decode_encoded x.value h.0.value_bytes)
form_loop-format (suc fuel) (x ∷ y ∷ ys) h k =
    let more = format_form (y ∷ ys) in
    form_loop-name fuel x.name (percent_encode x.value ++ (b'&' ∷ more)) h.0.name_bytes
    ∙ rw (take_value-next x.value more h.0.value_bytes, decode_encoded x.value h.0.value_bytes)
        (ap (Option.map (◌∷◌ x)) (
          form_loop-format fuel (y ∷ ys) h.1 (
            omega (
              arith,
              length-append (percent_encode x.name)
                  (b'=' ∷ (percent_encode x.value ++ (b'&' ∷ more))),
              length-append (percent_encode x.value) (b'&' ∷ more),
            ))))

-- A form is read back: whatever bytes its names and values hold, the loop over the encoded text
-- gives them, in order.
pub parse_form-format_form :
    (xs : List NameValue) → All IsField xs → parse_form (format_form xs) ≡ xs
unfolding parse_form
parse_form-format_form xs h =
    let e = form_loop-format (suc (length (format_form xs))) xs h (omega arith) in ground (arith, e)
