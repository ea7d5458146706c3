-- ===== src/Fields/Content/Fuel.antt =====
-- The form loop of `parse_content` has enough fuel on every content.
use waspp.Request.{NameValue}
use waspp.Base.{
  List, Bool-cases, is_empty, ◌==◌, ℕ, zero, suc, ◌<◌, ◌≡◌, [], ◌∷◌, Bytes, length, some, inl, inr,
  Option-cases, arith,
}
use waspp.Fields.Content.{pair, break_at, take_value, form_loop, parse_form}

-- What stands behind a separator is shorter than the text.
length-break_at :
    (a b : ℕ) (s before : Bytes) (sep : ℕ) (behind : Bytes)
    → break_at a b s ≡ some (before, sep, behind)
    → length behind < length s
unfolding break_at
length-break_at a b [] before sep behind h = cc
length-break_at a b (c ∷ cs) before sep behind h = elim (Option-cases (break_at a b cs)) [
  | inl missing ↦ ground arith
  | inr ((before', sep', behind'), found) ↦
      ground (arith, length-break_at a b cs before' sep' behind' found)
]

length-take_value : (s rest : Bytes) → (take_value s).1 ≡ some rest → length rest < length s
unfolding take_value
length-take_value s rest h = elim (Option-cases (break_at b';' b'&' s)) [
  | inl missing ↦ ground arith
  | inr ((before, sep, behind), found) ↦
      ground (arith, length-break_at b';' b'&' s before sep behind found)
]

-- The loop ends within more rounds than the text has bytes, and it does not matter how many more.
form_loop-ends :
    (m n : ℕ) (s : Bytes)
    → length s < m
    → length s < n
    → (fields : List NameValue) × (form_loop m s ≡ some fields) × (form_loop n s ≡ some fields)
unfolding form_loop
form_loop-ends zero n s h k = absurd (omega arith)
form_loop-ends (suc m) zero s h k = absurd (omega arith)
form_loop-ends (suc m) (suc n) s h k = elim (Option-cases (break_at b'&' b'=' s)) [
  | inl missing ↦ ([], ground arith, ground arith)
  | inr ((piece, sep, behind), found) ↦
      let shorter = length-break_at b'&' b'=' s piece sep behind found in
      let (after_name, here, there) = form_loop-ends m n behind (omega arith) (omega arith) in
      elim (Bool-cases (sep == b'&')) [
        | inl named ↦ elim (Bool-cases (is_empty piece)) [
          | inl skipped ↦ (after_name, ground (arith, here), ground (arith, there))
          | inr kept ↦ (pair piece [] ∷ after_name, ground (arith, here), ground (arith, there))
        ]
        | inr valued ↦ elim (Option-cases (take_value behind).1) [
          | inl last ↦ (pair piece (take_value behind).0 ∷ [], ground arith, ground arith)
          | inr (rest, more) ↦
              let less = length-take_value behind rest more in
              let (after_value, now, later) = form_loop-ends m n rest (omega arith) (omega arith) in
              (
                pair piece (take_value behind).0 ∷ after_value,
                ground (arith, now),
                ground (arith, later),
              )
        ]
      ]
]

-- With more rounds than the content has bytes, the loop ends by itself, and gives what `parse_form`
-- gives.
pub form_loop-parse_form :
    (fuel : ℕ) (s : Bytes) → length s < fuel → form_loop fuel s ≡ some (parse_form s)
unfolding parse_form
form_loop-parse_form fuel s h =
    let (fields, here, there) = form_loop-ends fuel (suc (length s)) s h (omega arith) in
    ground (arith, here, there)
