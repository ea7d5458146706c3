-- ===== src/Fields/Content.antt =====
-- `parse_content`: the form in the body, by its content type. The loop over an URL-encoded form keeps
-- `old_pos`, here the text from there on.
pub mod Form
pub mod Fuel
use mathlib.Core.Option
use waspp.Base.{
  ℕ, zero, suc, ◌+◌, ◌-◌, ◌≤◌, ◌<◌, ◌≡◌, refl, Bool, true, false, ◌||◌, ◌&&◌, List, [], ◌∷◌, ◌++◌,
  ◌==◌, if◌then◌else◌, Bytes, codes, length, is_empty, Option, none, some, arith,
}
use waspp.Request.{Request, NameValue, header}
use waspp.Utility.Percent.{percent_decode}
use waspp.Utility.Text.{strings_are_equal_n}
use waspp.Fields.Outcome.{Outcome, done}
use waspp.Fields.Multipart.{parse_multipart}

-- `find_first_of` two bytes: the text before the first of them, which one, and the text behind it.
unfoldable pub break_at : ℕ → ℕ → Bytes → Option (Bytes × ℕ × Bytes)
break_at a b [] = none
break_at a b (c ∷ cs) =
    let rest = break_at a b cs in
    if (c == a) || (c == b)
    then some ([], c, cs)
    else elim rest [ none ↦ none | some (before, sep, behind) ↦ some (c ∷ before, sep, behind) ]

abbrev pub pair : Bytes → Bytes → NameValue
pair n v = record { name = percent_decode n; value = percent_decode v }

-- What follows a name and its equals sign: the value, and the rest if there is a separator.
unfoldable pub take_value : Bytes → Bytes × Option Bytes
unfolding break_at
take_value s = elim (break_at b';' b'&' s) [
  | none ↦ (s, none)
  | some (value, sep, behind) ↦ (value, some behind)
]

-- The loop; `none`: the rounds were not enough. `name&`: the inner loop moves over leading ampersands;
-- there are such only if nothing stands before this one, and then the piece is skipped. Each round
-- consumes a byte.
unfoldable pub form_loop : ℕ → Bytes → Option (List NameValue)
unfolding break_at take_value
form_loop zero s = none
form_loop (suc fuel) s = elim (break_at b'&' b'=' s) [
  | none ↦ some []
  | some (piece, sep, behind) ↦
      let after_value : Option (List NameValue) = elim (take_value behind).1 [
        | none ↦ some []
        | some rest ↦ form_loop fuel rest
      ] in
      let after_name = form_loop fuel behind in
      if sep == b'&'
      then (if is_empty piece then after_name else Option.map (◌∷◌ (pair piece [])) after_name)
      else Option.map (◌∷◌ (pair piece (take_value behind).0)) after_value
]

-- The loop on the whole content; there is always a result.
unfoldable pub parse_form : Bytes → List NameValue
unfolding form_loop
parse_form s = elim (form_loop (suc (length s)) s) [ none ↦ [] | some fields ↦ fields ]

unfoldable pub parse_content : Request → Outcome
unfolding header parse_form
parse_content req =
    let (content_type, req') = header req (codes "Content-Type") in
    let standard_type = codes "application/x-www-form-urlencoded" in
    let multipart_type = codes "multipart/form-data" in
    if is_empty req.content
    then done req
    else if is_empty content_type
        || strings_are_equal_n content_type standard_type (length standard_type)
    then done (record req' { params = req'.params ++ parse_form req'.content })
    else if strings_are_equal_n multipart_type content_type (length multipart_type)
    then parse_multipart content_type req'
    else done req'
