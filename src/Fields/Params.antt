-- ===== src/Fields/Params.antt =====
-- `split` and `parse_params`.
use waspp.Base.{
  ℕ, ◌≡◌, refl, ap, ◌∙◌, ◌≢◌, ◌↔◌, true, false, List, [], ◌∷◌, ◌++◌, map, ◌==◌, if◌then◌else◌,
  Bytes, All, is_empty, append-nil, append_assoc, arith,
}
use waspp.Request.{Request, NameValue}
use waspp.Utility.Percent.{percent_decode, decode_from, decode_byte}
use waspp.Fields.Outcome.{Outcome, done, undefined}

-- `std::getline(ss, item, c)` until it fails: `item` holds the bytes read since the last separator. At
-- the end of the text an item is there if a byte was read.
unfoldable pub split_onto : ℕ → Bytes → Bytes → List Bytes
split_onto c item [] = if is_empty item then [] else item ∷ []
split_onto c item (x ∷ xs) =
    let next = item ∷ split_onto c [] xs in
    let more = split_onto c (item ++ x ∷ []) xs in if x == c then next else more

unfoldable pub split : Bytes → ℕ → List Bytes
unfolding split_onto
split s c = split_onto c [] s

-- `v.erase(v.begin())` wants an element.
abbrev set_rest_params : List Bytes → Request → Outcome
set_rest_params [] req = undefined
set_rest_params (first ∷ rest) req = done (record req { rest_params = rest })

unfoldable pub decode_param : NameValue → NameValue
decode_param x = record { name = percent_decode x.name; value = percent_decode x.value }

-- `split` appends to `rest_params`; with no parameter the loop has nothing to do.
unfoldable pub parse_params : Request → Outcome
parse_params req =
    set_rest_params (req.rest_params ++ split (percent_decode req.uri) b'/')
      (record req { params = map decode_param req.params })

-- Some pieces, each followed by the separator.
abbrev pub terminated : ℕ → List Bytes → Bytes
terminated c [] = []
terminated c (p ∷ ps) = p ++ (c ∷ terminated c ps)

split_onto-append :
    (c : ℕ) (item p rest : Bytes)
    → All (λ x. x ≢ c) p
    → split_onto c item (p ++ (c ∷ rest)) ≡ (item ++ p) ∷ split_onto c [] rest
unfolding split_onto
split_onto-append c item [] rest h = ground (arith, append-nil item)
split_onto-append c item (x ∷ p) rest h =
    let differs : (x == c) ≡ false = ground arith in
    rw differs (
      split_onto-append c (item ++ x ∷ []) p rest h.1
      ∙ ap (λ t. t ∷ split_onto c [] rest) (append_assoc item (x ∷ []) p))

-- Splitting gives back the pieces that were written with a separator behind each.
split-terminated :
    (c : ℕ) (ps : List Bytes) → All (All (λ x. x ≢ c)) ps → split (terminated c ps) c ≡ ps
unfolding split split_onto
split-terminated c [] h = refl
split-terminated c (p ∷ ps) h =
    split_onto-append c [] p (terminated c ps) h.0 ∙ ap (◌∷◌ p) (split-terminated c ps h.1)

split_onto_item : (c y : ℕ) (item s : Bytes) → is_empty (split_onto c (y ∷ item) s) ≡ false
unfolding split_onto
split_onto_item c y item [] = refl
split_onto_item c y item (x ∷ xs) = ground (arith, split_onto_item c y (item ++ x ∷ []) xs)

split_cons : (c x : ℕ) (xs : Bytes) → is_empty (split (x ∷ xs) c) ≡ false
unfolding split split_onto
split_cons c x xs = ground (arith, split_onto_item c x [] xs)

erase_first :
    (items : List Bytes) (req : Request)
    → (set_rest_params items req ≡ undefined) ↔ (is_empty items ≡ true)
erase_first [] req = ground arith
erase_first (x ∷ xs) req = ground arith

is_empty-decoded : (uri : Bytes) → (is_empty (split (percent_decode uri) b'/') ≡ true) ↔ (uri ≡ [])
unfolding percent_decode decode_from
is_empty-decoded [] = unfold split split_onto in ground arith
is_empty-decoded (c ∷ cs) =
    ground (arith, split_cons b'/' (decode_byte c cs).0 (decode_from (decode_byte c cs).1 cs))

-- On a request that came from the parser, whose `rest_params` is empty, `parse_params` erases from an
-- empty vector exactly when the URI is empty.
pub parse_params-undefined_iff :
    (req : Request) → req.rest_params ≡ [] → (parse_params req ≡ undefined) ↔ (req.uri ≡ [])
unfolding parse_params
parse_params-undefined_iff req h = rw h (
    ground (
      arith,
      erase_first (split (percent_decode req.uri) b'/')
          (record req { params = map decode_param req.params }),
      is_empty-decoded req.uri,
    ))
