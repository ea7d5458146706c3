-- ===== src/Mysqlpp/Seen.antt =====
-- What the MySQL client sees of the values that src/mysqlpp_statement.cpp binds: it follows the pointers
-- to the lengths.
use mathlib.Core.List.{map-append}
use waspp.Base.{
  zero, length-append, replicate, ℕ, suc, ◌+◌, ◌≡◌, refl, sym, ap, ◌∙◌, Bool, true, false, List, [],
  ◌∷◌, ◌++◌, Option, none, some, length, map, append_assoc, arith,
}
use waspp.Mysqlpp.Statement.{
  FieldType, tiny, short, long, long_long, float, double, string, blob, null, Bind, no_bind,
  Statement, statement, Value, uint8, int16, uint16, int32, uint32, int64, uint64, float_value,
  double_value, string_value, blob_value, null_value, bind_of, length_of, value_at, params,
}
use waspp.Mysqlpp.Places.{placed, sizes, params-statement, value_at_append}

-- A type, an address, a sign, and the length that stands where the bind's pointer leads; the room that
-- the bind announces for it; the address of the null flag.
pub record Seen : Type 0 where
  pub field_type : FieldType
  pub address : ℕ
  pub is_unsigned : Bool
  pub size : Option ℕ
  pub room : ℕ
  pub null_flag : Option ℕ

abbrev pub follow : List ℕ → Option ℕ → Option ℕ
follow lengths none = none
follow lengths (some i) = some (value_at lengths i)

abbrev pub sees : List ℕ → Bind → Seen
sees lengths b = record {
  field_type = b.buffer_type;
  address = b.buffer;
  is_unsigned = b.is_unsigned;
  size = follow lengths b.length;
  room = b.buffer_length;
  null_flag = b.is_null;
}

-- A number at an address, and a value of so many bytes.
abbrev pub a_number : FieldType → Bool → ℕ → Seen
a_number t unsigned a = record {
  field_type = t;
  address = a;
  is_unsigned = unsigned;
  size = none;
  room = 0;
  null_flag = none;
}

abbrev pub of_size : FieldType → ℕ → ℕ → ℕ → Seen
of_size t a size room = record {
  field_type = t;
  address = a;
  is_unsigned = false;
  size = some size;
  room = room;
  null_flag = none;
}

-- What the client is meant to see of a value: its type and sign, and the size of a text, of 4 bytes or
-- of 8.
unfoldable pub meant : Value → Seen
meant (uint8 a) = a_number tiny true a
meant (int16 a) = a_number short false a
meant (uint16 a) = a_number short true a
meant (int32 a) = a_number long false a
meant (uint32 a) = a_number long true a
meant (int64 a) = a_number long_long false a
meant (uint64 a) = a_number long_long true a
meant (float_value a) = of_size float a 4 0
meant (double_value a) = of_size double a 8 0
meant (string_value a size) = of_size string a size size
meant (blob_value a size) = of_size blob a size size
meant (null_value a) = record (a_number null false 0) { null_flag = some a }

sees-bind_of :
    (ls rest : List ℕ) (v : Value)
    → sees (ls ++ length_of v 0 ∷ rest) (bind_of (length ls) v) ≡ meant v
unfolding bind_of length_of meant
sees-bind_of ls rest (uint8 a) = refl
sees-bind_of ls rest (int16 a) = refl
sees-bind_of ls rest (uint16 a) = refl
sees-bind_of ls rest (int32 a) = refl
sees-bind_of ls rest (uint32 a) = refl
sees-bind_of ls rest (int64 a) = refl
sees-bind_of ls rest (uint64 a) = refl
sees-bind_of ls rest (float_value a) = ap (λ n. of_size float a n 0) (value_at_append ls rest 4)
sees-bind_of ls rest (double_value a) = ap (λ n. of_size double a n 0) (value_at_append ls rest 8)
sees-bind_of ls rest (string_value a size) =
    ap (λ n. of_size string a n size) (value_at_append ls rest size)
sees-bind_of ls rest (blob_value a size) =
    ap (λ n. of_size blob a n size) (value_at_append ls rest size)
sees-bind_of ls rest (null_value a) = refl

sees-placed :
    (vs : List Value) (ls rest : List ℕ)
    → map (sees (ls ++ (sizes vs ++ rest))) (placed (length ls) vs) ≡ map meant vs
sees-placed [] ls rest = refl
sees-placed (v ∷ vs) ls rest =
    let l = length_of v 0 in
    let longer : length (ls ++ l ∷ []) ≡ suc (length ls) =
      omega (arith, length-append ls (l ∷ [])) in
    let tail : map (sees (ls ++ (l ∷ (sizes vs ++ rest)))) (placed (suc (length ls)) vs)
        ≡ map meant vs =
      ap (λ n. map (sees (ls ++ (l ∷ (sizes vs ++ rest)))) (placed n vs)) (sym longer)
      ∙ ap (λ ms. map (sees ms) (placed (length (ls ++ l ∷ [])) vs))
          (sym (append_assoc ls (l ∷ []) (sizes vs ++ rest)))
      ∙ sees-placed vs (ls ++ l ∷ []) rest in
    ap (λ x. x ∷ map (sees (ls ++ (l ∷ (sizes vs ++ rest)))) (placed (suc (length ls)) vs))
      (sees-bind_of ls (sizes vs ++ rest) v)
    ∙ ap (◌∷◌ (meant v)) tail

sees-unbound :
    (ls : List ℕ) (k : ℕ)
    → map (sees ls) (replicate k no_bind) ≡ replicate k (a_number null false 0)
sees-unbound ls zero = refl
sees-unbound ls (suc k) = ap (◌∷◌ (a_number null false 0)) (sees-unbound ls k)

-- The client sees each value in its place, and nothing in the other places.
pub record IsSeen (vs : List Value) (k : ℕ) : Type 0 where
  pub bound : Statement
  pub same : params vs (statement (length vs + k)) ≡ some bound
  pub next : bound.bind_index ≡ length vs
  pub seen :
      map (sees bound.lengths) bound.binds ≡ map meant vs ++ replicate k (a_number null false 0)

-- Values that are bound to a new statement with as many parameters, or more: the client sees each of
-- them in its place, with its type, sign, address and length, and nothing in the other places; one value
-- more than there are parameters throws.
pub params-IsSeen :
    (vs : List Value) (v : Value) (k : ℕ)
    → IsSeen vs k × (params (v ∷ vs) (statement (length vs)) ≡ none)
params-IsSeen vs v k =
    let (same, full) = params-statement vs v k in
    let lengths = sizes vs ++ replicate k 0 in
    (
      record {
        bound = record {
          param_count = length vs + k;
          bind_index = length vs;
          binds = placed 0 vs ++ replicate k no_bind;
          lengths = lengths;
        };
        same = same;
        next = refl;
        seen =
            map-append (sees lengths) (placed 0 vs) (replicate k no_bind)
            ∙ ap (λ xs. xs ++ map (sees lengths) (replicate k no_bind))
                (sees-placed vs [] (replicate k 0))
            ∙ ap (λ ys. map meant vs ++ ys) (sees-unbound lengths k);
      },
      full,
    )
