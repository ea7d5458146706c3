-- ===== src/Request/Lookup.antt =====
-- `std::find_if` by name over a `std::vector<name_value>`, and the insertion of an empty entry.
use waspp.Base.{
  ◌≡◌, refl, ◌≢◌, ◌∙◌, List, [], ◌∷◌, ◌++◌, if◌then◌else◌, Bytes, equal, equal_iff, Option, none,
  some, arith,
}

pub record NameValue : Type 0 where
  pub name : Bytes
  pub value : Bytes

-- The value of the first entry of that name.
unfoldable pub find_value : Bytes → List NameValue → Option Bytes
find_value n [] = none
find_value n (x ∷ xs) = if equal x.name n then some x.value else find_value n xs

-- The value found, or the empty string of an entry that is appended.
unfoldable pub lookup : Bytes → List NameValue → Bytes × List NameValue
unfolding find_value
lookup n xs = elim (find_value n xs) [
  | some v ↦ (v, xs)
  | none ↦ ([], xs ++ record { name = n; value = [] } ∷ [])
]

abbrev pub or_empty : Option Bytes → Bytes
or_empty none = []
or_empty (some v) = v

pub lookup-eq : (n : Bytes) (xs : List NameValue) → (lookup n xs).0 ≡ or_empty (find_value n xs)
unfolding lookup
lookup-eq n xs = ground arith

find_value-append_new :
    (n m : Bytes) (xs : List NameValue)
    → find_value n xs ≡ none
    → find_value m (xs ++ record { name = n; value = [] } ∷ [])
      ≡ (if equal n m then some [] else find_value m xs)
unfolding find_value
find_value-append_new n m [] h = refl
find_value-append_new n m (x ∷ xs) h =
    ground
      (arith, equal_iff x.name n, equal_iff x.name m, equal_iff n m, find_value-append_new n m xs)

-- After a look-up the entry is there, with the value that was returned.
find_value-lookup :
    (n : Bytes) (xs : List NameValue) → find_value n (lookup n xs).1 ≡ some (lookup n xs).0
unfolding lookup
find_value-lookup n xs = ground (arith, find_value-append_new n n xs, equal_iff n n)

-- A look-up changes no other entry.
pub lookup_frame :
    (n m : Bytes) (xs : List NameValue) → n ≢ m → find_value m (lookup n xs).1 ≡ find_value m xs
unfolding lookup
lookup_frame n m xs h = ground (arith, find_value-append_new n m xs, equal_iff n m)

-- Looking a name up again gives the same value.
pub lookup_again :
    (n : Bytes) (xs : List NameValue) → (lookup n (lookup n xs).1).0 ≡ (lookup n xs).0
lookup_again n xs = lookup-eq n (lookup n xs).1 ∙ rw (find_value-lookup n xs)

-- A value that is not empty was found, and the look-up appended nothing.
pub lookup_found : (n : Bytes) (xs : List NameValue) → (lookup n xs).0 ≢ [] → (lookup n xs).1 ≡ xs
unfolding lookup
lookup_found n xs h = ground arith
