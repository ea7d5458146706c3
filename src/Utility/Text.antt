-- ===== src/Utility/Text.antt =====
-- `strings_are_equal`, `extract_between` and `get_extension` of src/utility.cpp.
pub mod Laws
use waspp.Base.{
  ℕ, suc, ◌+◌, ◌-◌, Bool, true, false, not, ◌&&◌, ◌||◌, [], ◌∷◌, ◌++◌, Option, none, some, ltb, leb,
  within, ◌==◌, if◌then◌else◌, Bytes, take, length, find, find_from, substr, drop,
}

-- `std::toupper` in the C locale.
unfoldable pub to_upper : ℕ → ℕ
to_upper c = if within b'a' b'z' c then c - 32 else c

-- The loop over both strings: false at the first bytes that differ, true when either ends.
unfoldable pub agree : Bytes → Bytes → Bool
agree (x ∷ xs) (y ∷ ys) = let rest = agree xs ys in if to_upper x == to_upper y then rest else false
agree _ _ = true

unfoldable pub strings_are_equal : Bytes → Bytes → Bool
strings_are_equal s1 s2 = agree s1 s2 && (length s2 == length s1)

-- The overload with a count: the first `n` bytes of each, if both have as many.
unfoldable pub strings_are_equal_n : Bytes → Bytes → ℕ → Bool
strings_are_equal_n s1 s2 n =
    let good = leb n (length s1) && leb n (length s2) in
    agree (if good then take n s1 else s1) (if good then take n s2 else s2) && good

-- The text between the first `separator1` and the next `separator2`; empty if there is none.
unfoldable pub extract_between : Bytes → Bytes → Bytes → Bytes
extract_between s separator1 separator2 = elim (find s separator1) [
  | none ↦ []
  | some start ↦ elim (find_from s separator2 (start + length separator1)) [
    | none ↦ []
    | some limit ↦ substr s (start + length separator1) (limit - (start + length separator1))
  ]
]

-- `path.find_last_of(c)` for one byte.
unfoldable pub find_last : ℕ → Bytes → Option ℕ
find_last c [] = none
find_last c (x ∷ xs) = elim (find_last c xs) [
  | some i ↦ some (suc i)
  | none ↦ if x == c then some 0 else none
]

-- `npos` is the greatest position, so that no dot is beyond a missing slash.
abbrev is_beyond : ℕ → Option ℕ → Bool
is_beyond dot none = false
is_beyond dot (some slash) = ltb slash dot

unfoldable pub get_extension : Bytes → Bytes
get_extension path = elim (find_last b'.' path) [
  | none ↦ []
  | some dot ↦ if is_beyond dot (find_last b'/' path) then drop (suc dot) path else []
]
