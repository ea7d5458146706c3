-- ===== src/Utility/Text/Laws.antt =====
-- What the string helpers compute.
use waspp.Base.{
  ℕ, ◌+◌, ◌≤◌, ◌≡◌, ◌≢◌, refl, sym, ap, ◌∙◌, ◌↔◌, inl, inr, true, [], ◌∷◌, ◌++◌, none, some, ltb,
  Bytes, take, drop, length, length-append, length-take, drop-add, drop-suc_append, All-append, map,
  arith, find, find_from, find-splits, All, Option-cases, append_assoc,
}
use waspp.Utility.Text.{
  to_upper, agree, strings_are_equal, strings_are_equal_n, extract_between, find_last,
  get_extension,
}

-- Two strings are equal exactly when their upper-case forms are.
strings_are_equal_iff :
    (s1 s2 : Bytes) → (strings_are_equal s1 s2 ≡ true) ↔ (map to_upper s1 ≡ map to_upper s2)
unfolding strings_are_equal agree
strings_are_equal_iff [] [] = ground arith
strings_are_equal_iff [] (y ∷ ys) = ground arith
strings_are_equal_iff (x ∷ xs) [] = ground arith
strings_are_equal_iff (x ∷ xs) (y ∷ ys) = ground (arith, strings_are_equal_iff xs ys)

agree_iff :
    (xs ys : Bytes)
    → length xs ≡ length ys
    → (agree xs ys ≡ true) ↔ (map to_upper xs ≡ map to_upper ys)
unfolding agree
agree_iff [] [] h = ground arith
agree_iff [] (y ∷ ys) h = absurd (omega arith)
agree_iff (x ∷ xs) [] h = absurd (omega arith)
agree_iff (x ∷ xs) (y ∷ ys) h = ground (arith, agree_iff xs ys)

-- With a count: both strings have that many bytes, and the upper-case forms of these are equal.
strings_are_equal_n_iff :
    (s1 s2 : Bytes) (n : ℕ)
    → (strings_are_equal_n s1 s2 n ≡ true)
      ↔ ((n ≤ length s1) × (n ≤ length s2) × (map to_upper (take n s1) ≡ map to_upper (take n s2)))
unfolding strings_are_equal_n
strings_are_equal_n_iff s1 s2 n =
    ground (arith, agree_iff (take n s1) (take n s2), length-take n s1, length-take n s2)

extract_between-found :
    (s sep1 sep2 : Bytes) (i j : ℕ)
    → find s sep1 ≡ some i
    → find (drop (i + length sep1) s) sep2 ≡ some j
    → extract_between s sep1 sep2 ≡ take j (drop (i + length sep1) s)
unfolding extract_between find_from
extract_between-found s sep1 sep2 i j e e' =
    rw (e, extract_between, e') (ap (λ k. take k (drop (i + length sep1) s)) (omega arith))

-- Where the result is not empty it stands in the text, between the two separators.
extract_between-splits :
    (s sep1 sep2 : Bytes)
    → extract_between s sep1 sep2 ≢ []
    → (pre post : Bytes) × (s ≡ pre ++ (sep1 ++ (extract_between s sep1 sep2 ++ (sep2 ++ post))))
unfolding extract_between find_from
extract_between-splits s sep1 sep2 h = elim (Option-cases (find s sep1)) [
  | inl e ↦ absurd (h (rw (e, extract_between)))
  | inr (i, e) ↦ elim (Option-cases (find (drop (i + length sep1) s) sep2)) [
    | inl e' ↦ absurd (h (rw (e, extract_between) (rw e')))
    | inr (j, e') ↦
        let behind = drop (i + length sep1) s in
        (
          take i s,
          drop (length sep2) (drop j behind),
          find-splits s sep1 i e
              ∙ ap (λ t. take i s ++ (sep1 ++ t))
                  (sym (drop-add i (length sep1) s)
                    ∙ find-splits behind sep2 j e'
                    ∙ ap (λ t. t ++ (sep2 ++ drop (length sep2) (drop j behind)))
                        (sym (extract_between-found s sep1 sep2 i j e e'))),
        )
  ]
]

find_last-none : (c : ℕ) (s : Bytes) → All (λ x. x ≢ c) s → find_last c s ≡ none
unfolding find_last
find_last-none c [] h = refl
find_last-none c (x ∷ xs) h = ground (arith, find_last-none c xs)

find_last-append :
    (c : ℕ) (s t : Bytes) → All (λ x. x ≢ c) t → find_last c (s ++ c ∷ t) ≡ some (length s)
unfolding find_last
find_last-append c [] t h = ground (arith, find_last-none c t)
find_last-append c (x ∷ s) t h = ground (arith, find_last-append c s t)

-- The extension of a file in a directory is what stands behind the last dot of its name.
get_extension_file :
    (dir stem ext : Bytes)
    → All (λ x. x ≢ b'/') stem
    → All (λ x. x ≢ b'/') ext
    → All (λ x. x ≢ b'.') ext
    → get_extension (dir ++ b'/' ∷ (stem ++ b'.' ∷ ext)) ≡ ext
unfolding get_extension
get_extension_file dir stem ext h k l =
    let path : Bytes = dir ++ b'/' ∷ (stem ++ b'.' ∷ ext) in
    let regroup = append_assoc dir (b'/' ∷ stem) (b'.' ∷ ext) in
    let dot = rw regroup at (find_last-append b'.' (dir ++ b'/' ∷ stem) ext l) in
    let tail = rw regroup at (drop-suc_append (dir ++ b'/' ∷ stem) ext b'.') in
    let slash : find_last b'/' path ≡ some (length dir) =
      find_last-append b'/' dir (stem ++ b'.' ∷ ext)
        (All-append _ stem (b'.' ∷ ext) h (omega arith, k)) in
    let beyond : ltb (length dir) (length (dir ++ b'/' ∷ stem)) ≡ true =
      ground (arith, length-append dir (b'/' ∷ stem)) in
    rw (dot, get_extension, slash) (rw beyond tail)

-- The extension of a path with no slash is empty, also where the path has a dot.
get_extension_bare : (path : Bytes) → All (λ x. x ≢ b'/') path → get_extension path ≡ []
unfolding get_extension
get_extension_bare path h = ground (arith, find_last-none b'/' path h)
