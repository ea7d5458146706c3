-- ===== src/Base/Text.antt =====
-- `std::string` as a list of bytes: literals, equality, `find`, `substr`.
use Prim.Native.Nat.{ℕ, zero, suc, ◌+◌, ◌<◌}
use Prim.Native.Char.{code}
use Prim.Native.String.{String}
use mathlib.Core.Path.{◌≡◌, refl}
use mathlib.Core.Logic.{◌≢◌, ◌↔◌}
use mathlib.Core.Bool.{Bool, true, false, ◌&&◌}
use mathlib.Core.List.{List, [], ◌∷◌, ◌++◌}
use mathlib.Core.Option
use mathlib.Core.Option.{Option, none, some}
use native.Mathlib.Omega.{arith}
use waspp.Base.Tests.{==_iff, ◌==◌, if◌then◌else◌}
use waspp.Base.Lists.{length, take, drop, All}

abbrev pub Bytes : Type 0
Bytes = List ℕ

-- A `char` holds a byte: a number below 256, its unsigned reading.
abbrev pub IsBytes : Bytes → Type 0
IsBytes = All λ c. c < 256

-- The bytes of an ASCII literal.
abbrev pub codes : String → Bytes
codes String.[] = []
codes (String.◌∷◌ c s) = code c ∷ codes s

-- `operator==`
unfoldable pub equal : Bytes → Bytes → Bool
equal [] [] = true
equal (x ∷ xs) (y ∷ ys) = (x == y) && equal xs ys
equal _ _ = false

pub equal_iff : (s t : Bytes) → (equal s t ≡ true) ↔ (s ≡ t)
unfolding equal
equal_iff [] [] = ground arith
equal_iff [] (d ∷ t) = ground arith
equal_iff (c ∷ s) [] = ground arith
equal_iff (c ∷ s) (d ∷ t) = ground (arith, equal_iff s t)

abbrev pub is_empty {ℓ} : {A : Type ℓ} → List A → Bool
is_empty [] = true
is_empty (x ∷ xs) = false

-- `s` begins with `pat`.
unfoldable pub starts_with : Bytes → Bytes → Bool
starts_with s [] = true
starts_with [] (p ∷ ps) = false
starts_with (c ∷ cs) (p ∷ ps) = (c == p) && starts_with cs ps

-- `s.find(pat)`: where `pat` first begins in `s`; `none` is `npos`.
unfoldable pub find : Bytes → Bytes → Option ℕ
unfolding starts_with
find [] pat = if starts_with [] pat then some 0 else none
find (c ∷ cs) pat = if starts_with (c ∷ cs) pat then some 0 else Option.map suc (find cs pat)

-- `s.find(pat, pos)` for `pos <= s.size()`, the position counted from the start of `s`.
unfoldable pub find_from : Bytes → Bytes → ℕ → Option ℕ
unfolding find
find_from s pat pos = Option.map (λ i. pos + i) (find (drop pos s) pat)

-- `s.substr(pos, n)` for `pos <= s.size()`.
abbrev pub substr : Bytes → ℕ → ℕ → Bytes
substr s pos n = take n (drop pos s)

starts_with-splits : (s pat : Bytes) → starts_with s pat ≡ true → s ≡ pat ++ drop (length pat) s
unfolding starts_with
starts_with-splits s [] h = refl
starts_with-splits [] (p ∷ ps) h = cc
starts_with-splits (c ∷ cs) (p ∷ ps) h = ground (arith, starts_with-splits cs ps)

-- What `find` returns is an occurrence.
pub find-splits :
    (s pat : Bytes) (i : ℕ)
    → find s pat ≡ some i
    → s ≡ take i s ++ (pat ++ drop (length pat) (drop i s))
unfolding find
find-splits [] pat i h = ground (arith, starts_with-splits [] pat)
find-splits (c ∷ cs) pat zero h = ground (arith, starts_with-splits (c ∷ cs) pat)
find-splits (c ∷ cs) pat (suc i) h = ground (arith, find-splits cs pat i)

starts_with-append : (pat post : Bytes) → starts_with (pat ++ post) pat ≡ true
unfolding starts_with
starts_with-append [] post = refl
starts_with-append (p ∷ ps) post = ground (arith, starts_with-append ps post, ==_iff p p)

find-here : (s pat : Bytes) → starts_with s pat ≡ true → find s pat ≡ some 0
unfolding find
find-here [] pat h = rw h
find-here (c ∷ cs) pat h = rw h

find-later : (c : ℕ) (cs pat : Bytes) → find cs pat ≢ none → find (c ∷ cs) pat ≢ none
unfolding find
find-later c cs pat h = ground arith

-- Where there is an occurrence, `find` returns one.
pub find-occurs : (pre pat post : Bytes) → find (pre ++ (pat ++ post)) pat ≢ none
find-occurs [] pat post = ground (arith, find-here (pat ++ post) pat (starts_with-append pat post))
find-occurs (c ∷ pre) pat post = find-later c (pre ++ (pat ++ post)) pat (find-occurs pre pat post)
