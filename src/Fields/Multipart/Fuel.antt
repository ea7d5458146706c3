-- ===== src/Fields/Multipart/Fuel.antt =====
-- The loop over the parts of a multipart body has enough fuel on every content.
use waspp.Base.{
  ℕ, zero, suc, ◌+◌, ◌-◌, ◌≤◌, ◌<◌, ◌≡◌, refl, sym, ap, [], ◌∷◌, Bytes, length, find, find_from,
  starts_with, substr, none, some, inl, inr, Option-cases, arith,
}
use waspp.Request.{Request}
use waspp.Fields.Outcome.{Outcome-cases, done}
use waspp.Fields.Multipart.{parse_multipart_content, parts_loop}

-- Nothing is found behind the end of the text.
find_from-beyond :
    (s pat : Bytes) (pos : ℕ) → 0 < length pat → length s ≤ pos → find_from s pat pos ≡ none
unfolding find_from find starts_with
find_from-beyond s [] pos h k = absurd (omega arith)
find_from-beyond [] (p ∷ pat) zero h k = refl
find_from-beyond [] (p ∷ pat) (suc pos) h k = refl
find_from-beyond (c ∷ cs) (p ∷ pat) zero h k = absurd (omega arith)
find_from-beyond (c ∷ cs) (p ∷ pat) (suc pos) h k =
    ground (arith, find_from-beyond cs (p ∷ pat) pos)

find_from-le : (s pat : Bytes) (pos i : ℕ) → find_from s pat pos ≡ some i → pos ≤ i
unfolding find_from
find_from-le s pat pos i h = ground arith

-- A part adds to the parameters or to the uploads, and leaves the content.
parse_multipart_content-content :
    (s : Bytes) (req req' : Request)
    → parse_multipart_content s req ≡ done req'
    → req'.content ≡ req.content
unfolding parse_multipart_content
parse_multipart_content-content s req req' h = ground arith

parts_loop-beyond :
    (n : ℕ) (sep : Bytes) (old_pos : ℕ) (req : Request)
    → 0 < length sep
    → length req.content ≤ old_pos
    → parts_loop n sep old_pos req ≡ (done req, old_pos)
unfolding parts_loop
parts_loop-beyond zero sep old_pos req h k = refl
parts_loop-beyond (suc n) sep old_pos req h k =
    ground (arith, find_from-beyond req.content sep old_pos h k)

-- With a separator that is not empty, two numbers of rounds that both exceed what is left of the
-- content give the same: the loop never
-- stops for want of fuel.
parts_loop-fuel :
    (m n : ℕ) (sep : Bytes) (old_pos : ℕ) (req : Request)
    → 0 < length sep
    → length req.content < m + old_pos
    → length req.content < n + old_pos
    → parts_loop m sep old_pos req ≡ parts_loop n sep old_pos req
unfolding parts_loop
parts_loop-fuel zero n sep old_pos req h k l =
    sym (parts_loop-beyond n sep old_pos req h (omega arith))
parts_loop-fuel (suc m) zero sep old_pos req h k l =
    parts_loop-beyond (suc m) sep old_pos req h (omega arith)
parts_loop-fuel (suc m) (suc n) sep old_pos req h k l =
    elim (Option-cases (find_from req.content sep old_pos)) [
      | inl missing ↦ ground arith
      | inr (pos, found) ↦
          let further = find_from-le req.content sep old_pos pos found in
          let part = parse_multipart_content (substr req.content old_pos (pos - old_pos)) req in
          elim (Outcome-cases part) [
            | inl (req', parsed) ↦
                let same =
                  parse_multipart_content-content (substr req.content old_pos (pos - old_pos)) req
                    req' parsed in
                let left = ap length same in
                ground (arith, parts_loop-fuel m n sep (pos + length sep) req')
            | inr other ↦ ground arith
          ]
    ]
