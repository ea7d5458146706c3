-- ===== src/Mysqlpp/Places.antt =====
-- Where the bound values stand.
use waspp.Base.{
  set_at, replicate, ℕ, zero, suc, ◌+◌, ◌<◌, ◌≡◌, refl, sym, ap, ◌∙◌, List, [], ◌∷◌, ◌++◌, none,
  some, length, map, append_assoc, length-append, arith, leb, false, append-nil,
}
use waspp.Mysqlpp.Statement.{
  Bind, no_bind, Statement, statement, Value, bind_of, length_of, value_at, param, params,
}

-- Each value in its place, from `i` on, and the lengths.
abbrev pub placed : ℕ → List Value → List Bind
placed i [] = []
placed i (v ∷ vs) = bind_of i v ∷ placed (suc i) vs

abbrev pub sizes : List Value → List ℕ
sizes vs = map (λ v. length_of v 0) vs

-- A statement some of whose parameters are bound.
abbrev partly : List Bind → List ℕ → ℕ → Statement
partly bs ls k = record {
  param_count = length bs + k;
  bind_index = length bs;
  binds = bs ++ replicate k no_bind;
  lengths = ls ++ replicate k 0;
}

set_at_append :
    {A : Type 0} (xs ys : List A) (x y : A) → set_at (xs ++ x ∷ ys) (length xs) y ≡ xs ++ y ∷ ys
set_at_append [] ys x y = refl
set_at_append (z ∷ xs) ys x y = ap (◌∷◌ z) (set_at_append xs ys x y)

pub value_at_append : (xs ys : List ℕ) (x : ℕ) → value_at (xs ++ x ∷ ys) (length xs) ≡ x
value_at_append [] ys x = refl
value_at_append (z ∷ xs) ys x = value_at_append xs ys x

param-full : (v : Value) (bs : List Bind) (ls : List ℕ) → param v (partly bs ls 0) ≡ none
unfolding param
param-full v bs ls = ground arith

abbrev statement_of : ℕ → ℕ → List Bind → List ℕ → Statement
statement_of p i bs ls = record { param_count = p; bind_index = i; binds = bs; lengths = ls }

same_statement :
    {p q i j : ℕ} {bs cs : List Bind} {ls ms : List ℕ}
    → p ≡ q
    → i ≡ j
    → bs ≡ cs
    → ls ≡ ms
    → some (statement_of p i bs ls) ≡ some (statement_of q j cs ms)
same_statement a b c d = cc

param-room :
    (v : Value) (bs : List Bind) (ls : List ℕ) (k : ℕ)
    → length ls ≡ length bs
    → param v (partly bs ls (suc k))
      ≡ some (partly (bs ++ bind_of (length bs) v ∷ []) (ls ++ length_of v 0 ∷ []) k)
unfolding param
param-room v bs ls k e =
    let room : leb (length bs + suc k) (length bs) ≡ false = ground arith in
    let b = bind_of (length bs) v in
    let old =
      ap (value_at (ls ++ 0 ∷ replicate k 0)) (sym e) ∙ value_at_append ls (replicate k 0) 0 in
    rw (param, room)
      (same_statement (omega (arith, length-append bs (b ∷ [])))
        (omega (arith, length-append bs (b ∷ [])))
        (set_at_append bs (replicate k no_bind) no_bind b
          ∙ sym (append_assoc bs (b ∷ []) (replicate k no_bind)))
        (ap (λ l. set_at (ls ++ 0 ∷ replicate k 0) (length bs) (length_of v l)) old
          ∙ ap (λ i. set_at (ls ++ 0 ∷ replicate k 0) i (length_of v 0)) (sym e)
          ∙ set_at_append ls (replicate k 0) 0 (length_of v 0)
          ∙ sym (append_assoc ls (length_of v 0 ∷ []) (replicate k 0))))

pub length-placed : (i : ℕ) (vs : List Value) → length (placed i vs) ≡ length vs
length-placed i [] = refl
length-placed i (v ∷ vs) = ap suc (length-placed (suc i) vs)

params-partly :
    (vs : List Value) (bs : List Bind) (ls : List ℕ) (n k : ℕ)
    → length ls ≡ length bs
    → n ≡ length vs + k
    → params vs (partly bs ls n) ≡ some (partly (bs ++ placed (length bs) vs) (ls ++ sizes vs) k)
unfolding params
params-partly [] bs ls n k e h =
    let same : n ≡ k = omega arith in
    ap (λ n. some (partly bs ls n)) same
    ∙ ap (λ bs. some (partly bs ls k)) (sym (append-nil bs))
    ∙ ap (λ ls. some (partly (bs ++ []) ls k)) (sym (append-nil ls))
params-partly (v ∷ vs) bs ls zero k e h = absurd (omega arith)
params-partly (v ∷ vs) bs ls (suc n) k e h =
    let b = bind_of (length bs) v in
    let l = length_of v 0 in
    let size : length (bs ++ b ∷ []) ≡ suc (length bs) = omega (arith, length-append bs (b ∷ [])) in
    let rest =
      params-partly vs (bs ++ b ∷ []) (ls ++ l ∷ []) n k
        (omega (arith, size, length-append ls (l ∷ []))) (omega arith) in
    rw (params, param-room v bs ls n e)
      (rest
        ∙ ap (λ i. some (partly ((bs ++ b ∷ []) ++ placed i vs) ((ls ++ l ∷ []) ++ sizes vs) k))
            size
        ∙ ap (λ cs. some (partly cs ((ls ++ l ∷ []) ++ sizes vs) k))
            (append_assoc bs (b ∷ []) (placed (suc (length bs)) vs))
        ∙ ap (λ ms. some (partly (bs ++ (b ∷ placed (suc (length bs)) vs)) ms k))
            (append_assoc ls (l ∷ []) (sizes vs)))

params-throws :
    (vs : List Value) (bs : List Bind) (ls : List ℕ) (k : ℕ)
    → length ls ≡ length bs
    → k < length vs
    → params vs (partly bs ls k) ≡ none
unfolding params
params-throws [] bs ls k e h = absurd (omega arith)
params-throws (v ∷ vs) bs ls zero e h = rw (params, param-full v bs ls)
params-throws (v ∷ vs) bs ls (suc k) e h =
    let b = bind_of (length bs) v in
    rw (params, param-room v bs ls k e)
      (params-throws vs (bs ++ b ∷ []) (ls ++ length_of v 0 ∷ []) k
        (omega (arith, e, length-append bs (b ∷ []), length-append ls (length_of v 0 ∷ [])))
        (omega arith))

-- Values that are bound to a new statement with as many parameters, or more, each stand in their place
-- with their length, in their order, and the other places are as they were; one value more than there
-- are parameters throws.
pub params-statement :
    (vs : List Value) (v : Value) (k : ℕ)
    → (params vs (statement (length vs + k))
        ≡ some (record {
          param_count = length vs + k;
          bind_index = length vs;
          binds = placed 0 vs ++ replicate k no_bind;
          lengths = sizes vs ++ replicate k 0;
        }))
      × (params (v ∷ vs) (statement (length vs)) ≡ none)
params-statement vs v k =
    let n = length vs + k in
    (
      ap (params vs) (fresh n)
          ∙ params-partly vs [] [] n k refl refl
          ∙ same_statement (omega (arith, length-placed 0 vs)) (length-placed 0 vs) refl refl,
      ap (params (v ∷ vs)) (fresh (length vs))
          ∙ params-throws (v ∷ vs) [] [] (length vs) refl (omega arith),
    )
  where
    fresh : (n : ℕ) → statement n ≡ partly [] [] n
    fresh n = ap (λ m. statement_of m 0 (replicate n no_bind) (replicate n 0)) (omega arith)
