-- ===== src/Shards/Guards.antt =====
-- The guards that take a connection and give it back.
use waspp.Base.{
  ℕ, zero, suc, ◌≡◌, ◌⊎◌, refl, sym, subst, ap, ◌∙◌, true, List, [], ◌∷◌, some, inl, inr,
  Option-cases, get_elem?, set_at, length, All, All-get_elem?, map, arith,
}
use waspp.Pool.{Conn, Pool, Env, Outcome, got, threw, get, check, connect, release}
use waspp.Shards.{Shard, Shards, by_key, Scoped, holds, refused, undefined, acquire, dispose}

-- The vector of a pool holds pooled connections only.
abbrev pub HoldsPooled : Pool → Type 0
HoldsPooled p = All (λ c. c.pooled ≡ true) p.idle

-- Taking a connection out of a pool and giving it back leaves as many in the vector.
get-release_size :
    (env env' : Env) (p q : Pool) (c : Conn)
    → HoldsPooled p
    → get env p ≡ got c q
    → length (release env' c q).idle ≡ length p.idle
unfolding get check connect release
get-release_size env env' p q c v h = elim (idle-cases p.idle) [
  | inl empty ↦ ground arith
  | inr (d, ds, one) ↦
      let pooled : All (λ c. c.pooled ≡ true) (d ∷ ds) = subst (All (λ c. c.pooled ≡ true)) one v in
      let first = pooled.0 in ground arith
]
  where
    idle-cases : (cs : List Conn) → (cs ≡ []) ⊎ ((d : Conn) × (ds : List Conn) × (cs ≡ d ∷ ds))
    idle-cases [] = inl refl
    idle-cases (d ∷ ds) = inr (d, ds, refl)

get_elem?-set_at :
    {A : Type 0} (xs : List A) (i : ℕ) (x y : A)
    → get_elem? xs i ≡ some x
    → get_elem? (set_at xs i y) i ≡ some y
get_elem?-set_at [] i x y h = absurd cc
get_elem?-set_at (z ∷ xs) zero x y h = refl
get_elem?-set_at (z ∷ xs) (suc i) x y h = get_elem?-set_at xs i x y h

set_at-set_at :
    {A : Type 0} (xs : List A) (i : ℕ) (x y : A) → set_at (set_at xs i x) i y ≡ set_at xs i y
set_at-set_at [] i x y = refl
set_at-set_at (z ∷ xs) zero x y = refl
set_at-set_at (z ∷ xs) (suc i) x y = ap (◌∷◌ z) (set_at-set_at xs i x y)

abbrev pub sizes : List Shard → List ℕ
sizes ds = map (λ d. length d.pool.idle) ds

sizes-set_at :
    (ds : List Shard) (i : ℕ) (d e : Shard)
    → get_elem? ds i ≡ some d
    → length e.pool.idle ≡ length d.pool.idle
    → sizes (set_at ds i e) ≡ sizes ds
sizes-set_at [] i d e h k = absurd cc
sizes-set_at (x ∷ ds) zero d e h k = ground arith
sizes-set_at (x ∷ ds) (suc i) d e h k = ap (◌∷◌ (length x.pool.idle)) (sizes-set_at ds i d e h k)

-- What the guard in hand leaves when it is destroyed.
abbrev Leaves : Env → List ℕ → Scoped → Type 0
Leaves env ns (holds i c s) = sizes (dispose env i c s).pools ≡ ns
Leaves env ns (refused s) = Unit
Leaves env ns undefined = Unit

acquire-got :
    (env : Env) (key j : ℕ) (d : Shard) (e : Conn) (p : Pool) (s : Shards)
    → by_key key s ≡ some j
    → get_elem? s.pools j ≡ some d
    → get env d.pool ≡ got e p
    → acquire env key s ≡ holds j e (record s { pools = set_at s.pools j (record d { pool = p }) })
unfolding acquire
acquire-got env key j d e p s selected there given = ground arith

dispose-pools :
    (env : Env) (i : ℕ) (c : Conn) (s : Shards) (d : Shard)
    → get_elem? s.pools i ≡ some d
    → (dispose env i c s).pools ≡ set_at s.pools i (record d { pool = release env c d.pool })
unfolding dispose
dispose-pools env i c s d there = ground arith

-- A guard that was made for a key and is destroyed leaves every pool with as many idle connections as
-- before, where the pools hold pooled connections only, also when a broken connection was
-- replaced, or the pool was empty and the guard had a connection of its own.
pub dispose-acquire :
    (env env' : Env) (key i : ℕ) (c : Conn) (s s' : Shards)
    → All (λ d. HoldsPooled d.pool) s.pools
    → acquire env key s ≡ holds i c s'
    → sizes (dispose env' i c s').pools ≡ sizes s.pools
unfolding acquire
dispose-acquire env env' key i c s s' v h = elim (Option-cases (by_key key s)) [
  | inl nowhere ↦ absurd (ground arith)
  | inr (j, selected) ↦ elim (Option-cases (get_elem? s.pools j)) [
    | inl nowhere ↦ absurd (ground arith)
    | inr (d, there) ↦ elim (Outcome-cases (get env d.pool)) [
      | inr (p, broken) ↦ absurd (ground arith)
      | inl (e, p, given) ↦
          let d1 : Shard = record d { pool = p } in
          let d2 : Shard = record d { pool = release env' e p } in
          let s1 : Shards = record s { pools = set_at s.pools j d1 } in
          let pooled = All-get_elem? (λ d. HoldsPooled d.pool) s.pools j d v there in
          let size = get-release_size env env' d.pool p e pooled given in
          let left : sizes (dispose env' j e s1).pools ≡ sizes s.pools =
            ap sizes (
              dispose-pools env' j e s1 d1 (get_elem?-set_at s.pools j d d1 there)
              ∙ set_at-set_at s.pools j d1 d2)
            ∙ sizes-set_at s.pools j d d2 there size in
          subst (Leaves env' (sizes s.pools))
            (sym (acquire-got env key j d e p s selected there given) ∙ h) left
    ]
  ]
]
  where
    Outcome-cases :
        (o : Outcome) → ((e : Conn) × (p : Pool) × (o ≡ got e p)) ⊎ ((p : Pool) × (o ≡ threw p))
    Outcome-cases (got e p) = inl (e, p, refl)
    Outcome-cases (threw p) = inr (p, refl)
