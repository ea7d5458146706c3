-- ===== src/Pool/Drained.antt =====
-- The number of pooled connections of the pools in src/dbconn_pool.cpp and src/redis_pool.cpp, over
-- any steps of their threads.
use waspp.Base.{
  ℕ, suc, ◌+◌, ◌≤◌, ◌≡◌, refl, ap, ◌∙◌, true, false, List, [], ◌∷◌, ◌++◌, if◌then◌else◌, length,
  arith,
}
use waspp.Pool.{Conn, Pool, Env, got, threw, connect, check, release}
use waspp.Pool.Interleaving.{
  System, Step, take, checked, check_threw, extra, give_back, Reach, here, next,
}

-- The pooled connections among some.
abbrev pub count_pooled : List Conn → ℕ
count_pooled [] = 0
count_pooled (c ∷ cs) = (if c.pooled then 1 else 0) + count_pooled cs

count_pooled-append :
    (xs ys : List Conn) → count_pooled (xs ++ ys) ≡ count_pooled xs + count_pooled ys
count_pooled-append [] ys = omega arith
count_pooled-append (x ∷ xs) ys = omega (arith, count_pooled-append xs ys)

abbrev pub total_pooled : System → ℕ
total_pooled s = count_pooled s.pool.idle + count_pooled s.held + count_pooled s.lent

-- What stands in the vector, or comes from it, is pooled.
pub record OnlyPooled (s : System) : Type 0 where
  pub idle_pooled : count_pooled s.pool.idle ≡ length s.pool.idle
  pub held_pooled : count_pooled s.held ≡ length s.held

count_pooled-le : (xs : List Conn) → count_pooled xs ≤ length xs
count_pooled-le [] = omega arith
count_pooled-le (x ∷ xs) = ground (arith, count_pooled-le xs)

length-append_middle :
    (xs ys : List Conn) (c : Conn) → length (xs ++ c ∷ ys) ≡ suc (length (xs ++ ys))
length-append_middle [] ys c = refl
length-append_middle (x ∷ xs) ys c = ap suc (length-append_middle xs ys c)

-- A thread's connection, taken out of the list.
record Middle (zs xs ys : List Conn) (c : Conn) : Type 0 where
  pooled_total : count_pooled zs ≡ count_pooled (xs ++ ys) + count_pooled (c ∷ [])
  size : length zs ≡ suc (length (xs ++ ys))

middle : (zs xs ys : List Conn) (c : Conn) → zs ≡ xs ++ c ∷ ys → Middle zs xs ys c
middle zs xs ys c e = record {
  pooled_total =
      ap count_pooled e ∙ omega (arith, count_pooled-append xs (c ∷ ys), count_pooled-append xs ys);
  size = ap length e ∙ length-append_middle xs ys c;
}

-- What a check makes of a pooled connection.
check-pooled :
    (env : Env) (c d : Conn) (p q : Pool)
    → check env c p ≡ got d q
    → c.pooled ≡ true
    → (d.pooled ≡ true) × (q.idle ≡ p.idle)
unfolding check connect
check-pooled env c d p q e h = ground arith

check_threw-idle : (env : Env) (c : Conn) (p q : Pool) → check env c p ≡ threw q → q.idle ≡ p.idle
unfolding check connect
check_threw-idle env c p q e = ground arith

connect-unpooled :
    (env : Env) (d : Conn) (p q : Pool)
    → connect env false p ≡ got d q
    → (d.pooled ≡ false) × (q.idle ≡ p.idle)
unfolding connect
connect-unpooled env d p q e = ground arith

held-pooled :
    (zs xs ys : List Conn) (c : Conn)
    → Middle zs xs ys c
    → count_pooled zs ≡ length zs
    → c.pooled ≡ true
held-pooled zs xs ys c m h = ground (arith, m.pooled_total, m.size, count_pooled-le (xs ++ ys))

abbrev pub Keeps : System → System → Type 0
Keeps s t = OnlyPooled t × (total_pooled t ≤ total_pooled s)

Step-Keeps : {s t : System} → Step s t → OnlyPooled s → Keeps s t
unfolding release
Step-Keeps (take s c cs e) h = ground (arith, ap count_pooled e, ap length e, count_pooled-le cs)
Step-Keeps (checked s env xs ys c d p e k) h =
    let m = middle s.held xs ys c e in
    let kept = check-pooled env c d s.pool p k (held-pooled s.held xs ys c m h.held_pooled) in
    ground (arith, m, kept, ap count_pooled kept.1, ap length kept.1, count_pooled-le (xs ++ ys))
Step-Keeps (check_threw s env xs ys c p e k) h =
    let m = middle s.held xs ys c e in
    let idle = check_threw-idle env c s.pool p k in
    ground (
      arith,
      m,
      ap count_pooled idle,
      ap length idle,
      count_pooled-le (xs ++ ys),
      held-pooled s.held xs ys c m h.held_pooled,
    )
Step-Keeps (extra s env d p e k) h =
    let kept = connect-unpooled env d s.pool p k in
    ground (arith, kept, ap count_pooled kept.1, ap length kept.1)
Step-Keeps (give_back s env xs ys c e) h = ground (arith, middle s.lent xs ys c e)

-- However the threads interleave, if at the start the vector and the threads that check hold only
-- pooled connections, then they do so in every state that is reached, and the number of pooled connections, lent ones included, never grows.
Reach-Keeps : {s t : System} → Reach s t → OnlyPooled s → Keeps s t
Reach-Keeps here h = (h, omega arith)
Reach-Keeps (next r st) h =
    let before = Reach-Keeps r h in
    let after = Step-Keeps st before.0 in (after.0, omega (arith, before.1, after.1))

-- From a state with no pooled connection, lent ones included, the vector is empty in every state
-- that is reached.
Reach-drained : {s t : System} → Reach s t → OnlyPooled s → total_pooled s ≡ 0 → t.pool.idle ≡ []
Reach-drained {t} r h z =
    let k = Reach-Keeps r h in empty t.pool.idle (omega (arith, k.1, k.0.idle_pooled))
  where
    empty : (xs : List Conn) → length xs ≡ 0 → xs ≡ []
    empty [] e = refl
    empty (x ∷ xs) e = absurd (omega arith)
