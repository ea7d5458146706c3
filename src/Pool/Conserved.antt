-- ===== src/Pool/Conserved.antt =====
-- No connection is lost, handed out twice, or deleted twice.
use waspp.Base.{
  ℕ, zero, suc, inl, inr, Bool-cases, ◌+◌, ◌≡◌, ap, ◌∙◌, Bool, true, false, List, [], ◌∷◌, ◌++◌,
  ltb, ◌==◌, if◌then◌else◌, arith,
}
use waspp.Pool.{
  Conn, Pool, Env, got, threw, connect, check, release, Filled, filled, failed, fill_loop, fill,
  new_pool,
}
use waspp.Pool.Interleaving.{
  System, Step, take, checked, check_threw, extra, give_back, Reach, here, next,
}

-- How often a number occurs.
abbrev pub count : ℕ → List ℕ → ℕ
count i [] = 0
count i (j ∷ js) = (if j == i then 1 else 0) + count i js

abbrev pub count_conns : ℕ → List Conn → ℕ
count_conns i [] = 0
count_conns i (c ∷ cs) = (if c.id == i then 1 else 0) + count_conns i cs

pub count_conns-append :
    (i : ℕ) (xs ys : List Conn) → count_conns i (xs ++ ys) ≡ count_conns i xs + count_conns i ys
count_conns-append i [] ys = omega arith
count_conns-append i (x ∷ xs) ys = omega (arith, count_conns-append i xs ys)

-- Every number that `new` has given is idle, being checked, lent or deleted, and that once; no other
-- number is anywhere.
abbrev pub IsConserved : System → Type 0
IsConserved s =
    (i : ℕ)
    → count_conns i s.pool.idle
        + count_conns i s.held
        + count_conns i s.lent
        + count i s.pool.deleted
      ≡ (if ltb i s.pool.next then 1 else 0)

-- One number more than before, or the same: what an outcome adds to the pool and hands out.
check-count :
    (i : ℕ) (env : Env) (c d : Conn) (p q : Pool)
    → check env c p ≡ got d q
    → count_conns i q.idle
        + count_conns i (d ∷ [])
        + count i q.deleted
        + (if ltb i p.next then 1 else 0)
      ≡ count_conns i p.idle
        + count_conns i (c ∷ [])
        + count i p.deleted
        + (if ltb i q.next then 1 else 0)
unfolding check connect
check-count i env c d p q e = ground arith

check_threw-count :
    (i : ℕ) (env : Env) (c : Conn) (p q : Pool)
    → check env c p ≡ threw q
    → count_conns i q.idle + count i q.deleted + (if ltb i p.next then 1 else 0)
      ≡ count_conns i p.idle
        + count_conns i (c ∷ [])
        + count i p.deleted
        + (if ltb i q.next then 1 else 0)
unfolding check connect
check_threw-count i env c p q e = ground arith

connect-count :
    (i : ℕ) (env : Env) (pooled : Bool) (d : Conn) (p q : Pool)
    → connect env pooled p ≡ got d q
    → count_conns i q.idle
        + count_conns i (d ∷ [])
        + count i q.deleted
        + (if ltb i p.next then 1 else 0)
      ≡ count_conns i p.idle + count i p.deleted + (if ltb i q.next then 1 else 0)
unfolding connect
connect-count i env pooled d p q e = ground arith

release-count :
    (i : ℕ) (env : Env) (c : Conn) (p : Pool)
    → count_conns i (release env c p).idle
        + count i (release env c p).deleted
        + (if ltb i p.next then 1 else 0)
      ≡ count_conns i p.idle
        + count_conns i (c ∷ [])
        + count i p.deleted
        + (if ltb i (release env c p).next then 1 else 0)
unfolding release
release-count i env c p = ground arith

count_conns_middle :
    (i : ℕ) (zs xs ys : List Conn) (c : Conn)
    → zs ≡ xs ++ c ∷ ys
    → count_conns i zs ≡ count_conns i (xs ++ ys) + count_conns i (c ∷ [])
count_conns_middle i zs xs ys c e =
    ap (count_conns i) e
    ∙ omega (arith, count_conns-append i xs (c ∷ ys), count_conns-append i xs ys)

pub Step-IsConserved : {s t : System} → Step s t → IsConserved s → IsConserved t
Step-IsConserved (take s c cs e) h i = omega (arith, h i, ap (count_conns i) e)
Step-IsConserved (checked s env xs ys c d p e k) h i =
    omega (arith, h i, count_conns_middle i s.held xs ys c e, check-count i env c d s.pool p k)
Step-IsConserved (check_threw s env xs ys c p e k) h i =
    omega (arith, h i, count_conns_middle i s.held xs ys c e, check_threw-count i env c s.pool p k)
Step-IsConserved (extra s env d p e k) h i =
    omega (arith, h i, connect-count i env false d s.pool p k)
Step-IsConserved (give_back s env xs ys c e) h i =
    omega (arith, h i, count_conns_middle i s.lent xs ys c e, release-count i env c s.pool)

-- However the threads interleave, if at the start each connection that was made is in exactly one
-- place, idle, being checked by one thread, lent to one client, or deleted once, then this holds in
-- every state that is reached.
pub Reach-IsConserved : {s t : System} → Reach s t → IsConserved s → IsConserved t
Reach-IsConserved here h = h
Reach-IsConserved (next r st) h = Step-IsConserved st (Reach-IsConserved r h)

abbrev pub pool_of : Filled → Pool
pool_of (filled b p) = p
pool_of (failed p) = p

abbrev pub alone : Pool → System
alone p = record { pool = p; held = []; lent = [] }

fill_loop-IsConserved :
    (n : ℕ) (envs : ℕ → Env) (p : Pool)
    → IsConserved (alone p)
    → IsConserved (alone (pool_of (fill_loop n envs p)))
unfolding fill_loop connect
fill_loop-IsConserved zero envs p h = h
fill_loop-IsConserved (suc n) envs p h =
    let c : Conn = record { id = p.next; pooled = true; released = (envs n).now } in
    let q = record p { next = suc p.next } in
    elim (Bool-cases (envs n).reachable) [
      | inl up ↦
          rw (up, fill_loop, connect)
            (elim (Bool-cases ((envs n).alive c)) [
              | inl answers ↦ rw answers (
                  fill_loop-IsConserved n envs (record q { idle = c ∷ p.idle })
                    (λ i. ground (arith, h i)))
              | inr silent ↦ rw silent (λ i. ground (arith, h i))
            ])
      | inr down ↦ rw (down, fill_loop, connect) h
    ]

-- After `fill_pool` on a new pool each connection that was made is idle, or deleted once, whether it
-- succeeds, stops at a connection that does not answer, or throws.
fill-IsConserved :
    (size timeout : ℕ) (envs : ℕ → Env)
    → IsConserved (alone (pool_of (fill size envs (new_pool timeout))))
unfolding fill
fill-IsConserved size timeout envs = elim (Bool-cases (size == 0)) [
  | inl none_wanted ↦ rw none_wanted (λ i. ground arith)
  | inr some_wanted ↦
      rw some_wanted (fill_loop-IsConserved size envs (new_pool timeout) (λ i. ground arith))
]
