-- ===== src/Pool.antt =====
-- src/dbconn_pool.cpp and src/redis_pool.cpp, which are the same code over two kinds of connections.
-- A connection is a pointer: here its number, with the two fields that the pools read. The pool also
-- records which numbers were given by `new`, and which went to `delete`. What the server at the other
-- end does is an argument of each call.
pub mod Spinlock
pub mod Interleaving
pub mod Conserved
pub mod Drained
use waspp.Base.{
  ℕ, zero, suc, ◌+◌, Bool, true, false, not, ◌&&◌, List, [], ◌∷◌, leb, ◌==◌, if◌then◌else◌,
}

-- `released` is in seconds.
pub record Conn : Type 0 where
  pub id : ℕ
  pub pooled : Bool
  pub released : ℕ

-- The head of `idle` is the back of the vector. The time limit is in whole seconds.
pub record Pool : Type 0 where
  pub idle : List Conn
  pub next : ℕ
  pub deleted : List ℕ
  pub timeout : ℕ

-- During one call: the clock, which connections answer (`ping`, `is_valid`), and whether a new one
-- can be made, or its constructor throws.
pub record Env : Type 0 where
  pub now : ℕ
  pub alive : Conn → Bool
  pub reachable : Bool

pub data Outcome : Type 0 where
  got : Conn → Pool → Outcome
  threw : Pool → Outcome

-- `connect(pooled_)`
unfoldable pub connect : Env → Bool → Pool → Outcome
connect env pooled p =
    if env.reachable
    then got (record { id = p.next; pooled = pooled; released = env.now })
        (record p { next = suc p.next })
    else threw p

-- `delete c;`
abbrev pub drop_conn : Conn → Pool → Pool
drop_conn c p = record p { deleted = c.id ∷ p.deleted }

-- `get_dbconn`, `get_rdconn` behind the lock: `difftime(now, released) >= timeout && !ping()`.
unfoldable pub check : Env → Conn → Pool → Outcome
unfolding connect
check env c p =
    if leb (c.released + p.timeout) env.now && not (env.alive c)
    then connect env true (drop_conn c p)
    else got c p

-- `get_dbconn`, `get_rdconn`
unfoldable pub get : Env → Pool → Outcome
unfolding check connect
get env p = elim p.idle [ [] ↦ connect env false p | c ∷ cs ↦ check env c (record p { idle = cs }) ]

-- `release_dbconn`, `release_rdconn`
unfoldable pub release : Env → Conn → Pool → Pool
release env c p =
    if not c.pooled
    then drop_conn c p
    else record p { idle = record c { released = env.now } ∷ p.idle }

-- What `fill_pool` returns, or that a constructor threw.
pub data Filled : Type 0 where
  filled : Bool → Pool → Filled
  failed : Pool → Filled

-- `for (i = 0; i < pool_size; ++i)`, with the environment of each round.
unfoldable pub fill_loop : ℕ → (ℕ → Env) → Pool → Filled
unfolding connect
fill_loop zero envs p = filled true p
fill_loop (suc n) envs p = elim (connect (envs n) true p) [
  | threw q ↦ failed q
  | got c q ↦ elim ((envs n).alive c) [
    | true ↦ fill_loop n envs (record q { idle = c ∷ q.idle })
    | false ↦ filled false (drop_conn c q)
  ]
]

-- `fill_pool`, for `pool_size` connections.
unfoldable pub fill : ℕ → (ℕ → Env) → Pool → Filled
unfolding fill_loop
fill size envs p = if size == 0 then filled false p else fill_loop size envs p

-- The pool as its constructor leaves it, with the time limit of its configuration.
abbrev pub new_pool : ℕ → Pool
new_pool timeout = record { idle = []; next = 0; deleted = []; timeout = timeout }
