-- ===== src/Pool/Interleaving.antt =====
-- Threads that share a pool. The spin lock makes the removal from the vector, and the insertion, one
-- step each; the check of a connection is behind the lock, so that other steps may come between.
use waspp.Base.{◌≡◌, false, List, [], ◌∷◌, ◌++◌}
use waspp.Pool.{Conn, Pool, Env, got, threw, connect, check, release}

-- `held`: removed from the vector and not yet checked. `lent`: in the hands of clients.
pub record System : Type 0 where
  pub pool : Pool
  pub held : List Conn
  pub lent : List Conn

pub data Step : System → System → Type 0 where
  take :
      (s : System) (c : Conn) (cs : List Conn)
      → s.pool.idle ≡ c ∷ cs
      → Step s (record s { pool = record s.pool { idle = cs }; held = c ∷ s.held })
  checked :
      (s : System) (env : Env) (xs ys : List Conn) (c d : Conn) (p : Pool)
      → s.held ≡ xs ++ c ∷ ys
      → check env c s.pool ≡ got d p
      → Step s (record { pool = p; held = xs ++ ys; lent = d ∷ s.lent })
  check_threw :
      (s : System) (env : Env) (xs ys : List Conn) (c : Conn) (p : Pool)
      → s.held ≡ xs ++ c ∷ ys
      → check env c s.pool ≡ threw p
      → Step s (record s { pool = p; held = xs ++ ys })
  extra :
      (s : System) (env : Env) (d : Conn) (p : Pool)
      → s.pool.idle ≡ []
      → connect env false s.pool ≡ got d p
      → Step s (record s { pool = p; lent = d ∷ s.lent })
  give_back :
      (s : System) (env : Env) (xs ys : List Conn) (c : Conn)
      → s.lent ≡ xs ++ c ∷ ys
      → Step s (record s { pool = release env c s.pool; lent = xs ++ ys })

pub data Reach (s : System) : System → Type 0 where
  here : Reach s s
  next : {t u : System} → Reach s t → Step t u → Reach s u
