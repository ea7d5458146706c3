-- ===== src/Tests/Pools.antt =====
-- The pools in a short run of two threads.
use waspp.Base.{◌≡◌, refl, true, false, [], ◌∷◌, arith}
use waspp.Pool.{Pool, Conn, Env, connect, got}
use waspp.Pool.Interleaving.{System, take, extra, Reach, here, next}
use waspp.Pool.Conserved.{IsConserved, Reach-IsConserved, alone}
use waspp.Pool.Drained.{OnlyPooled}

abbrev env : Env
env = record { now = 7; alive = λ c. true; reachable = true }

abbrev idle_conn : Conn
idle_conn = record { id = 0; pooled = true; released = 7 }

abbrev one : Pool
one = record { idle = idle_conn ∷ []; next = 1; deleted = []; timeout = 5 }

-- A thread takes the connection, another finds the vector empty and makes its own, and the first
-- gives its connection back.
abbrev after_take : System
after_take = record { pool = record one { idle = [] }; held = idle_conn ∷ []; lent = [] }

abbrev after_extra : System
after_extra = record {
  pool = record { idle = []; next = 2; deleted = []; timeout = 5 };
  held = idle_conn ∷ [];
  lent = record { id = 1; pooled = false; released = 7 } ∷ [];
}

extra_made :
    connect env false after_take.pool
    ≡ got (record { id = 1; pooled = false; released = 7 }) after_extra.pool
unfolding connect
extra_made = refl

run : Reach (alone one) after_extra
run = next (next here (take (alone one) idle_conn [] refl)) (
    extra after_take env (record { id = 1; pooled = false; released = 7 }) after_extra.pool refl
      extra_made)

one-IsConserved : IsConserved (alone one)
one-IsConserved i = ground arith

one-OnlyPooled : OnlyPooled (alone one)
one-OnlyPooled = record { idle_pooled = refl; held_pooled = refl }

Reach-IsConserved_example : IsConserved after_extra
Reach-IsConserved_example = Reach-IsConserved run one-IsConserved
