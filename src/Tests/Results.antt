-- ===== src/Tests/Results.antt =====
-- A result's life, and two threads at a spinlock.
use waspp.Base.{ℕ, ◌+◌, refl, true, false, none, some, [], ◌∷◌, codes}
use waspp.Mysqlpp.Statement.{long_long}
use waspp.Mysqlpp.Fetch.{Client, Result, fetched, truncated}
use waspp.Pool.Spinlock.{
  lock_round, exchange, holders, Spinlock, locked, unlocked, waiting, holding, Reach, here, next,
  rounds, IsExclusive, Reach-IsExclusive,
}

-- A client that makes metadata each time, has one field, and stores two rows.
abbrev client : Client ℕ
client = record {
  result_metadata = λ w. (true, w + 1);
  fields = λ w.
      record { name = codes "last_key"; field_type = long_long; is_datetime = false; length = 8 }
      ∷ [];
  bind_result = λ w. (true, w + 1);
  store_result = λ w. (true, w + 1);
  rows = λ w. fetched ∷ truncated ∷ [];
  next_result = λ w. some ([], w + 1);
}

abbrev no_result : Result ℕ
no_result = record {
  client = 0;
  set = record { field_count = 0; columns = [] };
  rows = [];
  metadata = none;
  made = 0;
  freed = [];
}

abbrev begun : Spinlock
begun = record { state = unlocked; threads = waiting ∷ waiting ∷ [] }

-- The first thread enters, the second one waits.
abbrev taken : Spinlock
taken = record { state = locked; threads = holding ∷ waiting ∷ [] }

begun-taken : Reach begun taken
unfolding lock_round exchange
begun-taken = next (next here (rounds unlocked [] (waiting ∷ []))) (rounds locked (holding ∷ []) [])

begun-IsExclusive : IsExclusive begun
unfolding holders
begun-IsExclusive = refl

Reach-IsExclusive_example : IsExclusive taken
Reach-IsExclusive_example = Reach-IsExclusive begun-IsExclusive begun-taken
