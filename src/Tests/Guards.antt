-- ===== src/Tests/Guards.antt =====
-- Shards with one pooled connection each, and a guard.
use waspp.Base.{ℕ, ◌≡◌, ◌≤◌, ◌<◌, ◌^◌, ◌↔◌, refl, true, List, [], ◌∷◌, codes, equal, All, length}
use waspp.Strtol.{skip_spaces, read_signed}
use waspp.Config.{Config, Section, empty_config}
use waspp.Config.Init.{strtoull, find_entry}
use waspp.Pool.{Conn, Env, fill, fill_loop, connect, get, check}
use waspp.Shards.{
  Shard, Shards, no_shards, read_keys, set_dbconn, set_shards, add_pools, database, loaded, init,
  by_key, acquire, dispose, holds,
}
use waspp.Shards.Range.{Selected, init-by_key_iff}
use waspp.Shards.Guards.{sizes, HoldsPooled, dispose-acquire}

abbrev section : Section
section =
    (codes "host", codes "h")
    ∷ (codes "userid", codes "u")
    ∷ (codes "passwd", codes "p")
    ∷ (codes "database", codes "d")
    ∷ (codes "port", codes "3306")
    ∷ (codes "charset", codes "utf8")
    ∷ (codes "pool_size", codes "1")
    ∷ (codes "wait_timeout_sec", codes "60")
    ∷ []

abbrev config : Config
config = record empty_config {
  cfg =
      (
        codes "db_shard",
        (codes "db_shard_count", codes "2") ∷ (codes "db_shard_format", codes "f") ∷ [],
      )
      ∷ (codes "a", section)
      ∷ (codes "b", section)
      ∷ [];
}

abbrev env : Env
env = record { now = 7; alive = λ c. true; reachable = true }

abbrev conn : Conn
conn = record { id = 0; pooled = true; released = 7 }

abbrev shard : List Conn → Shard
shard idle = record {
  settings = record {
    host = codes "h";
    userid = codes "u";
    passwd = codes "p";
    database = codes "d";
    port = 3306;
    charset = codes "utf8";
    pool_size = 1;
    timeout_sec = 60;
  };
  pool = record { idle = idle; next = 1; deleted = []; timeout = 60 };
}

abbrev shards : Shards
shards = record {
  shard_count = 2;
  shard_format = codes "f";
  pools = shard (conn ∷ []) ∷ shard (conn ∷ []) ∷ [];
}

init-shards :
    init (database strtoull) config (λ name i. env) (codes "a" ∷ codes "b" ∷ []) no_shards
    ≡ loaded true shards
unfolding init find_entry read_keys set_shards strtoull skip_spaces read_signed add_pools set_dbconn
    fill fill_loop connect equal
init-shards = refl

init-by_key_iff_example :
    ((key : ℕ) → key < 2 ^ 64 → Selected (codes "a" ∷ codes "b" ∷ []) key shards)
    ↔ ((1 ≤ shards.shard_count) × (shards.shard_count ≤ length (codes "a" ∷ codes "b" ∷ [])))
init-by_key_iff_example =
    init-by_key_iff (database strtoull) config (λ name i. env) (codes "a" ∷ codes "b" ∷ []) shards
      init-shards

abbrev taken : Shards
taken = record shards { pools = shard (conn ∷ []) ∷ shard [] ∷ [] }

acquire-taken : acquire env 5 shards ≡ holds 1 conn taken
unfolding acquire by_key get check
acquire-taken = refl

shards-pooled : All (λ d. HoldsPooled d.pool) shards.pools
shards-pooled = ((refl, tt), ((refl, tt), tt))

dispose-acquire_example : sizes (dispose env 1 conn taken).pools ≡ sizes shards.pools
dispose-acquire_example = dispose-acquire env env 5 1 conn shards taken shards-pooled acquire-taken
