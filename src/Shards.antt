-- ===== src/Shards.antt =====
-- src/database.cpp and src/redis.cpp, which are the same code over two kinds of pools, and `init_pool`
-- of src/dbconn_pool.cpp and src/redis_pool.cpp. A vector of pools is a list.
pub mod Loading
pub mod Range
pub mod Guards
use waspp.Base.{
  ℕ, zero, suc, ◌%◌, ◌^◌, Bool, true, false, List, [], ◌∷◌, ◌++◌, ◌==◌, if◌then◌else◌, Bytes, codes,
  equal, Option, none, some, get_elem?, set_at,
}
use waspp.Config.{Config, Section}
use waspp.Config.Init.{strtoull, find_entry}
use waspp.Pool.{
  Conn, Pool, Env, Filled, filled, failed, fill, new_pool, connect, got, threw, release,
}
use waspp.Pool as Pool

-- The settings of a pool. A pool of connections to Redis leaves four of them alone. Durations are in
-- whole seconds.
pub record Settings : Type 0 where
  pub host : Bytes
  pub userid : Bytes
  pub passwd : Bytes
  pub database : Bytes
  pub port : ℕ
  pub charset : Bytes
  pub pool_size : ℕ
  pub timeout_sec : ℕ

-- The constructors.
abbrev pub no_settings : Settings
no_settings = record {
  host = [];
  userid = [];
  passwd = [];
  database = [];
  port = 0;
  charset = [];
  pool_size = 0;
  timeout_sec = 0;
}

-- `strtoul(s, nullptr, 0)` of 64 bits, put into an `unsigned int`.
abbrev pub strtoul_uint : Bytes → ℕ
strtoul_uint s = strtoull s % 2 ^ 32

-- The loop over the keys of a section, which returns false at one that is missing.
unfoldable pub read_keys {ℓ} :
    {S : Type ℓ} → (Bytes → Bytes → S → S) → Section → List Bytes → S → Bool × S
read_keys set section [] s = (true, s)
read_keys set section (k ∷ ks) s = elim (find_entry k section) [
  | none ↦ (false, s)
  | some v ↦ read_keys set section ks (set k v s)
]

-- One key of `dbconn_pool::init_pool`.
unfoldable pub set_dbconn : (Bytes → ℕ) → Bytes → Bytes → Settings → Settings
set_dbconn strtod k v s =
    if equal k (codes "host")
    then record s { host = v }
    else if equal k (codes "userid")
    then record s { userid = v }
    else if equal k (codes "passwd")
    then record s { passwd = v }
    else if equal k (codes "database")
    then record s { database = v }
    else if equal k (codes "port")
    then record s { port = strtoul_uint v }
    else if equal k (codes "charset")
    then record s { charset = v }
    else if equal k (codes "pool_size")
    then record s { pool_size = strtoull v }
    else if equal k (codes "wait_timeout_sec")
    then record s { timeout_sec = strtod v }
    else s

abbrev pub dbconn_keys : List Bytes
dbconn_keys =
    codes "host"
    ∷ codes "userid"
    ∷ codes "passwd"
    ∷ codes "database"
    ∷ codes "port"
    ∷ codes "charset"
    ∷ codes "pool_size"
    ∷ codes "wait_timeout_sec"
    ∷ []

-- One key of `redis_pool::init_pool`.
unfoldable pub set_redis : (Bytes → ℕ) → Bytes → Bytes → Settings → Settings
set_redis strtod k v s =
    if equal k (codes "host")
    then record s { host = v }
    else if equal k (codes "port")
    then record s { port = strtoul_uint v }
    else if equal k (codes "pool_size")
    then record s { pool_size = strtoull v }
    else if equal k (codes "timeout_sec")
    then record s { timeout_sec = strtod v }
    else s

abbrev pub redis_keys : List Bytes
redis_keys = codes "host" ∷ codes "port" ∷ codes "pool_size" ∷ codes "timeout_sec" ∷ []

-- What differs between the two classes: the section of the shards, its two keys, and `init_pool`.
pub record Kind : Type 0 where
  pub section : Bytes
  pub count_key : Bytes
  pub format_key : Bytes
  pub init_pool : Section → Settings → Bool × Settings

abbrev pub database : (Bytes → ℕ) → Kind
database strtod = record {
  section = codes "db_shard";
  count_key = codes "db_shard_count";
  format_key = codes "db_shard_format";
  init_pool = λ cfg. read_keys (set_dbconn strtod) cfg dbconn_keys;
}

abbrev pub redis : (Bytes → ℕ) → Kind
redis strtod = record {
  section = codes "rd_shard";
  count_key = codes "rd_shard_count";
  format_key = codes "rd_shard_format";
  init_pool = λ cfg. read_keys (set_redis strtod) cfg redis_keys;
}

-- A pool with its settings, and the members of the classes.
pub record Shard : Type 0 where
  pub settings : Settings
  pub pool : Pool

pub record Shards : Type 0 where
  pub shard_count : ℕ
  pub shard_format : Bytes
  pub pools : List Shard

abbrev pub no_shards : Shards
no_shards = record { shard_count = 0; shard_format = []; pools = [] }

-- `init` returns, or an exception leaves it.
pub data Loaded : Type 0 where
  loaded : Bool → Shards → Loaded
  failed_init : Shards → Loaded

unfoldable pub set_shards : Kind → Bytes → Bytes → Shards → Shards
set_shards kind k v s =
    if equal k kind.count_key
    then record s { shard_count = strtoul_uint v }
    else if equal k kind.format_key
    then record s { shard_format = v }
    else s

-- The loop over the names: `fill` is short for `fill_pool` with what the servers do meanwhile.
unfoldable pub add_pools : Kind → Config → (Bytes → ℕ → Env) → List Bytes → Shards → Loaded
add_pools kind cfg envs [] s = loaded true s
add_pools kind cfg envs (name ∷ names) s = elim (find_entry name cfg.cfg) [
  | none ↦ failed_init s
  | some section ↦
      let (found, settings) = kind.init_pool section no_settings in
      elim found [
        | false ↦ loaded false s
        | true ↦ elim (fill settings.pool_size (envs name) (new_pool settings.timeout_sec)) [
          | failed p ↦ failed_init s
          | filled false p ↦ loaded false s
          | filled true p ↦
              add_pools kind cfg envs names
                (record s { pools = s.pools ++ record { settings = settings; pool = p } ∷ [] })
        ]
      ]
]

-- `init`
unfoldable pub init : Kind → Config → (Bytes → ℕ → Env) → List Bytes → Shards → Loaded
init kind cfg envs names s = elim (find_entry kind.section cfg.cfg) [
  | none ↦ failed_init s
  | some section ↦
      let (found, s') =
        read_keys (set_shards kind) section (kind.count_key ∷ kind.format_key ∷ []) s in
      elim found [ false ↦ loaded false s' | true ↦ add_pools kind cfg envs names s' ]
]

-- Which pool a number selects; `none`: the remainder by zero, or an index outside the vector.
unfoldable pub by_key : ℕ → Shards → Option ℕ
by_key key s = if s.shard_count == 0 then none else elim (get_elem? s.pools (key % s.shard_count)) [
  | none ↦ none
  | some p ↦ some (key % s.shard_count)
]

-- Which pool a text selects, by its checksum.
unfoldable pub by_text : (Bytes → ℕ) → Bytes → Shards → Option ℕ
unfolding by_key
by_text checksum key s = by_key (checksum key) s

-- A guard: the index of its pool, and its connection. `refused`: `connect` threw.
pub data Scoped : Type 0 where
  holds : ℕ → Conn → Shards → Scoped
  refused : Shards → Scoped
  undefined : Scoped

-- The constructor of `scoped_db` and `scoped_rd`.
unfoldable pub acquire : Env → ℕ → Shards → Scoped
acquire env key s = elim (by_key key s) [
  | none ↦ undefined
  | some i ↦ elim (get_elem? s.pools i) [
    | none ↦ undefined
    | some d ↦ elim (Pool.get env d.pool) [
      | got c p ↦ holds i c (record s { pools = set_at s.pools i (record d { pool = p }) })
      | threw p ↦ refused (record s { pools = set_at s.pools i (record d { pool = p }) })
    ]
  ]
]

-- The destructor, but for `conn->clear()`.
unfoldable pub dispose : Env → ℕ → Conn → Shards → Shards
dispose env i c s = elim (get_elem? s.pools i) [
  | none ↦ s
  | some d ↦ record s { pools = set_at s.pools i (record d { pool = release env c d.pool }) }
]
