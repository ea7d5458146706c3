-- ===== src/Shards/Range.antt =====
-- Which pool a key selects.
use native.Mathlib.Nat.{mod-lt, mod-eq_of_lt}
use waspp.Base.{
  ℕ, zero, suc, ◌%◌, ◌≤◌, ◌<◌, ◌^◌, ◌≡◌, ◌↔◌, refl, inl, inr, true, List, [], ◌∷◌, ◌==◌, Bytes,
  some, Option-cases, Bool-cases, leb, get_elem?, length, All-get_elem?, arith,
}
use waspp.Config.{Config}
use waspp.Pool.{Env}
use waspp.Shards.{Kind, Shard, Shards, no_shards, loaded, init, by_key}
use waspp.Shards.Loading.{IsFilled, Ready, init-Ready}

get_elem?-found :
    {A : Type 0} (xs : List A) (i : ℕ) → i < length xs → (x : A) × (get_elem? xs i ≡ some x)
get_elem?-found [] i h = absurd (omega arith)
get_elem?-found (x ∷ xs) zero h = (x, refl)
get_elem?-found (x ∷ xs) (suc i) h = get_elem?-found xs i (omega arith)

-- The pool that a key selects is there, and is filled.
pub record Selected (names : List Bytes) (key : ℕ) (s : Shards) : Type 0 where
  pub index : ℕ
  pub shard : Shard
  pub selects : by_key key s ≡ some index
  pub in_range : index < length names
  pub there : get_elem? s.pools index ≡ some shard
  pub usable : IsFilled shard

by_key-Selected :
    (names : List Bytes) (s : Shards) (key : ℕ)
    → Ready names s
    → 1 ≤ s.shard_count
    → s.shard_count ≤ length names
    → Selected names key s
unfolding by_key
by_key-Selected names s key v lo hi =
    let i = key % s.shard_count in
    let below : i < s.shard_count = mod-lt key (omega arith) in
    let (d, found) = get_elem?-found s.pools i (omega (arith, below, v.total)) in
    record {
      index = i;
      shard = d;
      selects = ground arith;
      in_range = omega (arith, below);
      there = found;
      usable = All-get_elem? IsFilled s.pools i d v.all_filled found;
    }

by_key-index :
    (key : ℕ) (s : Shards) (i : ℕ)
    → by_key key s ≡ some i
    → (1 ≤ s.shard_count) × (i ≡ key % s.shard_count)
unfolding by_key
by_key-index key s i h = elim (Bool-cases (s.shard_count == 0)) [
  | inl zero_count ↦ absurd (ground arith)
  | inr some_count ↦ elim (Option-cases (get_elem? s.pools (key % s.shard_count))) [
    | inl outside ↦ absurd (ground arith)
    | inr (d, inside) ↦ (ground arith, ground arith)
  ]
]

count-le :
    (names : List Bytes) (s : Shards)
    → s.shard_count < 2 ^ 32
    → ((key : ℕ) → key < 2 ^ 64 → Selected names key s)
    → s.shard_count ≤ length names
count-le names s small f = elim (Bool-cases (leb s.shard_count (length names))) [
  | inl few ↦ ground arith
  | inr many ↦
      let more : length names < s.shard_count = ground arith in
      let v = f (length names) (omega (arith, more, small)) in
      let (_, same) = by_key-index (length names) s v.index v.selects in
      absurd (omega (arith, v.in_range, same, mod-eq_of_lt more))
]

-- Once `init` has returned true, from a fresh object: every key of 64 bits selects a pool that exists
-- and is filled exactly when the configured number of shards is at least 1 and at most the number of
-- names.
pub init-by_key_iff :
    (kind : Kind) (cfg : Config) (envs : Bytes → ℕ → Env) (names : List Bytes) (s : Shards)
    → init kind cfg envs names no_shards ≡ loaded true s
    → ((key : ℕ) → key < 2 ^ 64 → Selected names key s)
      ↔ ((1 ≤ s.shard_count) × (s.shard_count ≤ length names))
unfolding by_key
init-by_key_iff kind cfg envs names s h =
    let v = init-Ready kind cfg envs names s h in
    (
      λ f. ((by_key-index 0 s _ (f 0 (omega arith)).selects).0, count-le names s v.small f),
      λ (lo, hi) key small. by_key-Selected names s key v lo hi,
    )
