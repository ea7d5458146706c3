-- ===== src/Shards/Loading.antt =====
-- The pools that `init` leaves.
use waspp.Base.{
  ℕ, zero, suc, ◌+◌, ◌≤◌, ◌<◌, ◌^◌, ◌≡◌, ◌⊎◌, refl, ap, ◌∙◌, inl, inr, true, false, List, [], ◌∷◌,
  ◌++◌, ◌==◌, Bytes, Option-cases, Bool-cases, length, length-append, All, All-append, arith,
}
use waspp.Config.{Config, Section}
use waspp.Config.Init.{find_entry}
use waspp.Pool.{Conn, Pool, Env, Filled, filled, failed, fill, fill_loop, new_pool, connect}
use waspp.Shards.{
  Kind, Settings, Shard, Shards, no_settings, no_shards, read_keys, set_shards, loaded, add_pools,
  init,
}

-- A pool with all its connections, at least one.
pub record IsFilled (d : Shard) : Type 0 where
  pub size : length d.pool.idle ≡ d.settings.pool_size
  pub inhabited : 1 ≤ d.settings.pool_size

fill_loop-length :
    (n : ℕ) (envs : ℕ → Env) (p q : Pool)
    → fill_loop n envs p ≡ filled true q
    → length q.idle ≡ length p.idle + n
unfolding fill_loop connect
fill_loop-length zero envs p q h = ground arith
fill_loop-length (suc n) envs p q h = elim (Bool-cases (envs n).reachable) [
  | inr down ↦ absurd (ground arith)
  | inl up ↦
      let c : Conn = record { id = p.next; pooled = true; released = (envs n).now } in
      elim (Bool-cases ((envs n).alive c)) [
        | inr mute ↦ absurd (ground arith)
        | inl answers ↦
            let ih =
              fill_loop-length n envs (record p { next = suc p.next; idle = c ∷ p.idle }) q
                (ground arith) in
            omega (arith, ih)
      ]
]

fill-IsFilled :
    (settings : Settings) (envs : ℕ → Env) (q : Pool)
    → fill settings.pool_size envs (new_pool settings.timeout_sec) ≡ filled true q
    → IsFilled (record { settings = settings; pool = q })
unfolding fill
fill-IsFilled settings envs q h = elim (Bool-cases (settings.pool_size == 0)) [
  | inl none_wanted ↦ absurd (ground arith)
  | inr some_wanted ↦
      let made =
        fill_loop-length settings.pool_size envs (new_pool settings.timeout_sec) q (ground arith) in
      record { size = omega (arith, made); inhabited = ground arith }
]

-- `s'` has the shards of `s` and those of the names.
pub record Added (names : List Bytes) (s s' : Shards) : Type 0 where
  pub same_count : s'.shard_count ≡ s.shard_count
  pub total : length s'.pools ≡ length s.pools + length names
  pub all_filled : All IsFilled s.pools → All IsFilled s'.pools

Filled-cases :
    (f : Filled)
    → ((p : Pool) × (f ≡ filled true p))
      ⊎ (((p : Pool) × (f ≡ filled false p)) ⊎ ((p : Pool) × (f ≡ failed p)))
Filled-cases (filled true p) = inl (p, refl)
Filled-cases (filled false p) = inr (inl (p, refl))
Filled-cases (failed p) = inr (inr (p, refl))

-- Where the loop goes on: it has appended a filled pool.
add_pools-more :
    (kind : Kind) (cfg : Config) (envs : Bytes → ℕ → Env) (name : Bytes) (names : List Bytes)
    (s s' : Shards)
    → add_pools kind cfg envs (name ∷ names) s ≡ loaded true s'
    → (d : Shard) × IsFilled d
      × (add_pools kind cfg envs names (record s { pools = s.pools ++ d ∷ [] }) ≡ loaded true s')
unfolding add_pools
add_pools-more kind cfg envs name names s s' h = elim (Option-cases (find_entry name cfg.cfg)) [
  | inl missing ↦ absurd (ground arith)
  | inr (section, found) ↦
      let settings = (kind.init_pool section no_settings).1 in
      elim (Bool-cases (kind.init_pool section no_settings).0) [
        | inr incomplete ↦ absurd (ground arith)
        | inl complete ↦
            elim (Filled-cases
              (fill settings.pool_size (envs name) (new_pool settings.timeout_sec))) [
                | inl (p, full) ↦ (
                  record { settings = settings; pool = p },
                  fill-IsFilled settings (envs name) p full,
                  ground arith,
                )
                | inr (inl (p, short)) ↦ absurd (ground arith)
                | inr (inr (p, broken)) ↦ absurd (ground arith)
              ]
      ]
]

add_pools-Added :
    (kind : Kind) (cfg : Config) (envs : Bytes → ℕ → Env) (names : List Bytes) (s s' : Shards)
    → add_pools kind cfg envs names s ≡ loaded true s'
    → Added names s s'
add_pools-Added kind cfg envs [] s s' h = nothing (loaded_injective h)
  where
    loaded_injective : add_pools kind cfg envs [] s ≡ loaded true s' → s' ≡ s
    loaded_injective e = unfold add_pools in cc

    nothing : s' ≡ s → Added [] s s'
    nothing e = rw e (record { same_count = refl; total = omega arith; all_filled = λ v. v })
add_pools-Added kind cfg envs (name ∷ names) s s' h =
    let (d, full, more) = add_pools-more kind cfg envs name names s s' h in
    let rest =
      add_pools-Added kind cfg envs names (record s { pools = s.pools ++ d ∷ [] }) s' more in
    record {
      same_count = rest.same_count;
      total = omega (arith, rest.total, length-append s.pools (d ∷ []));
      all_filled = λ v. rest.all_filled (All-append IsFilled s.pools (d ∷ []) v (full, tt));
    }

-- The keys of the shards leave the pools alone, and the number is an `unsigned int`.
read_keys-pools :
    (kind : Kind) (section : Section) (ks : List Bytes) (s : Shards)
    → s.shard_count < 2 ^ 32
    → let s' = (read_keys (set_shards kind) section ks s).1 in
      (s'.pools ≡ s.pools) × (s'.shard_count < 2 ^ 32)
unfolding read_keys
read_keys-pools kind section [] s v = (refl, v)
read_keys-pools kind section (k ∷ ks) s v = elim (Option-cases (find_entry k section)) [
  | inl missing ↦ rw (read_keys, missing) (refl, v)
  | inr (w, found) ↦
      let (same, small) = set_shards-pools k w in
      let (same', small') = read_keys-pools kind section ks (set_shards kind k w s) small in
      rw (read_keys, found) (same' ∙ same, small')
]
  where
    set_shards-pools :
        (k w : Bytes)
        → ((set_shards kind k w s).pools ≡ s.pools) × ((set_shards kind k w s).shard_count < 2 ^ 32)
    set_shards-pools k w = unfold set_shards in (ground arith, ground arith)

-- `init` that has returned true has made a filled pool for each name.
pub record Ready (names : List Bytes) (s : Shards) : Type 0 where
  pub total : length s.pools ≡ length names
  pub all_filled : All IsFilled s.pools
  pub small : s.shard_count < 2 ^ 32

pub init-Ready :
    (kind : Kind) (cfg : Config) (envs : Bytes → ℕ → Env) (names : List Bytes) (s : Shards)
    → init kind cfg envs names no_shards ≡ loaded true s
    → Ready names s
unfolding init
init-Ready kind cfg envs names s h = elim (Option-cases (find_entry kind.section cfg.cfg)) [
  | inl missing ↦ absurd (ground arith)
  | inr (section, found) ↦
      let keys = kind.count_key ∷ kind.format_key ∷ [] in
      let start : Shards = (read_keys (set_shards kind) section keys no_shards).1 in
      let (none_yet, small) = read_keys-pools kind section keys no_shards (omega arith) in
      elim (Bool-cases (read_keys (set_shards kind) section keys no_shards).0) [
        | inr incomplete ↦ absurd (ground arith)
        | inl complete ↦
            let added = add_pools-Added kind cfg envs names start s (ground arith) in
            record {
              total = added.total ∙ ap (λ ps. length ps + length names) none_yet ∙ omega arith;
              all_filled = added.all_filled (rw none_yet tt);
              small = omega (arith, added.same_count, small);
            }
      ]
]
