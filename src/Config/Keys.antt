-- ===== src/Config/Keys.antt =====
-- Looking up sections and keys: what `init` has found where it goes on.
use waspp.Base.{
  ◌≡◌, refl, ap, ◌∙◌, inl, inr, Bool, List, [], ◌∷◌, Bytes, Option, none, some, Option-cases, arith,
}
use waspp.Config.{Config, Section}
use waspp.Config.Init.{
  Outside, Result, ready, refused, threw, undefined, ◌>>=◌, find_entry, set_keys, with_section,
  cast_bool,
}

-- What the file says under a section and a key.
abbrev pub setting : Config → Bytes → Bytes → Option Bytes
setting c name key = elim (find_entry name c.cfg) [ none ↦ none | some s ↦ find_entry key s ]

-- The section that a name has.
abbrev pub HasSection : Config → Bytes → Section → Type 0
HasSection c name s = find_entry name c.cfg ≡ some s

pub with_section-ready :
    (name : Bytes) (read : Section → Config → Result) (c c' : Config)
    → with_section name read c ≡ ready c'
    → (s : Section) × HasSection c name s × (read s c ≡ ready c')
unfolding with_section
with_section-ready name read c c' h = elim (Option-cases (find_entry name c.cfg)) [
  | inl missing ↦ absurd (ground arith)
  | inr (s, found) ↦ (s, found, ground arith)
]

-- A key was looked up, its value was set, and the other keys followed.
pub record KeyRead (set : Bytes → Bytes → Config → Result) (s : Section) (k : Bytes)
    (ks : List Bytes) (c c' : Config) : Type 0 where
  pub value : Bytes
  pub between : Config
  pub found : find_entry k s ≡ some value
  pub was_set : set k value c ≡ ready between
  pub others : set_keys set s ks between ≡ ready c'

pub >>=-ready :
    (m : Result) (f : Config → Result) (c' : Config)
    → (m >>= f) ≡ ready c'
    → (d : Config) × (m ≡ ready d) × (f d ≡ ready c')
>>=-ready (ready c) f c' h = (c, refl, h)
>>=-ready (refused c) f c' h = cc
>>=-ready (threw c) f c' h = cc
>>=-ready (undefined c) f c' h = cc

pub set_keys-ready :
    (set : Bytes → Bytes → Config → Result) (s : Section) (k : Bytes) (ks : List Bytes)
    (c c' : Config)
    → set_keys set s (k ∷ ks) c ≡ ready c'
    → KeyRead set s k ks c c'
unfolding set_keys
set_keys-ready set s k ks c c' h = elim (Option-cases (find_entry k s)) [
  | inl missing ↦ absurd (ground arith)
  | inr (v, found) ↦
      let (d, was_set, others) = >>=-ready (set k v c) (set_keys set s ks) c' (ground arith) in
      record { value = v; between = d; found = found; was_set = was_set; others = others }
]

pub set_keys-done :
    (set : Bytes → Bytes → Config → Result) (s : Section) (c c' : Config)
    → set_keys set s [] c ≡ ready c'
    → c ≡ c'
unfolding set_keys
set_keys-done set s c c' h = cc

pub setting-found :
    (c : Config) (name key : Bytes) (s : Section) (v : Bytes)
    → HasSection c name s
    → find_entry key s ≡ some v
    → setting c name key ≡ some v
setting-found c name key s v named found =
    ap (λ m. elim m as (λ _. Option Bytes) [ none ↦ none | some s ↦ find_entry key s ]) named
    ∙ found

pub ready-injective : (c c' : Config) → ready c ≡ ready c' → c' ≡ c
ready-injective c c' h = cc

pub cast_bool-ready :
    (out : Outside) (v : Bytes) (c : Config) (set : Bool → Config) (c' : Config)
    → cast_bool out v c set ≡ ready c'
    → (b : Bool) × (out.lexical_cast v ≡ some b) × (c' ≡ set b)
unfolding cast_bool
cast_bool-ready out v c set c' h = elim (Option-cases (out.lexical_cast v)) [
  | inl wrong ↦ absurd (ground arith)
  | inr (b, right) ↦ (b, right, ground arith)
]
