-- ===== src/Mysqlpp/Values.antt =====
-- src/mysqlpp_result.cpp: integers that the client stores, and what `get` reads.
use native.Mathlib.Nat.{pow-succ'}
use waspp.Base.{
  ℕ, zero, suc, ◌*◌, ◌-◌, ◌^◌, ◌%◌, ◌/◌, ◌<◌, ◌≤◌, ◌≡◌, ◌↔◌, ◌⊎◌, subst, sym, ap, ◌∙◌, inl, inr, [],
  ◌∷◌, Bytes, Bool-cases, ltb, arith,
}
use waspp.Mysqlpp.Column.{Column, got, get_value, set_small, set_large, sign_extend, read_bytes}

-- The bytes of a number, the least significant one first.
abbrev pub stored : ℕ → ℕ → Bytes
stored zero v = []
stored (suc n) v = v % 256 ∷ stored n (v / 256)

-- A column with these bytes, whose value is not null.
abbrev pub IsColumn : Column → Bytes → Type 0
IsColumn col bytes = (col.buffer ≡ bytes) × (col.is_null ≡ 0)

read_bytes-stored : (n v : ℕ) → v < 256 ^ n → read_bytes n (stored n v) ≡ got v
unfolding read_bytes
read_bytes-stored zero v h = ap got (omega arith)
read_bytes-stored (suc n) v h =
    let bound : v < 256 * 256 ^ n = subst (λ p. v < p) (pow-succ' 256 n) h in
    let ih = read_bytes-stored n (v / 256) (omega (arith, bound)) in rw ih (ap got (omega arith))

sign_extend_iff :
    (v : ℕ) → v < 2 ^ 32 → (sign_extend 32 (v % 256) ≡ v) ↔ ((v < 128) ⊎ (2 ^ 32 - 128 ≤ v))
sign_extend_iff v h = (
  λ e. elim (Bool-cases (ltb (v % 256) 128)) [
    | inl low ↦ inl (ground arith)
    | inr high ↦ inr (ground arith)
  ],
  λ e. elim e [ inl low ↦ ground arith | inr high ↦ ground arith ],
)

-- `get` of a 64-bit integer reads back every number that the client has stored in 8 bytes.
get_value-stored :
    (col : Column) (v : ℕ)
    → v < 2 ^ 64
    → IsColumn col (stored 8 v)
    → get_value set_large (got col) ≡ got v
unfolding get_value set_large
get_value-stored col v h k = rw (get_value, k.1, set_large, k.0) (read_bytes-stored 8 v h)

-- `get` of a 32-bit integer reads back a number that the client has stored in 4 bytes exactly when its
-- pattern is below 128, or is that of a number of at least -128 and below 0.
pub get_value-stored_iff :
    (col : Column) (v : ℕ)
    → v < 2 ^ 32
    → IsColumn col (stored 4 v)
    → (get_value (set_small 32) (got col) ≡ got v) ↔ ((v < 128) ⊎ (2 ^ 32 - 128 ≤ v))
unfolding get_value set_small
get_value-stored_iff col v h k =
    let read : get_value (set_small 32) (got col) ≡ got (sign_extend 32 (v % 256)) =
      rw (get_value, k.1, set_small, k.0) in
    (
      λ e. (sign_extend_iff v h).0 (got-injective (sym read ∙ e)),
      λ e. read ∙ ap got ((sign_extend_iff v h).1 e),
    )
  where
    got-injective : {x y : ℕ} → got x ≡ got y → x ≡ y
    got-injective e = cc
