-- ===== src/Arithmetic/Bitwise/Counts.antt =====
-- `clz` of crates/runtime/src/arithmetic/bitwise.rs.
use patch_seq.Base.{
  ℕ, zero, suc, ◌-◌, ◌^◌, ◌<◌, ◌≤◌, ◌≡◌, refl, true, List, ◌∷◌, leb, arith, Bool-cases, inl, inr,
}
use patch_seq.Value.{Value, int}
use patch_seq.Word.{u64_mod, wrap_i63}
use patch_seq.Machine.{Machine}
use patch_seq.Machine.Arc.{Allocator}
use patch_seq.Stack.Represents.{Represents, Does}
use patch_seq.Arithmetic.Words.{leading_zeros, is_negative}
use patch_seq.Arithmetic.Signed.{IsInt}
use patch_seq.Arithmetic.Shape.{int_unary_lem}
use patch_seq.Arithmetic.Bitwise.{clz_value, clz}

-- `leading_zeros` brackets a positive number between two powers of 2.
leading_zeros_bounds :
    (w v : ℕ)
    → 0 < v
    → v < 2 ^ w
    → (leading_zeros w v < w)
      × (2 ^ (w - 1 - leading_zeros w v) ≤ v)
      × (v < 2 ^ (w - leading_zeros w v))
unfolding leading_zeros
leading_zeros_bounds zero v h k = absurd (omega arith)
leading_zeros_bounds (suc w) v h k = elim (Bool-cases (leb (2 ^ w) v)) [
  | inl big ↦
      let e : suc w - 1 - 0 ≡ w = omega arith in
      let e' : suc w - 0 ≡ suc w = omega arith in rw (big, e, e') (omega arith, ground arith, k)
  | inr small ↦
      let (lt, low, high) = leading_zeros_bounds w v h (ground arith) in
      let e : suc w - 1 - suc (leading_zeros w v) ≡ w - 1 - leading_zeros w v = omega arith in
      let e' : suc w - suc (leading_zeros w v) ≡ w - leading_zeros w v = omega arith in
      rw (small, e, e') (omega arith, low, high)
]

leading_zeros-big : (v : ℕ) → 2 ^ 63 ≤ v → leading_zeros 64 v ≡ 0
unfolding leading_zeros
leading_zeros-big v h = let e : leb (2 ^ 63) v ≡ true = ground arith in rw e refl

clz_value-negative : (v : ℕ) → IsInt v → is_negative v ≡ true → wrap_i63 (clz_value v) ≡ u64_mod - 1
unfolding clz_value wrap_i63
clz_value-negative v h n = rw (leading_zeros-big v (ground arith)) refl

-- `clz` of a negative Int leaves -1.
pub clz_negative :
    (alloc : Allocator) (ext : ℕ → ℕ) (m : Machine) (b v : ℕ) (s : List Value)
    → IsInt v
    → is_negative v ≡ true
    → Represents ext m b (int v ∷ s)
    → Does (clz alloc) ext m b (int v ∷ s) (int (u64_mod - 1) ∷ s)
unfolding clz
clz_negative alloc ext m b v s h n r =
    rw (clz_value-negative v h n) at
      (int_unary_lem alloc ext m b s (λ u. int (clz_value u)) v (λ h. tt) r)

-- At least two of the 64 bits of a positive Int are leading zeros.
two_zeros : (n v : ℕ) → 2 ^ (63 - n) ≤ v → v < 2 ^ 62 → 2 ≤ n
two_zeros zero v low lt = absurd (omega arith)
two_zeros (suc zero) v low lt = absurd (omega arith)
two_zeros (suc (suc n)) v low lt = omega arith

clz_value_lem :
    (v : ℕ)
    → 2 ≤ leading_zeros 64 v
    → leading_zeros 64 v < 64
    → clz_value v ≡ leading_zeros 64 v - 1
unfolding clz_value
clz_value_lem v h k = omega arith

wrap_small : (n : ℕ) → n < 64 → wrap_i63 n ≡ n
unfolding wrap_i63
wrap_small n h = ground arith

-- `clz` of a positive Int leaves a count k below 63 such that the Int lies from 2 ^ (62 - k) up to,
-- and not including, 2 ^ (63 - k).
pub clz_positive :
    (alloc : Allocator) (ext : ℕ → ℕ) (m : Machine) (b v : ℕ) (s : List Value)
    → 0 < v
    → v < 2 ^ 62
    → Represents ext m b (int v ∷ s)
    → (k : ℕ) × (k < 63)
      × (2 ^ (62 - k) ≤ v)
      × (v < 2 ^ (63 - k))
      × Does (clz alloc) ext m b (int v ∷ s) (int k ∷ s)
unfolding clz
clz_positive alloc ext m b v s h lt r =
    let (below, low, high) = leading_zeros_bounds 64 v h (omega arith) in
    let two = two_zeros (leading_zeros 64 v) v low lt in
    let k = leading_zeros 64 v - 1 in
    let e : 63 - leading_zeros 64 v ≡ 62 - k = omega arith in
    let e' : 64 - leading_zeros 64 v ≡ 63 - k = omega arith in
    (
      k,
      omega arith,
      rw e at low,
      rw e' at high,
      rw (clz_value_lem v two below, wrap_small k (omega arith)) at
          (int_unary_lem alloc ext m b s (λ u. int (clz_value u)) v (λ h. tt) r),
    )
