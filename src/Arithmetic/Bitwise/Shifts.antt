-- ===== src/Arithmetic/Bitwise/Shifts.antt =====
-- `shl` and `shr` of bitwise.rs: where the shifted value is exact, and where it is 0.
use native.Mathlib.Nat.{pow-suc}
use patch_seq.Base.{
  ℕ, zero, suc, ◌+◌, ◌*◌, ◌/◌, ◌^◌, ◌<◌, ◌≤◌, ◌≡◌, refl, Bool, true, false, List, ◌∷◌, ltb, leb,
  arith, ◌==◌, if◌then◌else◌, ◌&&◌, Bool-cases, inl, inr, sym,
}
use patch_seq.Base.Int.{pos, ◌*ℤ◌}
use patch_seq.Value.{Value, int}
use patch_seq.Word.{u64_mod, to_ℤ, fits_in_i63, wrap_i63}
use patch_seq.Machine.{Machine}
use patch_seq.Machine.Arc.{Allocator}
use patch_seq.Stack.Represents.{Represents, Does}
use patch_seq.Arithmetic.Words.{shift_left, magnitude, is_negative, with_sign, differ}
use patch_seq.Arithmetic.Signed.{
  IsInt, mul_mod, magnitude_flip, to_ℤ-wrap, within, wrap_i63-IsInt, to_ℤ-signed, mul_signed,
}
use patch_seq.Arithmetic.Shape.{int_binary_lem}
use patch_seq.Arithmetic.Bitwise.{shl_value, shr_value, shl, shr}

pow-pos : (c : ℕ) → 0 < 2 ^ c
pow-pos zero = omega arith
pow-pos (suc c) = rw pow-suc (omega (arith, pow-pos c))

pow-ge_four : (c : ℕ) → 2 ≤ c → 4 ≤ 2 ^ c
pow-ge_four zero h = omega arith
pow-ge_four (suc zero) h = omega arith
pow-ge_four (suc (suc c)) h = rw (pow-suc, pow-suc) (omega (arith, pow-pos c))

quarter : (v p : ℕ) → 4 ≤ p → v / p ≤ v / 4
quarter v p h = grind arith

stays : (v p : ℕ) → 0 < p → v / p ≤ v
stays v p h = grind arith

shr-pos : (v c : ℕ) → v < 2 ^ 62 → c < 64 → shr_value v c ≡ v / 2 ^ c
unfolding shr_value
shr-pos v c h hc = ground (arith, stays v (2 ^ c) (pow-pos c))

shr-far : (v c : ℕ) → v < u64_mod → 2 ≤ c → c < 64 → shr_value v c ≡ v / 2 ^ c
unfolding shr_value
shr-far v c h far hc = ground (arith, quarter v (2 ^ c) (pow-ge_four c far))

shr-one : (v : ℕ) → IsInt v → is_negative v ≡ true → shr_value v 1 ≡ 0
unfolding shr_value fits_in_i63
shr-one v h n = ground arith

shr-none : (v c : ℕ) → 64 ≤ c → (shr_value v c ≡ 0) × (shl_value v c ≡ 0)
unfolding shr_value shl_value
shr-none v c h = ground arith

shr-zero : (v : ℕ) → IsInt v → shr_value v 0 ≡ v / 2 ^ 0
unfolding shr_value fits_in_i63
shr-zero v h = ground arith

not_negative : (v : ℕ) → IsInt v → is_negative v ≡ false → v < 2 ^ 62
unfolding fits_in_i63
not_negative v h n = ground arith

shr_value-IsInt : (v c : ℕ) → IsInt v → wrap_i63 (shr_value v c) ≡ shr_value v c
unfolding shr_value fits_in_i63 wrap_i63
shr_value-IsInt v c h = ground (arith, stays v (2 ^ c) (pow-pos c))

-- What the right shift of an Int by a count is, in numbers.
abbrev pub shifted_right : ℕ → ℕ → ℕ
shifted_right v c = if leb 64 c then 0 else if is_negative v && c == 1 then 0 else v / 2 ^ c

shr_value_lem : (v c : ℕ) → IsInt v → shr_value v c ≡ shifted_right v c
shr_value_lem v c h = elim (Bool-cases (leb 64 c)) [
  | inl far ↦ rw far (shr-none v c (ground arith)).0
  | inr near ↦ elim (Bool-cases (is_negative v)) [
    | inl n ↦ rw (near, n) (below_zero c n (ground arith))
    | inr p ↦ rw (near, p) (shr-pos v c (not_negative v h p) (ground arith))
  ]
]
  where
    below_zero :
        (c : ℕ) → is_negative v ≡ true → c < 64 → shr_value v c ≡ (if c == 1 then 0 else v / 2 ^ c)
    below_zero zero n k = shr-zero v h
    below_zero (suc zero) n k = shr-one v h n
    below_zero (suc (suc c)) n k =
        let ne : (suc (suc c) == 1) ≡ false = ground arith in
        rw ne (shr-far v (suc (suc c)) h.0 (omega arith) k)

-- The left shift is exact where the product is in the 63-bit range.
fits-with_sign : (c : Bool) (n : ℕ) → n < 2 ^ 62 → fits_in_i63 (with_sign c n) ≡ true
unfolding fits_in_i63 with_sign
fits-with_sign true n h = ground arith
fits-with_sign false n h = ground arith

differ-false : (c : Bool) → differ c false ≡ c
differ-false true = refl
differ-false false = refl

shl-exact :
    (v c : ℕ)
    → IsInt v
    → c < 64
    → magnitude v * 2 ^ c < 2 ^ 62
    → shl_value v c ≡ with_sign (is_negative v) (magnitude v * 2 ^ c)
unfolding shl_value
shl-exact v c h hc small =
    let raw : shift_left v c ≡ with_sign (is_negative v) (magnitude v * 2 ^ c) =
      rw differ-false at (
        mul_mod (is_negative v) false v (2 ^ c) (magnitude v) (2 ^ c) (magnitude_flip v h.0) refl
          small) in
    let near : ltb c 64 ≡ true = ground arith in
    rw (near, raw, fits-with_sign (is_negative v) (magnitude v * 2 ^ c) small) refl

-- `shl` of an Int by a count from 0 to 63 leaves the Int times 2 ^ count, if the product lies within
-- 2 ^ 62 of zero, that bound not included.
pub shl_exact :
    (alloc : Allocator) (ext : ℕ → ℕ) (m : Machine) (b v c : ℕ) (s : List Value)
    → IsInt v
    → c < 64
    → magnitude v * 2 ^ c < 2 ^ 62
    → Represents ext m b (int c ∷ int v ∷ s)
    → (w : ℕ) × IsInt w
      × (to_ℤ w ≡ to_ℤ v *ℤ pos (2 ^ c))
      × Does (shl alloc) ext m b (int c ∷ int v ∷ s) (int w ∷ s)
unfolding shl
shl_exact alloc ext m b v c s h hc small r = (
  wrap_i63 (shl_value v c),
  wrap_i63-IsInt _,
  rw (shl-exact v c h hc small, to_ℤ-wrap _ _ (within _ _ small), to_ℤ-signed v h.0)
      (sym (rw differ-false at (mul_signed (is_negative v) false (magnitude v) (2 ^ c)))),
  int_binary_lem alloc ext m b s (λ u k. int (shl_value u k)) v c (λ h. tt) r,
)

-- `shr` of an Int moves its 64 bits right and fills with zeros: by a count of 64 or more, or a
-- negative one, it leaves 0; below zero by a count of 1 too; otherwise it leaves the `i64` divided
-- by 2 ^ count as an unsigned number.
pub shr_exact :
    (alloc : Allocator) (ext : ℕ → ℕ) (m : Machine) (b v c : ℕ) (s : List Value)
    → IsInt v
    → Represents ext m b (int c ∷ int v ∷ s)
    → Does (shr alloc) ext m b (int c ∷ int v ∷ s) (int (shifted_right v c) ∷ s)
unfolding shr
shr_exact alloc ext m b v c s h r =
    rw (shr_value-IsInt v c h, shr_value_lem v c h) at
      (int_binary_lem alloc ext m b s (λ u k. int (shr_value u k)) v c (λ h. tt) r)

shl-lost : (k : ℕ) → k < 2 ^ 58 → wrap_i63 (shl_value (2 ^ 60 + k) 4) ≡ 16 * k
unfolding shl_value fits_in_i63 wrap_i63 shift_left
shl-lost k h = ground arith

-- `shl` by 4 of an Int 2 ^ 60 + k with k below 2 ^ 58 leaves 16 * k, and not 0, although the
-- product, 2 ^ 64 + 16 * k, is far outside the 63-bit range: the bits above the 64th are lost before
-- the range is tested.
pub shl_loses_bits :
    (alloc : Allocator) (ext : ℕ → ℕ) (m : Machine) (b k : ℕ) (s : List Value)
    → k < 2 ^ 58
    → Represents ext m b (int 4 ∷ int (2 ^ 60 + k) ∷ s)
    → Does (shl alloc) ext m b (int 4 ∷ int (2 ^ 60 + k) ∷ s) (int (16 * k) ∷ s)
unfolding shl
shl_loses_bits alloc ext m b k s h r =
    rw (shl-lost k h) at
      (int_binary_lem alloc ext m b s (λ u c. int (shl_value u c)) (2 ^ 60 + k) 4 (λ h. tt) r)
