-- ===== src/Arithmetic/Arith/Exact.antt =====
-- What the sums, differences and products of arith.rs mean for the integers.
use patch_seq.Base.{ℕ, ◌-◌, ◌*◌, ◌^◌, ◌<◌, ◌≡◌, List, ◌∷◌, if◌then◌else◌, arith, ap, ◌∙◌}
use patch_seq.Base.Int.{ℤ, pos, negsuc, ◌+ℤ◌, ◌-ℤ◌, ◌*ℤ◌, ltb_ℤ, leb_ℤ}
use patch_seq.Value.{Value, int}
use patch_seq.Word.{to_ℤ, fits_in_i63, wrap_i63}
use patch_seq.Machine.{Machine, M}
use patch_seq.Machine.Arc.{Allocator}
use patch_seq.Stack.Represents.{Represents, Does}
use patch_seq.Arithmetic.Words.{wrapping_add, wrapping_sub, wrapping_mul, magnitude}
use patch_seq.Arithmetic.Signed.{
  IsInt, to_ℤ-signed, mul_signed, wrapping_mul-signed, to_ℤ-wrap, within, wrap_i63-IsInt,
}
use patch_seq.Arithmetic.Shape.{int_binary_lem}
use patch_seq.Arithmetic.Arith.{add, subtract, multiply}

-- An integer brought into the 63-bit range by one turn round 2 ^ 63.
abbrev pub turn : ℤ → ℤ
turn z =
    if ltb_ℤ z (negsuc (2 ^ 62 - 1))
    then z +ℤ pos (2 ^ 63)
    else if leb_ℤ (pos (2 ^ 62)) z
    then z -ℤ pos (2 ^ 63)
    else z

to_ℤ-add :
    (x y : ℕ) → IsInt x → IsInt y → to_ℤ (wrap_i63 (wrapping_add x y)) ≡ turn (to_ℤ x +ℤ to_ℤ y)
unfolding to_ℤ wrap_i63 wrapping_add fits_in_i63 ◌+ℤ◌ ◌-ℤ◌
to_ℤ-add x y hx hy = ground arith

to_ℤ-sub :
    (x y : ℕ) → IsInt x → IsInt y → to_ℤ (wrap_i63 (wrapping_sub x y)) ≡ turn (to_ℤ x -ℤ to_ℤ y)
unfolding to_ℤ wrap_i63 wrapping_sub fits_in_i63 ◌+ℤ◌ ◌-ℤ◌
to_ℤ-sub x y hx hy = ground arith

to_ℤ-mul :
    (x y : ℕ)
    → IsInt x
    → IsInt y
    → magnitude x * magnitude y < 2 ^ 62
    → to_ℤ (wrap_i63 (wrapping_mul x y)) ≡ to_ℤ x *ℤ to_ℤ y
to_ℤ-mul x y hx hy small =
    rw (to_ℤ-signed x hx.0, to_ℤ-signed y hy.0, mul_signed)
      (ap (λ w. to_ℤ (wrap_i63 w)) (wrapping_mul-signed x y hx hy small)
        ∙ to_ℤ-wrap _ _ (within _ _ small))

-- The operation leaves an Int that stands for `z` in the place of its two operands.
abbrev pub LeavesInt : (ℕ → M ℕ) → (ℕ → ℕ) → Machine → ℕ → (x y : ℕ) → List Value → ℤ → Type 0
LeavesInt op ext m b x y s z =
    (w : ℕ) × IsInt w × (to_ℤ w ≡ z) × Does op ext m b (int y ∷ int x ∷ s) (int w ∷ s)

-- On two Ints `add` and `subtract` leave the sum and the difference, turned once round 2 ^ 63 into
-- the 63-bit range if they lie outside it.
pub add-subtract-exact :
    (alloc : Allocator) (ext : ℕ → ℕ) (m : Machine) (b x y : ℕ) (s : List Value)
    → IsInt x
    → IsInt y
    → Represents ext m b (int y ∷ int x ∷ s)
    → LeavesInt (add alloc) ext m b x y s (turn (to_ℤ x +ℤ to_ℤ y))
      × LeavesInt (subtract alloc) ext m b x y s (turn (to_ℤ x -ℤ to_ℤ y))
unfolding add subtract
add-subtract-exact alloc ext m b x y s hx hy r = (
  (
    wrap_i63 (wrapping_add x y),
    wrap_i63-IsInt _,
    to_ℤ-add x y hx hy,
    int_binary_lem alloc ext m b s (λ u v. int (wrapping_add u v)) x y (λ h. tt) r,
  ),
  (
    wrap_i63 (wrapping_sub x y),
    wrap_i63-IsInt _,
    to_ℤ-sub x y hx hy,
    int_binary_lem alloc ext m b s (λ u v. int (wrapping_sub u v)) x y (λ h. tt) r,
  ),
)

-- On two Ints whose product lies within 2 ^ 62 of zero, that bound not included, `multiply` leaves
-- the product.
pub multiply_exact :
    (alloc : Allocator) (ext : ℕ → ℕ) (m : Machine) (b x y : ℕ) (s : List Value)
    → IsInt x
    → IsInt y
    → magnitude x * magnitude y < 2 ^ 62
    → Represents ext m b (int y ∷ int x ∷ s)
    → LeavesInt (multiply alloc) ext m b x y s (to_ℤ x *ℤ to_ℤ y)
unfolding multiply
multiply_exact alloc ext m b x y s hx hy small r = (
  wrap_i63 (wrapping_mul x y),
  wrap_i63-IsInt _,
  to_ℤ-mul x y hx hy small,
  int_binary_lem alloc ext m b s (λ u v. int (wrapping_mul u v)) x y (λ h. tt) r,
)
