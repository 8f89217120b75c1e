-- ===== src/Arithmetic/Arith/Division.antt =====
-- `divide` and `modulo` of arith.rs: truncated division with its remainder, and the flag that says
-- whether there is a result.
use patch_seq.Base.{
  ℕ, ◌+◌, ◌-◌, ◌*◌, ◌/◌, ◌%◌, ◌^◌, ◌<◌, ◌≤◌, ◌≡◌, ◌≢◌, refl, Bool, true, false, none, some, List,
  ◌∷◌, ◌==◌, if◌then◌else◌, arith, ◌⊎◌, inl, inr, ap, ==_ne,
}
use patch_seq.Base.Int.{◌+ℤ◌, ◌*ℤ◌}
use patch_seq.Value.{Value, int, bool}
use patch_seq.Word.{u64_mod, to_ℤ, fits_in_i63, wrap_i63}
use patch_seq.Machine.{Machine}
use patch_seq.Machine.Arc.{Allocator}
use patch_seq.Stack.Represents.{Represents, Does}
use patch_seq.Arithmetic.Words.{
  wrapping_div, wrapping_rem, magnitude, with_sign, differ, is_negative,
}
use patch_seq.Arithmetic.Signed.{
  IsInt, signed, to_ℤ-signed, mul_signed, add_signed, to_ℤ-wrap, magnitude-le, within,
}
use patch_seq.Arithmetic.Shape.{int_checked_lem}
use patch_seq.Arithmetic.Arith.{divide, modulo}

quotient-le : (X Y : ℕ) → 0 < Y → X / Y ≤ X
quotient-le X Y nz = grind arith

halved : (X Y : ℕ) → X ≤ 2 ^ 62 → 2 ≤ Y → X / Y < 2 ^ 62
halved X Y h two = grind arith

quotient_cases :
    (c d : Bool) (X Y : ℕ)
    → X ≤ 2 ^ 62
    → 0 < Y
    → (X < 2 ^ 62) ⊎ (2 ≤ Y) ⊎ (differ c d ≡ true)
    → if differ c d then X / Y ≤ 2 ^ 62 else X / Y < 2 ^ 62
quotient_cases c d X Y h nz (inl small) =
    within (differ c d) (X / Y) (omega (arith, quotient-le X Y nz))
quotient_cases c d X Y h nz (inr (inl two)) = within (differ c d) (X / Y) (halved X Y h two)
quotient_cases c d X Y h nz (inr (inr e)) = rw e (omega (arith, quotient-le X Y nz))

-- -2 ^ 62 is the one Int so far from zero, and -1 the one divisor that flips its sign and keeps it
-- so far.
quotient_fits :
    (x y : ℕ)
    → IsInt x
    → IsInt y
    → y ≢ 0
    → (magnitude x < 2 ^ 62) ⊎ (y ≢ u64_mod - 1)
    → (magnitude x < 2 ^ 62) ⊎ (2 ≤ magnitude y) ⊎ (differ (is_negative x) (is_negative y) ≡ true)
unfolding magnitude fits_in_i63
quotient_fits x y hx hy nz (inl small) = inl small
quotient_fits x y hx hy nz (inr no_flip) = ground arith

remainder-lt : (X Y : ℕ) → 0 < Y → X % Y < Y
remainder-lt X Y nz = grind arith

divided : (X Y : ℕ) → 0 < Y → X ≡ X / Y * Y + X % Y
divided X Y nz = grind arith

differ-differ : (c d : Bool) → differ (differ c d) d ≡ c
differ-differ true true = refl
differ-differ true false = refl
differ-differ false true = refl
differ-differ false false = refl

division_eq :
    (c d : Bool) (X Y : ℕ)
    → 0 < Y
    → signed c X ≡ signed (differ c d) (X / Y) *ℤ signed d Y +ℤ signed c (X % Y)
division_eq c d X Y nz =
    rw (mul_signed, differ-differ c d, add_signed) (ap (signed c) (divided X Y nz))

magnitude-pos : (y : ℕ) → IsInt y → y ≢ 0 → 0 < magnitude y
unfolding magnitude
magnitude-pos y h nz = ground arith

wrapping_div-signed :
    (x y : ℕ)
    → wrapping_div x y
      ≡ with_sign (differ (is_negative x) (is_negative y)) (magnitude x / magnitude y)
unfolding wrapping_div
wrapping_div-signed x y = refl

wrapping_rem-signed :
    (x y : ℕ) → wrapping_rem x y ≡ with_sign (is_negative x) (magnitude x % magnitude y)
unfolding wrapping_rem
wrapping_rem-signed x y = refl

-- On two Ints, the divisor not 0, but for -2 ^ 62 divided by -1: `divide` leaves a quotient and
-- `modulo` a remainder, each with the flag `true`, such that the dividend is the quotient times the
-- divisor plus the remainder, and the remainder has the dividend's sign and is nearer to zero than
-- the divisor.
pub divide-modulo_exact :
    (alloc : Allocator) (ext : ℕ → ℕ) (m : Machine) (b x y : ℕ) (s : List Value)
    → IsInt x
    → IsInt y
    → y ≢ 0
    → (magnitude x < 2 ^ 62) ⊎ (y ≢ u64_mod - 1)
    → Represents ext m b (int y ∷ int x ∷ s)
    → (q r : ℕ) × Does (divide alloc) ext m b (int y ∷ int x ∷ s) (bool true ∷ int q ∷ s)
      × Does (modulo alloc) ext m b (int y ∷ int x ∷ s) (bool true ∷ int r ∷ s)
      × (to_ℤ x ≡ to_ℤ q *ℤ to_ℤ y +ℤ to_ℤ r)
      × (to_ℤ r ≡ signed (is_negative x) (magnitude x % magnitude y))
      × (magnitude x % magnitude y < magnitude y)
unfolding divide modulo
divide-modulo_exact alloc ext m b x y s hx hy nz fit rep =
    let f = λ (g : ℕ → ℕ → ℕ) (u v : ℕ). if v == 0 then none else some (g u v) in
    let nonzero = ==_ne y 0 nz in
    let X = magnitude x in
    let Y = magnitude y in
    let c = is_negative x in
    let d = is_negative y in
    let Y-pos = magnitude-pos y hy nz in
    let q_signed =
      to_ℤ-wrap (differ c d) (X / Y)
        (quotient_cases c d X Y (magnitude-le x hx) Y-pos (quotient_fits x y hx hy nz fit)) in
    let r_signed =
      to_ℤ-wrap c (X % Y)
        (within c (X % Y) (omega (arith, remainder-lt X Y Y-pos, magnitude-le y hy))) in
    (
      wrap_i63 (wrapping_div x y),
      wrap_i63 (wrapping_rem x y),
      rw nonzero at (int_checked_lem alloc ext m b s (f wrapping_div) x y rep),
      rw nonzero at (int_checked_lem alloc ext m b s (f wrapping_rem) x y rep),
      rw
          (
            wrapping_div-signed,
            wrapping_rem-signed,
            q_signed,
            r_signed,
            to_ℤ-signed x hx.0,
            to_ℤ-signed y hy.0,
          )
          (division_eq c d X Y Y-pos),
      rw wrapping_rem-signed r_signed,
      remainder-lt X Y Y-pos,
    )

-- By zero there is no result: `divide` and `modulo` leave 0 with the flag `false`.
pub divide-modulo_zero :
    (alloc : Allocator) (ext : ℕ → ℕ) (m : Machine) (b x : ℕ) (s : List Value)
    → Represents ext m b (int 0 ∷ int x ∷ s)
    → Does (divide alloc) ext m b (int 0 ∷ int x ∷ s) (bool false ∷ int 0 ∷ s)
      × Does (modulo alloc) ext m b (int 0 ∷ int x ∷ s) (bool false ∷ int 0 ∷ s)
unfolding divide modulo wrap_i63
divide-modulo_zero alloc ext m b x s rep = (
  int_checked_lem alloc ext m b s (λ u v. if v == 0 then none else some (wrapping_div u v)) x 0 rep,
  int_checked_lem alloc ext m b s (λ u v. if v == 0 then none else some (wrapping_rem u v)) x 0 rep,
)
