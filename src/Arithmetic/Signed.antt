-- ===== src/Arithmetic/Signed.antt =====
-- The integers behind the 64 bits of an `i64`, as a sign and a distance from zero.
use patch_seq.Base.{
  ℕ, zero, suc, ◌+◌, ◌*◌, ◌%◌, ◌^◌, ◌<◌, ◌≤◌, ◌≡◌, refl, Bool, true, false, if◌then◌else◌, arith,
  inl, inr, ap, Bool-cases,
}
use patch_seq.Base.Int.{ℤ, pos, negsuc, pos_part, neg_part, ◌+ℤ◌, ◌*ℤ◌, sub_ℕ}
use patch_seq.Word.{u64_mod, i64_min, to_ℤ, fits_in_i63, wrap_i63}
use patch_seq.Arithmetic.Words.{wrapping_mul, magnitude, with_sign, differ, is_negative}

-- A word of the language's Int.
abbrev pub IsInt : ℕ → Type 0
IsInt x = (x < u64_mod) × (fits_in_i63 x ≡ true)

-- The integer with that sign and distance from zero.
abbrev pub signed : Bool → ℕ → ℤ
signed true zero = pos 0
signed true (suc n) = negsuc n
signed false n = pos n

pub to_ℤ-signed : (x : ℕ) → x < u64_mod → to_ℤ x ≡ signed (is_negative x) (magnitude x)
unfolding to_ℤ magnitude
to_ℤ-signed x h = ground arith

pub to_ℤ-with_sign : (c : Bool) (n : ℕ) → n < i64_min → to_ℤ (with_sign c n) ≡ signed c n
unfolding to_ℤ with_sign
to_ℤ-with_sign true zero h = ground arith
to_ℤ-with_sign true (suc n) h = ground arith
to_ℤ-with_sign false n h = ground arith

pub magnitude-le : (x : ℕ) → IsInt x → magnitude x ≤ 2 ^ 62
unfolding magnitude fits_in_i63
magnitude-le x h = ground arith

signed_parts :
    (c : Bool) (n : ℕ)
    → (pos_part (signed c n) ≡ (if c then 0 else n))
      × (neg_part (signed c n) ≡ (if c then n else 0))
signed_parts true zero = (refl, refl)
signed_parts true (suc n) = (refl, refl)
signed_parts false n = (refl, refl)

signed_cong :
    (c : Bool) (n : ℕ) (a b : ℕ)
    → (if c then 0 else n) + b ≡ (if c then n else 0) + a
    → sub_ℕ a b ≡ signed c n
signed_cong true zero a b e = ground arith
signed_cong true (suc n) a b e = ground arith
signed_cong false n a b e = ground arith

pub mul_signed : (c d : Bool) (n k : ℕ) → signed c n *ℤ signed d k ≡ signed (differ c d) (n * k)
unfolding ◌*ℤ◌
mul_signed c d n k =
    let p = signed_parts c n in
    let q = signed_parts d k in
    rw (p.0, p.1, q.0, q.1) (signed_cong (differ c d) (n * k) _ _ (products c d n k))
  where
    products :
        (c d : Bool) (n k : ℕ)
        → (if differ c d then 0 else n * k)
            + ((if c then 0 else n) * (if d then k else 0)
                + (if c then n else 0) * (if d then 0 else k))
          ≡ (if differ c d then n * k else 0)
            + ((if c then 0 else n) * (if d then 0 else k)
                + (if c then n else 0) * (if d then k else 0))
    products true true n k = omega arith
    products true false n k = omega arith
    products false true n k = omega arith
    products false false n k = omega arith

pub add_signed : (c : Bool) (n k : ℕ) → signed c n +ℤ signed c k ≡ signed c (n + k)
unfolding ◌+ℤ◌
add_signed c n k =
    let p = signed_parts c n in
    let q = signed_parts c k in rw (p.0, p.1, q.0, q.1) (signed_cong c (n + k) _ _ (sums c))
  where
    sums :
        (c : Bool)
        → (if c then 0 else n + k) + ((if c then n else 0) + (if c then k else 0))
          ≡ (if c then n + k else 0) + ((if c then 0 else n) + (if c then 0 else k))
    sums true = omega arith
    sums false = omega arith

-- A factor below zero is 2 ^ 64 less its magnitude.
mul_flipped : (x u k : ℕ) → x + u ≡ u64_mod → x * k + u * k ≡ u64_mod * k
mul_flipped x u k e = omega (arith, ap (λ (t : ℕ). t * k) e)

pub mul_mod :
    (c d : Bool) (x y u v : ℕ)
    → (if c then x + u ≡ u64_mod else x ≡ u)
    → (if d then y + v ≡ u64_mod else y ≡ v)
    → u * v < 2 ^ 62
    → (x * y) % u64_mod ≡ with_sign (differ c d) (u * v)
unfolding with_sign
mul_mod false false x y u v e f h = rw (e, f) (omega arith)
mul_mod true false x y u v e f h = rw f (omega (arith, mul_flipped x u v e))
mul_mod false true x y u v e f h = rw e (omega (arith, mul_flipped y v u f))
mul_mod true true x y u v e f h = omega (arith, mul_flipped y v x f, mul_flipped x u v e)

pub magnitude_flip :
    (x : ℕ) → x < u64_mod → if is_negative x then x + magnitude x ≡ u64_mod else x ≡ magnitude x
unfolding magnitude
magnitude_flip x h = elim (Bool-cases (is_negative x)) [
  | inl c ↦ rw c (ground arith)
  | inr c ↦ rw c refl
]

-- A product of magnitudes below 2 ^ 62 is what the wrapped product stands for.
pub wrapping_mul-signed :
    (x y : ℕ)
    → IsInt x
    → IsInt y
    → magnitude x * magnitude y < 2 ^ 62
    → wrapping_mul x y
      ≡ with_sign (differ (is_negative x) (is_negative y)) (magnitude x * magnitude y)
unfolding wrapping_mul
wrapping_mul-signed x y hx hy small =
    mul_mod (is_negative x) (is_negative y) x y (magnitude x) (magnitude y) (magnitude_flip x hx.0)
      (magnitude_flip y hy.0) small

-- A small number comes through the tagged slot.
pub to_ℤ-wrap :
    (c : Bool) (n : ℕ)
    → (if c then n ≤ 2 ^ 62 else n < 2 ^ 62)
    → to_ℤ (wrap_i63 (with_sign c n)) ≡ signed c n
unfolding wrap_i63 to_ℤ with_sign
to_ℤ-wrap true zero h = ground arith
to_ℤ-wrap true (suc n) h = ground arith
to_ℤ-wrap false n h = ground arith

pub within : (c : Bool) (n : ℕ) → n < 2 ^ 62 → if c then n ≤ 2 ^ 62 else n < 2 ^ 62
within true n h = omega arith
within false n h = h

pub wrap_i63-IsInt : (v : ℕ) → IsInt (wrap_i63 v)
unfolding wrap_i63 fits_in_i63
wrap_i63-IsInt v = ground arith
