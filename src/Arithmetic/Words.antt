-- ===== src/Arithmetic/Words.antt =====
-- The operations of Rust's `i64` that crates/runtime/src/arithmetic/ uses, on the 64 bits of their
-- operands: wrapping and checked arithmetic, shifts and bit counts.
use patch_seq.Base.{
  ℕ, zero, suc, ◌+◌, ◌-◌, ◌*◌, ◌/◌, ◌%◌, ◌^◌, Bool, true, false, ◌&&◌, not, Option, none, some, ltb,
  leb, ◌==◌, if◌then◌else◌,
}
use patch_seq.Word.{u64_mod, i64_min}

unfoldable pub wrapping_add : ℕ → ℕ → ℕ
wrapping_add a b = (a + b) % u64_mod

unfoldable pub wrapping_sub : ℕ → ℕ → ℕ
wrapping_sub a b = (a + u64_mod - b) % u64_mod

unfoldable pub wrapping_mul : ℕ → ℕ → ℕ
wrapping_mul a b = (a * b) % u64_mod

abbrev pub is_negative : ℕ → Bool
is_negative a = leb i64_min a

-- The distance from zero; `i64::MIN` has 2 ^ 63.
unfoldable pub magnitude : ℕ → ℕ
magnitude a = if is_negative a then u64_mod - a else a

-- The bits of the integer with that sign and distance from zero.
unfoldable pub with_sign : Bool → ℕ → ℕ
with_sign true n = (u64_mod - n) % u64_mod
with_sign false n = n

abbrev pub differ : Bool → Bool → Bool
differ true b = not b
differ false b = b

-- Both round towards zero; `i64::MIN / -1` wraps to `i64::MIN`.
unfoldable pub wrapping_div : ℕ → ℕ → ℕ
unfolding magnitude with_sign
wrapping_div a b = with_sign (differ (is_negative a) (is_negative b)) (magnitude a / magnitude b)

unfoldable pub wrapping_rem : ℕ → ℕ → ℕ
unfolding magnitude with_sign
wrapping_rem a b = with_sign (is_negative a) (magnitude a % magnitude b)

-- The power, if it is an `i64`.
unfoldable pub checked_pow : ℕ → ℕ → Option ℕ
unfolding magnitude with_sign
checked_pow base exp =
    let n = magnitude base ^ exp in
    let negative = is_negative base && exp % 2 == 1 in
    if (if negative then leb n i64_min else ltb n i64_min)
    then some (with_sign negative n)
    else none

-- `v << c` and the logical `v >> c`, for a count below 64.
unfoldable pub shift_left : ℕ → ℕ → ℕ
shift_left v c = (v * 2 ^ c) % u64_mod

unfoldable pub shift_right : ℕ → ℕ → ℕ
shift_right v c = v / 2 ^ c

-- The set bits among the lowest `width`.
unfoldable pub count_ones : (width : ℕ) → ℕ → ℕ
count_ones zero v = 0
count_ones (suc k) v = v % 2 + count_ones k (v / 2)

unfoldable pub leading_zeros : (width : ℕ) → ℕ → ℕ
leading_zeros zero v = 0
leading_zeros (suc k) v = if leb (2 ^ k) v then 0 else suc (leading_zeros k v)

unfoldable pub trailing_zeros : (width : ℕ) → ℕ → ℕ
trailing_zeros zero v = 0
trailing_zeros (suc k) v = if v % 2 == 1 then 0 else suc (trailing_zeros k (v / 2))
