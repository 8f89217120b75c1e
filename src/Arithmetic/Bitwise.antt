-- ===== src/Arithmetic/Bitwise.antt =====
-- crates/runtime/src/arithmetic/bitwise.rs.
pub mod Shifts
pub mod Counts
use Prim.Native.Nat.{bit_and, bit_or, bit_xor}
use patch_seq.Base.{ℕ, ◌+◌, ◌-◌, ◌%◌, ◌^◌, ◌≡◌, Bool, ltb, ◌==◌, if◌then◌else◌}
use patch_seq.Value.{Value, int}
use patch_seq.Word.{u64_mod, fits_in_i63}
use patch_seq.Machine.{M}
use patch_seq.Machine.Arc.{Allocator}
use patch_seq.Stack.{push}
use patch_seq.Arithmetic.Words.{shift_left, shift_right, count_ones, leading_zeros, trailing_zeros}
use patch_seq.Arithmetic.Shape.{int_binary, int_unary}

unfoldable pub band : Allocator → ℕ → M ℕ
band alloc = int_binary alloc (λ a b. int (bit_and a b))

unfoldable pub bor : Allocator → ℕ → M ℕ
bor alloc = int_binary alloc (λ a b. int (bit_or a b))

unfoldable pub bxor : Allocator → ℕ → M ℕ
bxor alloc = int_binary alloc (λ a b. int (bit_xor a b))

unfoldable pub bnot : Allocator → ℕ → M ℕ
bnot alloc = int_unary alloc (λ a. int (u64_mod - 1 - a))

-- A count from 0 to 63 is a number below 64: the bits of a negative one are not.
unfoldable pub shl_value : ℕ → ℕ → ℕ
unfolding fits_in_i63 shift_left
shl_value v c =
    if ltb c 64 then (let raw = shift_left v c in if fits_in_i63 raw then raw else 0) else 0

unfoldable pub shl : Allocator → ℕ → M ℕ
unfolding shl_value
shl alloc = int_binary alloc (λ v c. int (shl_value v c))

unfoldable pub shr_value : ℕ → ℕ → ℕ
unfolding fits_in_i63 shift_right
shr_value v c =
    if ltb c 64 then (let raw = shift_right v c in if fits_in_i63 raw then raw else 0) else 0

unfoldable pub shr : Allocator → ℕ → M ℕ
unfolding shr_value
shr alloc = int_binary alloc (λ v c. int (shr_value v c))

-- `(v as u64) & I63_MASK`
unfoldable pub popcount : Allocator → ℕ → M ℕ
popcount alloc = int_unary alloc (λ v. int (count_ones 64 (v % 2 ^ 63)))

-- `(v.leading_zeros() as i64).saturating_sub(1)`: on an `i64` this stops at `i64::MIN` and not at
-- 0, so a count of 0 becomes -1.
unfoldable pub clz_value : ℕ → ℕ
clz_value v = (leading_zeros 64 v + u64_mod - 1) % u64_mod

unfoldable pub clz : Allocator → ℕ → M ℕ
unfolding clz_value
clz alloc = int_unary alloc (λ v. int (clz_value v))

unfoldable pub ctz : Allocator → ℕ → M ℕ
ctz alloc = int_unary alloc (λ v. int (if v == 0 then 63 else trailing_zeros 64 v))

unfoldable pub int_bits : Allocator → ℕ → M ℕ
int_bits alloc stack = push alloc stack (int 63)
