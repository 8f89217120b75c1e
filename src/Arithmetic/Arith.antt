-- ===== src/Arithmetic/Arith.antt =====
-- crates/runtime/src/arithmetic/arith.rs and peek.rs.
pub mod Exact
pub mod Division
use patch_seq.Base.{ℕ, ◌-◌, ◌^◌, ◌≡◌, Bool, Option, none, some, leb, ltb, ◌==◌, if◌then◌else◌}
use patch_seq.Value.{Value, int, bool}
use patch_seq.Machine.{M, pure, panic, ◌>>=◌, ◌>>◌}
use patch_seq.Machine.Arc.{Allocator}
use patch_seq.Stack.{push, pop, peek}
use patch_seq.Arithmetic.Words.{
  wrapping_add, wrapping_sub, wrapping_mul, wrapping_div, wrapping_rem, checked_pow,
}
use patch_seq.Arithmetic.Shape.{int_binary, int_checked}

unfoldable pub push_int : Allocator → ℕ → ℕ → M ℕ
push_int alloc stack value = push alloc stack (int value)

unfoldable pub push_bool : Allocator → ℕ → Bool → M ℕ
push_bool alloc stack value = push alloc stack (bool value)

unfoldable pub add : Allocator → ℕ → M ℕ
add alloc = int_binary alloc (λ a b. int (wrapping_add a b))

unfoldable pub subtract : Allocator → ℕ → M ℕ
subtract alloc = int_binary alloc (λ a b. int (wrapping_sub a b))

unfoldable pub multiply : Allocator → ℕ → M ℕ
multiply alloc = int_binary alloc (λ a b. int (wrapping_mul a b))

unfoldable pub divide : Allocator → ℕ → M ℕ
divide alloc = int_checked alloc (λ a b. if b == 0 then none else some (wrapping_div a b))

unfoldable pub modulo : Allocator → ℕ → M ℕ
modulo alloc = int_checked alloc (λ a b. if b == 0 then none else some (wrapping_rem a b))

-- An exponent from 0 to `u32::MAX`; a negative one has the bits of a number above.
unfoldable pub pow : Allocator → ℕ → M ℕ
pow alloc =
    int_checked alloc (λ base exp. if leb exp (2 ^ 32 - 1) then checked_pow base exp else none)

abbrev pub expect_int : Value → M ℕ
expect_int (int i) = pure i
expect_int _ = panic

abbrev pub expect_bool : Value → M Bool
expect_bool (bool b) = pure b
expect_bool _ = panic

unfoldable pub peek_int_value : ℕ → M ℕ
peek_int_value stack = if stack == 0 then panic else do val ← peek stack; expect_int val

unfoldable pub peek_bool_value : ℕ → M Bool
peek_bool_value stack = if stack == 0 then panic else do val ← peek stack; expect_bool val

unfoldable pub pop_stack : ℕ → M ℕ
pop_stack stack = if stack == 0 then panic else do (rest, _) ← pop stack; pure rest
