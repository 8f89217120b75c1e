-- ===== src/Variant/Make.antt =====
-- The constructors of variants (crates/runtime/src/variant_ops/make.rs), one for each number of
-- fields up to 12, and what `unpack_variant` makes of their results.
pub mod Laws
pub mod RoundTrip
use patch_seq.Base.{ℕ, zero, suc, List, [], ◌∷◌}
use patch_seq.Value.{Value, symbol, variant}
use patch_seq.Value.Fields.{values}
use patch_seq.Machine.{M, pure, panic, ◌>>=◌}
use patch_seq.Machine.Arc.{Allocator}
use patch_seq.Stack.{push, pop}

unfoldable pub expect_symbol : {A : Type 0} → Value → (List ℕ → M A) → M A
expect_symbol (symbol tag) k = k tag
expect_symbol other k = panic

-- `n` fields, the last one on top of the stack.
unfoldable pub pop_fields : (n : ℕ) → ℕ → List Value → M (ℕ × List Value)
pop_fields zero stack fs = pure (stack, fs)
pop_fields (suc n) stack fs = do (stack', field) ← pop stack; pop_fields n stack' (field ∷ fs)

-- The body that the constructors share.
unfoldable pub make_variant : (n : ℕ) → Allocator → ℕ → M ℕ
unfolding expect_symbol pop_fields
make_variant n alloc stack = do
  (stack', tag_val) ← pop stack
  expect_symbol tag_val (λ tag. do
    (stack'', fs) ← pop_fields n stack' []
    push alloc stack'' (variant tag (values fs)))

unfoldable pub make_variant_0 : Allocator → ℕ → M ℕ
unfolding make_variant
make_variant_0 = make_variant 0

unfoldable pub make_variant_1 : Allocator → ℕ → M ℕ
unfolding make_variant
make_variant_1 = make_variant 1

unfoldable pub make_variant_2 : Allocator → ℕ → M ℕ
unfolding make_variant
make_variant_2 = make_variant 2

unfoldable pub make_variant_3 : Allocator → ℕ → M ℕ
unfolding make_variant
make_variant_3 = make_variant 3

unfoldable pub make_variant_4 : Allocator → ℕ → M ℕ
unfolding make_variant
make_variant_4 = make_variant 4

unfoldable pub make_variant_5 : Allocator → ℕ → M ℕ
unfolding make_variant
make_variant_5 = make_variant 5

unfoldable pub make_variant_6 : Allocator → ℕ → M ℕ
unfolding make_variant
make_variant_6 = make_variant 6

unfoldable pub make_variant_7 : Allocator → ℕ → M ℕ
unfolding make_variant
make_variant_7 = make_variant 7

unfoldable pub make_variant_8 : Allocator → ℕ → M ℕ
unfolding make_variant
make_variant_8 = make_variant 8

unfoldable pub make_variant_9 : Allocator → ℕ → M ℕ
unfolding make_variant
make_variant_9 = make_variant 9

unfoldable pub make_variant_10 : Allocator → ℕ → M ℕ
unfolding make_variant
make_variant_10 = make_variant 10

unfoldable pub make_variant_11 : Allocator → ℕ → M ℕ
unfolding make_variant
make_variant_11 = make_variant 11

unfoldable pub make_variant_12 : Allocator → ℕ → M ℕ
unfolding make_variant
make_variant_12 = make_variant 12
