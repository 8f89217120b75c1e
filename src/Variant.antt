-- ===== src/Variant.antt =====
-- Variants, which lists are too (crates/runtime/src/variant_ops/access.rs and modify.rs,
-- crates/runtime/src/list_ops/basic.rs and access.rs). The operations that can write behind the inner
-- count of a variant (append, list.push, list.set) are not modelled: values do not show which of them
-- share their fields.
pub mod Room
pub mod Lists
pub mod Access
pub mod Make
mod Tests
use patch_seq.Base.{
  ℕ, zero, suc, ◌+◌, ◌-◌, ◌≡◌, Bool, true, false, ◌||◌, Option, none, some, List, [], ◌∷◌, ◌++◌,
  ltb, leb, ◌==◌, if◌then◌else◌, length, get_elem?, set, reverse,
}
use patch_seq.Word.{i64_min, u64_mod, is_tagged_int, untag_int}
use patch_seq.Value.{Value, Values, int, bool, symbol, variant}
use patch_seq.Value.Fields.{fields, values}
use patch_seq.Machine.{Machine, ok, undefined, M, pure, panic, ◌>>=◌, ◌>>◌, load}
use patch_seq.Machine.Arc.{Allocator, write_box}
use patch_seq.Stack.{push, pop, heap_value_mut, peek_heap_mut_second}

-- `variant_data.fields`, or a panic.
unfoldable pub expect_variant : {A : Type 0} → Value → (List ℕ → List Value → M A) → M A
expect_variant (variant tag fs) k = k tag (fields fs)
expect_variant other k = panic

unfoldable pub field_count : Allocator → ℕ → M ℕ
unfolding expect_variant
field_count alloc stack = do
  (stack', value) ← pop stack
  expect_variant value (λ tag fs. push alloc stack' (int (length fs)))

unfoldable pub variant_tag : Allocator → ℕ → M ℕ
unfolding expect_variant
variant_tag alloc stack = do
  (stack', value) ← pop stack
  expect_variant value (λ tag fs. push alloc stack' (symbol tag))

-- An index out of bounds panics.
unfoldable pub push_field : Allocator → ℕ → Option Value → M ℕ
push_field alloc stack (some v) = push alloc stack v
push_field alloc stack none = panic

unfoldable pub expect_index : {A : Type 0} → Value → (ℕ → M A) → M A
expect_index (int i) k = if leb i64_min i then panic else k i
expect_index other k = panic

unfoldable pub field_at : Allocator → ℕ → M ℕ
unfolding expect_variant expect_index push_field
field_at alloc stack = do
  (stack', index_val) ← pop stack
  expect_index index_val (λ index. do
    (stack'', variant_val) ← pop stack'
    expect_variant variant_val (λ tag fs. push_field alloc stack'' (get_elem? fs index)))

unfoldable pub last : List Value → Option Value
last [] = none
last (v ∷ []) = some v
last (v ∷ u ∷ vs) = last (u ∷ vs)

unfoldable pub init : List Value → List Value
init [] = []
init (v ∷ []) = []
init (v ∷ u ∷ vs) = v ∷ init (u ∷ vs)

unfoldable pub variant_first : Allocator → ℕ → M ℕ
unfolding expect_variant push_field
variant_first alloc stack = do
  (stack', variant_val) ← pop stack
  expect_variant variant_val (λ tag fs. push_field alloc stack' (get_elem? fs 0))

unfoldable pub variant_last : Allocator → ℕ → M ℕ
unfolding expect_variant push_field last
variant_last alloc stack = do
  (stack', variant_val) ← pop stack
  expect_variant variant_val (λ tag fs. push_field alloc stack' (last fs))

unfoldable pub variant_init : Allocator → ℕ → M ℕ
unfolding expect_variant init
variant_init alloc stack = do
  (stack', variant_val) ← pop stack
  expect_variant variant_val (λ tag fs.
      if length fs == 0 then panic else push alloc stack' (variant tag (values (init fs))))

-- The loop of `patch_seq_unpack_variant`: the first `count` fields, in order.
unfoldable pub push_fields : Allocator → ℕ → (count : ℕ) → List Value → M ℕ
push_fields alloc stack zero fs = pure stack
push_fields alloc stack (suc n) [] = panic
push_fields alloc stack (suc n) (v ∷ fs) = do
  stack' ← push alloc stack v
  push_fields alloc stack' n fs

unfoldable pub unpack_variant : Allocator → ℕ → (field_count : ℕ) → M ℕ
unfolding expect_variant push_fields
unpack_variant alloc stack count = do
  (stack', variant_val) ← pop stack
  expect_variant variant_val
      (λ tag fs. if ltb (length fs) count then panic else push_fields alloc stack' count fs)
