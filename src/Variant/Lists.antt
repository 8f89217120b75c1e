-- ===== src/Variant/Lists.antt =====
-- The list operations of crates/runtime/src/list_ops/basic.rs and access.rs that do not write to a
-- list. The name of the tag "List" is its bytes.
pub mod Get
use patch_seq.Base.{
  ℕ, zero, suc, ◌+◌, ◌-◌, ◌≡◌, Bool, true, false, ◌||◌, ◌&&◌, Option, none, some, List, [], ◌∷◌,
  ltb, leb, ◌==◌, if◌then◌else◌, length, get_elem?, set, reverse,
}
use patch_seq.Word.{i64_min, is_tagged_int, untag_int}
use patch_seq.Value.{Value, Values, int, bool, variant}
use patch_seq.Value.Fields.{fields, values}
use patch_seq.Machine.{
  Machine, ok, M, pure, panic, ◌>>=◌, ◌>>◌, load, OpName, list_get, list_first, list_last,
  expected_int, expected_variant, stack_underflow, set_runtime_error, get_stack_base,
}
use patch_seq.Machine.Arc.{Allocator, write_box}
use patch_seq.Stack.{push, pop, heap_value_mut}
use patch_seq.Variant.{expect_variant, last}

-- "List"
abbrev pub list_tag : List ℕ
list_tag = b'L' ∷ b'i' ∷ b's' ∷ b't' ∷ []

unfoldable pub list_empty : Allocator → ℕ → M ℕ
unfolding expect_variant
list_empty alloc stack = do
  (stack', list_val) ← pop stack
  expect_variant list_val (λ tag fs. push alloc stack' (bool (length fs == 0)))

unfoldable pub list_make : Allocator → ℕ → M ℕ
list_make alloc stack = push alloc stack (variant list_tag (values []))

unfoldable pub list_reverse : Allocator → ℕ → M ℕ
unfolding expect_variant
list_reverse alloc stack = do
  (stack', list_val) ← pop stack
  expect_variant list_val (λ tag fs. push alloc stack' (variant tag (values (reverse fs))))

unfoldable pub stack_depth : ℕ → M ℕ
stack_depth stack m = ok (if stack == 0 then 0 else if m.base == 0 then 0 else stack - m.base) m

-- A value, and the flag above it.
unfoldable pub push_flagged : Allocator → ℕ → Value → Bool → M ℕ
push_flagged alloc stack v flag = do stack' ← push alloc stack v; push alloc stack' (bool flag)

-- The placeholder 0 and `false`.
unfoldable pub not_found : Allocator → ℕ → M ℕ
unfolding push_flagged
not_found alloc stack = push_flagged alloc stack (int 0) false

unfoldable pub found_or_not : Allocator → ℕ → Option Value → M ℕ
unfolding push_flagged not_found
found_or_not alloc stack none = not_found alloc stack
found_or_not alloc stack (some v) = push_flagged alloc stack v true

-- `fields[index]`, if the index is neither negative nor out of bounds.
unfoldable pub field_within : ℕ → List Value → Option Value
field_within index fs =
    if leb i64_min index || leb (length fs) index then none else get_elem? fs index

unfoldable pub get_from : Allocator → ℕ → (index_val list_val : Value) → M ℕ
unfolding found_or_not field_within
get_from alloc stack (int index) (variant tag fs) =
    found_or_not alloc stack (field_within index (fields fs))
get_from alloc stack (int index) other = do
  set_runtime_error (expected_variant list_get)
  not_found alloc stack
get_from alloc stack index_val list_val = do
  set_runtime_error (expected_int list_get)
  not_found alloc stack

-- `patch_seq_list_get`; the depth is tested before anything is popped.
unfoldable pub get : Allocator → ℕ → M ℕ
unfolding get_from
get alloc stack = do
  depth ← stack_depth stack
  if ltb depth 2 then (do set_runtime_error (stack_underflow list_get); pure stack) else do
    (stack', index_val) ← pop stack
    (stack'', list_val) ← pop stack'
    get_from alloc stack'' index_val list_val

unfoldable pub endpoint_of : Allocator → ℕ → OpName → (List Value → Option Value) → Value → M ℕ
unfolding found_or_not
endpoint_of alloc stack op pick (variant tag fs) = found_or_not alloc stack (pick (fields fs))
endpoint_of alloc stack op pick other = do
  set_runtime_error (expected_variant op)
  not_found alloc stack

-- `list_endpoint`; `pick` gives none exactly for the empty list.
unfoldable pub list_endpoint : Allocator → ℕ → OpName → (List Value → Option Value) → M ℕ
unfolding endpoint_of
list_endpoint alloc stack op pick = do
  depth ← stack_depth stack
  if ltb depth 1
      then (do set_runtime_error (stack_underflow op); pure stack)
      else do (stack', list_val) ← pop stack; endpoint_of alloc stack' op pick list_val

unfoldable pub first : Allocator → ℕ → M ℕ
unfolding list_endpoint
first alloc stack = list_endpoint alloc stack list_first (λ fs. get_elem? fs 0)

unfoldable pub last_of : Allocator → ℕ → M ℕ
unfolding list_endpoint last
last_of alloc stack = list_endpoint alloc stack list_last last
