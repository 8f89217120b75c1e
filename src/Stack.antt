-- ===== src/Stack.antt =====
-- The stack operations that compiled code calls (crates/core/src/stack.rs), over an explicit array
-- of slots and counted boxes. Each takes the stack pointer and returns the new one.
pub mod Represents
pub mod Shuffle
pub mod Sequences
pub mod Ends
pub mod ByIndex
pub mod InPlace
mod Tests
use patch_seq.Base.{
  ℕ, zero, suc, ◌+◌, ◌-◌, ◌≡◌, Bool, true, false, Option, none, some, ltb, leb, ◌==◌, if◌then◌else◌,
}
use patch_seq.Word.{i64_min, is_inline}
use patch_seq.Value.{Value, int}
use patch_seq.Machine.{
  Machine, ok, M, pure, panic, ◌>>=◌, ◌>>◌, load, store, OpName, pick, roll, RuntimeError,
  expected_int, negative_index, exceeds_depth, set_runtime_error, get_stack_base,
}
use patch_seq.Machine.Arc.{
  arc_get_mut, Allocator, value_to_stack_value, stack_value_to_value, clone_stack_value,
  drop_stack_value,
}

-- `push`; `patch_seq_push_value` is the same function.
unfoldable pub push : Allocator → ℕ → Value → M ℕ
push alloc stack value = do sv ← value_to_stack_value alloc value; store stack sv; pure (stack + 1)

unfoldable pub push_sv : ℕ → ℕ → M ℕ
push_sv stack sv = do store stack sv; pure (stack + 1)

unfoldable pub pop : ℕ → M (ℕ × Value)
pop stack = do
  let new_sp = stack - 1
  sv ← load new_sp
  v ← stack_value_to_value sv
  pure (new_sp, v)

unfoldable pub pop_sv : ℕ → M (ℕ × ℕ)
pop_sv stack = do let new_sp = stack - 1; sv ← load new_sp; pure (new_sp, sv)

-- `pop_two`: the second value of the stack comes first.
unfoldable pub pop_two : ℕ → M (ℕ × Value × Value)
unfolding pop
pop_two stack = do (sp, b) ← pop stack; (sp', a) ← pop sp; pure (sp', a, b)

unfoldable pub peek : ℕ → M Value
peek stack = do sv ← load (stack - 1); cloned ← clone_stack_value sv; stack_value_to_value cloned

unfoldable pub peek_sv : ℕ → M ℕ
peek_sv stack = load (stack - 1)

-- `heap_value_mut`: the box that the word in the slot alone points to.
unfoldable pub heap_value_mut : ℕ → M (Option ℕ)
unfolding arc_get_mut
heap_value_mut slot = do sv ← load slot; if is_inline sv then pure none else arc_get_mut sv

unfoldable pub peek_heap_mut : ℕ → M (Option ℕ)
unfolding heap_value_mut
peek_heap_mut stack = heap_value_mut (stack - 1)

unfoldable pub peek_heap_mut_second : ℕ → M (Option ℕ)
unfolding heap_value_mut
peek_heap_mut_second stack = heap_value_mut (stack - 2)

unfoldable pub dup : ℕ → M ℕ
unfolding peek_sv push_sv
dup stack = do sv ← peek_sv stack; cloned ← clone_stack_value sv; push_sv stack cloned

-- `drop_top`, that `patch_seq_drop_op` calls
unfoldable pub drop_top : ℕ → M ℕ
unfolding pop_sv
drop_top stack = do (new_sp, sv) ← pop_sv stack; drop_stack_value sv; pure new_sp

unfoldable pub swap : ℕ → M ℕ
swap stack = do
  let ptr_b = stack - 1
  let ptr_a = stack - 2
  a ← load ptr_a
  b ← load ptr_b
  store ptr_a b
  store ptr_b a
  pure stack

unfoldable pub over : ℕ → M ℕ
unfolding push_sv
over stack = do sv_a ← load (stack - 2); cloned ← clone_stack_value sv_a; push_sv stack cloned

unfoldable pub rot : ℕ → M ℕ
rot stack = do
  let ptr_c = stack - 1
  let ptr_b = stack - 2
  let ptr_a = stack - 3
  a ← load ptr_a
  b ← load ptr_b
  c ← load ptr_c
  store ptr_a b
  store ptr_b c
  store ptr_c a
  pure stack

unfoldable pub nip : ℕ → M ℕ
nip stack = do
  let ptr_b = stack - 1
  let ptr_a = stack - 2
  a ← load ptr_a
  b ← load ptr_b
  drop_stack_value a
  store ptr_a b
  pure (stack - 1)

unfoldable pub tuck : ℕ → M ℕ
unfolding push_sv
tuck stack = do
  let ptr_b = stack - 1
  let ptr_a = stack - 2
  a ← load ptr_a
  b ← load ptr_b
  b_clone ← clone_stack_value b
  store ptr_a b
  store ptr_b a
  push_sv stack b_clone

unfoldable pub two_dup : ℕ → M ℕ
unfolding push_sv
two_dup stack = do
  sv_a ← load (stack - 2)
  sv_b ← load (stack - 1)
  a_clone ← clone_stack_value sv_a
  b_clone ← clone_stack_value sv_b
  sp ← push_sv stack a_clone
  push_sv sp b_clone

-- The result of `pop_and_validate_index`: the pointer after the pop, and the index if it is one.
pub data Index : Type 0 where
  valid : (sp n : ℕ) → Index
  invalid : (sp : ℕ) → Index

abbrev pub validate_index : OpName → ℕ → Value → M Index
validate_index op sp (int n_raw) =
    if leb i64_min n_raw
    then (do set_runtime_error (negative_index op n_raw); pure (invalid sp))
    else pure (valid sp n_raw)
validate_index op sp other = do set_runtime_error (expected_int op); pure (invalid sp)

unfoldable pub pop_and_validate_index : ℕ → OpName → M Index
unfolding pop
pop_and_validate_index stack op = do (sp, n_val) ← pop stack; validate_index op sp n_val

-- The depth is that of the current strand's stack, from its base. The source subtracts the addresses
-- and needs the pointer not to lie below the base; where it does, the depth here is 0.
unfoldable pub check_depth_for_index : ℕ → ℕ → OpName → M Bool
check_depth_for_index sp n op = do
  base ← get_stack_base
  let depth = sp - base
  if leb depth n then (do set_runtime_error (exceeds_depth op n depth); pure false) else pure true

-- What `patch_seq_pick_op` does with its index.
unfoldable pub pick_index : Index → M ℕ
unfolding check_depth_for_index push_sv
pick_index (invalid sp) = pure sp
pick_index (valid sp n) = do
  deep ← check_depth_for_index sp n pick
  if deep
      then (do sv ← load (sp - (n + 1)); cloned ← clone_stack_value sv; push_sv sp cloned)
      else pure sp

unfoldable pub pick_op : ℕ → M ℕ
unfolding pop_and_validate_index pick_index
pick_op stack = do i ← pop_and_validate_index stack pick; pick_index i

-- `std::ptr::copy(src + 1, src, n)`: the `n` slots above `src` move down by one.
unfoldable pub copy_down : ℕ → ℕ → M (Unit {0})
copy_down src zero = pure tt
copy_down src (suc n) = do w ← load (src + 1); store src w; copy_down (src + 1) n

-- The rotation of `n + 1` slots in general.
unfoldable pub roll_deep : ℕ → ℕ → M ℕ
unfolding copy_down
roll_deep sp n = do
  let src_ptr = sp - (n + 1)
  saved ← load src_ptr
  copy_down src_ptr n
  store (sp - 1) saved
  pure sp

-- What `patch_seq_roll` does with its index.
unfoldable pub roll_index : Index → M ℕ
unfolding swap rot check_depth_for_index roll_deep
roll_index (invalid sp) = pure sp
roll_index (valid sp n) =
    if n == 0
    then pure sp
    else if n == 1
    then swap sp
    else if n == 2
    then rot sp
    else do deep ← check_depth_for_index sp n roll; if deep then roll_deep sp n else pure sp

unfoldable pub roll_op : ℕ → M ℕ
unfolding pop_and_validate_index roll_index
roll_op stack = do i ← pop_and_validate_index stack roll; roll_index i
