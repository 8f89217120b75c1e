-- ===== src/Machine/Arc.antt =====
-- The conversions between a `Value` and the word in a slot, and the reference counts that they
-- keep: `value_to_stack_value`, `stack_value_to_value`, `clone_stack_value` and `drop_stack_value`
-- of crates/core/src/stack.rs. The allocator behind `Arc::new` is not code of the repository: it
-- is a parameter, that may find no memory.
mod Boxes
pub mod Laws
use patch_seq.Base.{ℕ, ◌+◌, ◌-◌, ◌≡◌, Bool, true, false, Option, none, some, ◌==◌, if◌then◌else◌}
use patch_seq.Word.{tag_false, tag_true, is_tagged_int, is_inline, tag_int, untag_int}
use patch_seq.Value.{Value, int, bool}
use patch_seq.Machine.{
  Cell, Heap, Machine, ok, undefined, out_of_memory, M, pure, ◌>>=◌, ◌>>◌, update,
}

-- What the runtime relies on: an address that `Arc::new` returns is not in use, and is even and
-- above 2, so that it is neither an Int nor a Bool.
pub record Allocator : Type 0 where
  pub malloc : Heap → Option ℕ
  pub malloc_free : (h : Heap) (a : ℕ) → malloc h ≡ some a → h a ≡ none
  pub malloc_aligned : (h : Heap) (a : ℕ) → malloc h ≡ some a → is_inline a ≡ false

-- `Arc::into_raw(Arc::new(value))`
unfoldable pub arc_new : Allocator → Value → M ℕ
arc_new alloc v m = elim (alloc.malloc m.heap) [
  | none ↦ out_of_memory
  | some a ↦ ok a (record m { heap = update m.heap a (some (record { value = v; strong = 1 })) })
]

-- `Arc::clone`
unfoldable pub arc_clone : ℕ → M (Unit {0})
arc_clone a m = elim (m.heap a) [
  | none ↦ undefined
  | some c ↦ ok tt (record m { heap = update m.heap a (some (record c { strong = c.strong + 1 })) })
]

-- The box after one of its references is dropped: the last one frees it.
unfoldable pub released : Cell → Option Cell
released c = if c.strong == 1 then none else some (record c { strong = c.strong - 1 })

-- The drop of an `Arc`
unfoldable pub arc_drop : ℕ → M (Unit {0})
unfolding released
arc_drop a m = elim (m.heap a) [
  | none ↦ undefined
  | some c ↦ ok tt (record m { heap = update m.heap a (released c) })
]

-- `Arc::try_unwrap(arc).unwrap_or_else(|arc| (*arc).clone())`: the value, one reference fewer.
unfoldable pub arc_unwrap : ℕ → M Value
unfolding released
arc_unwrap a m = elim (m.heap a) [
  | none ↦ undefined
  | some c ↦ ok c.value (record m { heap = update m.heap a (released c) })
]

unfoldable pub value_to_stack_value : Allocator → Value → M ℕ
unfolding arc_new
value_to_stack_value alloc (int i) = pure (tag_int i)
value_to_stack_value alloc (bool false) = pure tag_false
value_to_stack_value alloc (bool true) = pure tag_true
value_to_stack_value alloc other = arc_new alloc other

unfoldable pub stack_value_to_value : ℕ → M Value
unfolding arc_unwrap
stack_value_to_value sv =
    if is_tagged_int sv
    then pure (int (untag_int sv))
    else if sv == tag_false
    then pure (bool false)
    else if sv == tag_true
    then pure (bool true)
    else arc_unwrap sv

unfoldable pub clone_stack_value : ℕ → M ℕ
unfolding arc_clone
clone_stack_value sv = if is_inline sv then pure sv else do arc_clone sv; pure sv

unfoldable pub drop_stack_value : ℕ → M (Unit {0})
unfolding arc_drop
drop_stack_value sv = if is_inline sv then pure tt else arc_drop sv

-- `Arc::get_mut`: the box, if this is its one reference.
unfoldable pub arc_get_mut : ℕ → M (Option ℕ)
arc_get_mut a m = elim (m.heap a) [
  | none ↦ undefined
  | some c ↦ if c.strong == 1 then ok (some a) m else ok none m
]

-- A write through the reference that `Arc::get_mut` gives.
unfoldable pub write_box : ℕ → Value → M (Unit {0})
write_box a v m = elim (m.heap a) [
  | none ↦ undefined
  | some c ↦ ok tt (record m { heap = update m.heap a (some (record c { value = v })) })
]
