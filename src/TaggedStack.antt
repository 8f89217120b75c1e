-- ===== src/TaggedStack.antt =====
-- The growable stack buffer `TaggedStack` of crates/core/src/tagged_stack.rs. The buffer is the
-- function from a slot to its word; the system's allocator for it is a parameter, that may find no
-- memory. Sizes are `usize`s, whose arithmetic wraps as in a release build.
pub mod Words
pub mod Growth
pub mod Ownership
mod Tests
use patch_seq.Base.{
  max, ℕ, zero, suc, ◌+◌, ◌-◌, ◌*◌, ◌%◌, ◌^◌, ◌<◌, ◌≡◌, Bool, true, false, Option, none, some, ltb,
  leb, ◌==◌, if◌then◌else◌,
}
use patch_seq.Word.{u64_mod, is_tagged_int, tag_int, untag_int}
use patch_seq.Machine.{Machine, ok, undefined, out_of_memory, M, pure, panic, ◌>>=◌, ◌>>◌, update}
use patch_seq.Machine.Arc.{clone_stack_value, drop_stack_value}

-- The allocator of buffers: a buffer made larger keeps its words.
pub record Buffers : Type 0 where
  pub alloc : (capacity : ℕ) → Option (ℕ → ℕ)
  pub realloc : (base : ℕ → ℕ) → (capacity new_capacity : ℕ) → Option (ℕ → ℕ)
  pub realloc_keeps :
      (base new_base : ℕ → ℕ) (capacity new_capacity : ℕ)
      → realloc base capacity new_capacity ≡ some new_base
      → (i : ℕ) → i < capacity
      → i < new_capacity
      → new_base i ≡ base i

pub record TaggedStack : Type 0 where
  pub base : ℕ → ℕ
  pub sp : ℕ
  pub capacity : ℕ

abbrev pub default_stack_capacity : ℕ
default_stack_capacity = 4096

-- `Layout::array` fails above `isize::MAX` bytes.
unfoldable pub stack_layout : ℕ → M (Unit {0})
stack_layout capacity = if ltb (capacity * 8) (2 ^ 63) then pure tt else panic

-- `handle_alloc_error` on a null pointer
abbrev pub or_out_of_memory : Option (ℕ → ℕ) → M (ℕ → ℕ)
or_out_of_memory none m = out_of_memory
or_out_of_memory (some base) m = ok base m

-- An allocation of no bytes is undefined.
unfoldable pub new : Buffers → ℕ → M TaggedStack
unfolding stack_layout
new buffers capacity = do
  stack_layout capacity
  if capacity == 0 then (λ _. undefined) else do
    base ← or_out_of_memory (buffers.alloc capacity)
    pure (record { base = base; sp = 0; capacity = capacity })

unfoldable pub with_default_capacity : Buffers → M TaggedStack
unfolding new
with_default_capacity buffers = new buffers default_stack_capacity

unfoldable pub has_capacity : TaggedStack → ℕ → Bool
has_capacity s n = leb ((s.sp + n) % u64_mod) s.capacity

unfoldable pub grow : Buffers → ℕ → TaggedStack → M TaggedStack
unfolding stack_layout
grow buffers min_capacity s = do
  let new_capacity = max ((s.capacity * 2) % u64_mod) min_capacity
  stack_layout s.capacity
  stack_layout new_capacity
  new_base ← or_out_of_memory (buffers.realloc s.base s.capacity new_capacity)
  pure (record s { base = new_base; capacity = new_capacity })

-- The write at the stack pointer.
abbrev pub put : ℕ → TaggedStack → TaggedStack
put val s = record s { base = update s.base s.sp val; sp = s.sp + 1 }

unfoldable pub push : Buffers → ℕ → TaggedStack → M TaggedStack
unfolding grow
push buffers val s =
    if leb s.capacity s.sp
    then (do s' ← grow buffers (s.capacity + 1) s; pure (put val s'))
    else pure (put val s)

unfoldable pub pop : TaggedStack → M (ℕ × TaggedStack)
pop s = if ltb 0 s.sp then pure (s.base (s.sp - 1), record s { sp = s.sp - 1 }) else panic

unfoldable pub peek : TaggedStack → M ℕ
peek s = if ltb 0 s.sp then pure (s.base (s.sp - 1)) else panic

unfoldable pub push_int : Buffers → ℕ → TaggedStack → M TaggedStack
unfolding push
push_int buffers val s = push buffers (tag_int val) s

unfoldable pub pop_int : TaggedStack → M (ℕ × TaggedStack)
unfolding pop
pop_int s = do (val, s') ← pop s; if is_tagged_int val then pure (untag_int val, s') else panic

-- The loop of `clone_stack`: `n` words from slot `i` on.
unfoldable pub clone_words : (base new_base : ℕ → ℕ) → (i n : ℕ) → M (ℕ → ℕ)
clone_words base new_base i zero = pure new_base
clone_words base new_base i (suc n) = do
  cloned ← clone_stack_value (base i)
  clone_words base (update new_base i cloned) (i + 1) n

unfoldable pub clone_stack : Buffers → TaggedStack → M TaggedStack
unfolding stack_layout clone_words
clone_stack buffers s = do
  stack_layout s.capacity
  new_base ← or_out_of_memory (buffers.alloc s.capacity)
  new_base' ← clone_words s.base new_base 0 s.sp
  pure (record { base = new_base'; sp = s.sp; capacity = s.capacity })

-- The loop of `drop`.
unfoldable pub drop_words : (base : ℕ → ℕ) → (i n : ℕ) → M (Unit {0})
drop_words base i zero = pure tt
drop_words base i (suc n) = do drop_stack_value (base i); drop_words base (i + 1) n

-- `Drop for TaggedStack`; the layout of the buffer that it frees is the one it was made with.
unfoldable pub drop_stack : TaggedStack → M (Unit {0})
unfolding drop_words stack_layout
drop_stack s = do drop_words s.base 0 s.sp; stack_layout s.capacity

-- `seq_stack_set_sp`
unfoldable pub set_sp : ℕ → TaggedStack → M TaggedStack
set_sp new_sp s = if leb new_sp s.capacity then pure (record s { sp = new_sp }) else panic
