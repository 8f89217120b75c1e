-- ===== src/TaggedStack/Tests.antt =====
-- The theorems on the stack buffer, at concrete stacks.
use patch_seq.Base.{ℕ, ◌<◌, ◌≡◌, refl, some, List, [], ◌∷◌, ◌++◌, arith, ◌==◌, if◌then◌else◌, ◌⊎◌}
use patch_seq.Word.{is_inline, is_tagged_int, untag_int}
use patch_seq.Value.{Value, int}
use patch_seq.Machine.{Heap, ok}
use patch_seq.Machine.Owns.{Owns, decode}
use patch_seq.Machine.Samples.{unshared, greeting, shared_string}
use patch_seq.TaggedStack.{TaggedStack, Buffers, push, clone_stack, drop_stack}
use patch_seq.TaggedStack.Growth.{IsValid, contents, Leaves, Fails, push-Leaves}
use patch_seq.TaggedStack.Ownership.{clone_stack-Owns, drop_stack-Owns}

pub same_buffer :
    (base new_base : ℕ → ℕ) (capacity new_capacity : ℕ)
    → some base ≡ some new_base
    → (i : ℕ) → i < capacity
    → i < new_capacity
    → new_base i ≡ base i
same_buffer base new_base capacity new_capacity e i h k = cc

abbrev zeroed : Buffers
zeroed = record {
  alloc = λ capacity. some (λ _. 0);
  realloc = λ base capacity new_capacity. some base;
  realloc_keeps = same_buffer;
}

-- Two words for one string below the Int 2, in a buffer of that many slots.
abbrev holding_three : (capacity : ℕ) → TaggedStack
holding_three capacity = record {
  base = λ i. if i == 0 then 8 else if i == 1 then 8 else 5;
  sp = 3;
  capacity = capacity;
}

abbrev three_values : List Value
three_values = greeting ∷ greeting ∷ int 2 ∷ []

three-IsValid : IsValid (holding_three 3)
three-IsValid = record { within = omega arith; sized = omega arith; legal = omega arith }

four-IsValid : IsValid (holding_three 4)
four-IsValid = record { within = omega arith; sized = omega arith; legal = omega arith }

four-Owns : Owns unshared (shared_string 0).heap (contents (holding_three 4)) three_values
unfolding decode is_inline is_tagged_int untag_int
four-Owns = record {
  counted = λ a na. ground arith;
  positive = λ a c e. ground arith;
  decoded = (refl, (refl, (refl, tt)));
}

push-Leaves_example :
    Leaves (push zeroed 7 (holding_three 3)) (shared_string 0) (8 ∷ 8 ∷ 5 ∷ 7 ∷ [])
    ⊎ (((holding_three 3).sp ≡ (holding_three 3).capacity)
        × Fails zeroed (holding_three 3) (push zeroed 7 (holding_three 3)) (shared_string 0))
push-Leaves_example = push-Leaves zeroed (holding_three 3) 7 (shared_string 0) three-IsValid

clone_stack-Owns_example :
    (s' : TaggedStack) × (h : Heap) × (clone_stack zeroed (holding_three 4) (shared_string 0)
      ≡ ok s' (record (shared_string 0) { heap = h }))
    × IsValid s'
    × (contents s' ≡ contents (holding_three 4))
    × Owns unshared h (contents s' ++ contents (holding_three 4)) (three_values ++ three_values)
clone_stack-Owns_example =
    clone_stack-Owns zeroed unshared (shared_string 0) (holding_three 4) three_values (λ _. 0)
      four-IsValid refl four-Owns

drop_stack-Owns_example :
    (h : Heap) × (drop_stack (holding_three 4) (shared_string 0)
      ≡ ok tt (record (shared_string 0) { heap = h }))
    × Owns unshared h [] []
drop_stack-Owns_example =
    drop_stack-Owns unshared (shared_string 0) (holding_three 4) three_values four-IsValid four-Owns
