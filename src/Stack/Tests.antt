-- ===== src/Stack/Tests.antt =====
-- The theorems on the stack operations, at concrete stacks.
use patch_seq.Base.{ℕ, Option, none, some, [], ◌∷◌, ◌≡◌, refl, arith, ◌==◌, if◌then◌else◌}
use patch_seq.Word.{is_inline, is_tagged_int, untag_int}
use patch_seq.Value.{Value, int}
use patch_seq.Machine.{Heap, Machine, ok}
use patch_seq.Machine.Owns.{decode}
use patch_seq.Machine.Samples.{
  unshared, greeting, shared_string, three, three-Represents, four-Represents, two_words,
  two_words-Represents,
}
use patch_seq.Stack.InPlace.{peek_heap_mut-write_box}
use patch_seq.Machine.Arc.{write_box}
use patch_seq.Stack.{peek_heap_mut, pick_op, roll_op}
use patch_seq.Stack.Represents.{Represents, Does}
use patch_seq.Stack.Sequences.{call_all, shuffled_all, call_all_lem, swaps, tucks, rots, drops}
use patch_seq.Stack.ByIndex.{pick_op_lem}
use patch_seq.Stack.ByIndex.Roll.{roll_op_lem, roll_one_below_base}

-- The two words for the string, without the words above them.
strings-Represents : Represents unshared (shared_string 0) 5 (greeting ∷ greeting ∷ [])
strings-Represents = record {
  counted = λ a na. ground (arith, (three-Represents 0).counted a na);
  positive = (three-Represents 0).positive;
  decoded = (three-Represents 0).decoded.1;
}

one_and_two-Represents : Represents unshared (two_words 5 3) 4 (int 1 ∷ int 2 ∷ [])
unfolding decode is_inline is_tagged_int untag_int
one_and_two-Represents = two_words-Represents 5 3 (int 2) (int 1) refl refl refl refl

call_all_lem_example :
    Does
      (call_all (swaps ∷ tucks ∷ rots ∷ drops ∷ []))
      unshared
      (shared_string 0)
      5
      three
      (greeting ∷ int 2 ∷ greeting ∷ [])
unfolding shuffled_all
call_all_lem_example =
    call_all_lem unshared (shared_string 0) 5 (swaps ∷ tucks ∷ rots ∷ drops ∷ []) three
      (greeting ∷ int 2 ∷ greeting ∷ []) refl (three-Represents 0)

pick_op_lem_example : Does pick_op unshared (shared_string 1) 5 (int 1 ∷ three) (greeting ∷ three)
pick_op_lem_example =
    pick_op_lem unshared (shared_string 1) 5 (int 2 ∷ []) greeting (greeting ∷ []) refl
      (omega arith) (four-Represents 1 (omega arith))

roll_op_lem_example :
    Does roll_op unshared (shared_string 2) 5 (int 2 ∷ three) (greeting ∷ int 2 ∷ greeting ∷ [])
roll_op_lem_example =
    roll_op_lem unshared (shared_string 2) 5 (int 2 ∷ greeting ∷ []) greeting [] refl (omega arith)
      (four-Represents 2 (omega arith))

roll_one_below_base_example :
    (m' : Machine) × (roll_op 6 (two_words 5 3) ≡ ok 5 m')
    × (decode m'.heap (m'.slots 3) ≡ some (int 2))
    × (m'.slots 4 ≡ 0)
    × (m'.error ≡ none)
roll_one_below_base_example =
    roll_one_below_base unshared (two_words 5 3) 4 (int 2) (omega arith) one_and_two-Represents

-- The one word for a string above the Int 2.
abbrev sole_string : Machine
sole_string = record (two_words 5 8) {
  heap = λ a. if a == 8 then some (record { value = greeting; strong = 1 }) else none;
}

sole-Represents : Represents unshared sole_string 4 (greeting ∷ int 2 ∷ [])
unfolding decode is_inline is_tagged_int untag_int
sole-Represents = record {
  counted = λ a na. ground arith;
  positive = λ a c e. ground arith;
  decoded = (refl, (refl, tt));
}

peek_heap_mut-write_box_example :
    (r : Option ℕ) × (peek_heap_mut 6 sole_string ≡ ok r sole_string)
    × ((a : ℕ) (v' : Value)
        → r ≡ some a
        → (h : Heap) × (write_box a v' sole_string ≡ ok tt (record sole_string { heap = h }))
          × Represents unshared (record sole_string { heap = h }) 4 (v' ∷ int 2 ∷ []))
peek_heap_mut-write_box_example =
    peek_heap_mut-write_box unshared sole_string 4 greeting (int 2 ∷ []) sole-Represents
