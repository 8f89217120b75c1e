-- ===== src/Variant/Room.antt =====
-- Room in the heap for one more box, after values have been popped.
use patch_seq.Base.{
  ℕ, ◌-◌, ◌≡◌, Option, none, some, ◌==◌, Bool-cases, Option-cases, inl, inr, subst, ==_ne,
}
use native.Mathlib.Decide.{ℕ_discrete as dec_eq}
use patch_seq.Word.{is_tagged_int, tag_false, tag_true}
use patch_seq.Value.{Value}
use patch_seq.Machine.{
  Cell, Heap, Machine, ok, Outcome, undefined, panicked, out_of_memory, update, and_then,
}
use patch_seq.Machine.Arc.{Allocator, stack_value_to_value, arc_unwrap, released}
use patch_seq.Machine.Arc.Laws.{HasRoom}
use patch_seq.Stack.{pop}

-- The second heap has no box that the first has not.
abbrev pub Shrinks : Heap → Heap → Type 0
Shrinks h h' = (a : ℕ) → h a ≡ none → h' a ≡ none

-- There is room for the value now, and after boxes have been freed.
abbrev pub Room : Allocator → Heap → Value → Type 0
Room alloc h v = (h' : Heap) → Shrinks h h' → HasRoom alloc h' v

-- The heap of a successful outcome has shrunk.
abbrev pub Shrunk : {A : Type 0} → Heap → Outcome A → Type 0
Shrunk h (ok a m) = Shrinks h m.heap
Shrunk h r = Unit

Shrinks-update :
    (h : Heap) (w : ℕ) (c : Cell) (k : Option Cell) → h w ≡ some c → Shrinks h (update h w k)
Shrinks-update h w c k e a n = elim (dec_eq a w) [
  | yes p ↦ cc (rw p at n, e)
  | no ne ↦ rw (==_ne a w ne) n
]

unwrap-Shrunk : (w : ℕ) (m : Machine) → Shrunk m.heap (arc_unwrap w m)
unfolding arc_unwrap
unwrap-Shrunk w m = elim (Option-cases (m.heap w)) [
  | inl e ↦ rw (e, arc_unwrap) tt
  | inr (c, e) ↦ rw (e, arc_unwrap) (Shrinks-update m.heap w c (released c) e)
]

to_value-Shrunk : (w : ℕ) (m : Machine) → Shrunk m.heap (stack_value_to_value w m)
unfolding stack_value_to_value
to_value-Shrunk w m = elim (Bool-cases (is_tagged_int w)) [
  | inl t ↦ rw t (λ a n. n)
  | inr t ↦ elim (Bool-cases (w == tag_false)) [
    | inl f ↦ rw (t, f) (λ a n. n)
    | inr f ↦ elim (Bool-cases (w == tag_true)) [
      | inl g ↦ rw (t, f, g) (λ a n. n)
      | inr g ↦ rw (t, f, g) (unwrap-Shrunk w m)
    ]
  ]
]

Shrunk-then :
    {A B : Type 0} (h : Heap) (r : Outcome A) (k : A → B)
    → Shrunk h r
    → Shrunk h (and_then r (λ a. ok (k a)))
Shrunk-then h (ok a m) k s = s
Shrunk-then h panicked k s = tt
Shrunk-then h undefined k s = tt
Shrunk-then h out_of_memory k s = tt

-- What a `pop` leaves in the heap was there before.
pub pop-Shrinks :
    (sp : ℕ) (m m' : Machine) (x : ℕ × Value) → pop sp m ≡ ok x m' → Shrinks m.heap m'.heap
unfolding pop
pop-Shrinks sp m m' x e =
    subst (λ (r : Outcome (ℕ × Value)). Shrunk m.heap r) e
      (Shrunk-then m.heap (stack_value_to_value (m.slots (sp - 1)) m) (λ v. (sp - 1, v))
        (to_value-Shrunk (m.slots (sp - 1)) m))

pub Shrinks-trans : {h h' k : Heap} → Shrinks h h' → Shrinks h' k → Shrinks h k
Shrinks-trans s t a n = t a (s a n)
