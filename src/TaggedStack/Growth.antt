-- ===== src/TaggedStack/Growth.antt =====
-- `push` and `pop_int` of crates/core/src/tagged_stack.rs against the list of words, across the
-- growth of the buffer.
use patch_seq.Base.{
  max, ℕ, suc, ◌+◌, ◌-◌, ◌*◌, ◌%◌, ◌^◌, ◌<◌, ◌≤◌, ◌≡◌, refl, true, false, none, some, List, [], ◌∷◌,
  ◌++◌, ltb, leb, arith, ap, ◌∙◌, Bool-cases, Option-cases, inl, inr, ◌⊎◌,
}
use patch_seq.Word.{u64_mod, tag_int, wrap_i63}
use patch_seq.Word.Laws.{is_tagged_int-tag_int, untag_int-tag_int}
use patch_seq.Machine.{Machine, ok, panicked, out_of_memory, M, pure, ◌>>=◌, update}
use patch_seq.TaggedStack.{
  TaggedStack, Buffers, stack_layout, grow, push, pop, push_int, pop_int, put,
}
use patch_seq.TaggedStack.Words.{words, words_cong, words-update}

-- The stack pointer lies within the buffer, which has a legal size.
pub record IsValid (s : TaggedStack) : Type 0 where
  pub within : s.sp ≤ s.capacity
  pub sized : 0 < s.capacity
  pub legal : s.capacity * 8 < 2 ^ 63

abbrev pub contents : TaggedStack → List ℕ
contents s = words s.base 0 s.sp

-- The stack holds `ws` after the operation, and is valid.
abbrev pub Leaves : M TaggedStack → Machine → List ℕ → Type 0
Leaves op m ws = (s : TaggedStack) × (op m ≡ ok s m) × IsValid s × (contents s ≡ ws)

put-Leaves :
    (s : TaggedStack) (w : ℕ) (m : Machine)
    → IsValid s
    → s.sp < s.capacity
    → Leaves (pure (put w s)) m (contents s ++ (w ∷ []))
put-Leaves s w m v h = (
  put w s,
  refl,
  record { within = omega arith; sized = v.sized; legal = v.legal },
  (let e : s.sp + 1 ≡ suc s.sp = omega arith in rw e (words-update s.base s.sp w)),
)

-- The size after a growth by at least one slot.
doubled : (c : ℕ) → 0 < c → c * 8 < 2 ^ 63 → max ((c * 2) % u64_mod) (c + 1) ≡ c * 2
doubled c h l = ground arith

grow_lem :
    (buffers : Buffers) (s : TaggedStack) (m : Machine) (new_base : ℕ → ℕ)
    → IsValid s
    → s.capacity * 16 < 2 ^ 63
    → buffers.realloc s.base s.capacity (s.capacity * 2) ≡ some new_base
    → grow buffers (s.capacity + 1) s m
      ≡ ok (record s { base = new_base; capacity = s.capacity * 2 }) m
unfolding grow stack_layout
grow_lem buffers s m new_base v l e =
    let a : ltb (s.capacity * 8) (2 ^ 63) ≡ true = ground (arith, v.legal) in
    let b : ltb (s.capacity * 2 * 8) (2 ^ 63) ≡ true = ground arith in
    rw (doubled s.capacity v.sized v.legal, a, b, e) refl

grow-none :
    (buffers : Buffers) (s : TaggedStack) (m : Machine)
    → IsValid s
    → s.capacity * 16 < 2 ^ 63
    → buffers.realloc s.base s.capacity (s.capacity * 2) ≡ none
    → grow buffers (s.capacity + 1) s m ≡ out_of_memory
unfolding grow stack_layout
grow-none buffers s m v l e =
    let a : ltb (s.capacity * 8) (2 ^ 63) ≡ true = ground (arith, v.legal) in
    let b : ltb (s.capacity * 2 * 8) (2 ^ 63) ≡ true = ground arith in
    rw (doubled s.capacity v.sized v.legal, a, b, e) refl

grow-large :
    (buffers : Buffers) (s : TaggedStack) (m : Machine)
    → IsValid s
    → 2 ^ 63 ≤ s.capacity * 16
    → grow buffers (s.capacity + 1) s m ≡ panicked
unfolding grow stack_layout
grow-large buffers s m v l =
    let a : ltb (s.capacity * 8) (2 ^ 63) ≡ true = ground (arith, v.legal) in
    let b : ltb (s.capacity * 2 * 8) (2 ^ 63) ≡ false = ground arith in
    rw (doubled s.capacity v.sized v.legal, a, b) refl

-- The contents of a full stack survive the growth.
grown :
    (buffers : Buffers) (s : TaggedStack) (w : ℕ) (m : Machine) (new_base : ℕ → ℕ)
    → IsValid s
    → s.sp ≡ s.capacity
    → s.capacity * 16 < 2 ^ 63
    → buffers.realloc s.base s.capacity (s.capacity * 2) ≡ some new_base
    → Leaves
        (pure (put w (record s { base = new_base; capacity = s.capacity * 2 })))
        m
        (contents s ++ (w ∷ []))
grown buffers s w m new_base v full l e =
    let s' = record s { base = new_base; capacity = s.capacity * 2 } in
    let kept : contents s' ≡ contents s = words_cong s.base new_base 0 s.sp (λ k _ h.
      buffers.realloc_keeps s.base new_base s.capacity (s.capacity * 2) e k (omega arith)
        (omega arith)) in
    let v' : IsValid s' = record {
      within = omega (arith, v.sized);
      sized = omega (arith, v.sized);
      legal = omega arith;
    } in
    let (s'', run, valid, holds) = put-Leaves s' w m v' (omega (arith, v.sized)) in
    (s'', run, valid, holds ∙ ap (λ ws. ws ++ (w ∷ [])) kept)

-- The two ways in which a growth fails.
abbrev pub Fails : Buffers → TaggedStack → M TaggedStack → Machine → Type 0
Fails buffers s op m =
    ((op m ≡ panicked) × (2 ^ 63 ≤ s.capacity * 16))
    ⊎ ((op m ≡ out_of_memory) × (buffers.realloc s.base s.capacity (s.capacity * 2) ≡ none))

-- `push` on a valid stack leaves a valid stack with the word above the words that were there, also
-- where the buffer has to grow; it fails only on a full stack, by a panic if twice its capacity is
-- 2 ^ 63 bytes or more, and for lack of memory if the allocator finds none.
pub push-Leaves :
    (buffers : Buffers) (s : TaggedStack) (w : ℕ) (m : Machine)
    → IsValid s
    → Leaves (push buffers w s) m (contents s ++ (w ∷ []))
      ⊎ ((s.sp ≡ s.capacity) × Fails buffers s (push buffers w s) m)
unfolding push
push-Leaves buffers s w m v = elim (Bool-cases (leb s.capacity s.sp)) [
  | inr room ↦ inl (rw room (put-Leaves s w m v (ground arith)))
  | inl no_room ↦
      let full : s.sp ≡ s.capacity = ground (arith, v.within) in
      elim (Bool-cases (ltb (s.capacity * 16) (2 ^ 63))) [
        | inr large ↦
            let l : 2 ^ 63 ≤ s.capacity * 16 = ground arith in
            inr (full, inl (rw (no_room, grow-large buffers s m v l) refl, l))
        | inl legal ↦
            let l : s.capacity * 16 < 2 ^ 63 = ground arith in
            elim (Option-cases (buffers.realloc s.base s.capacity (s.capacity * 2))) [
              | inl e ↦ inr (full, inr (rw (no_room, grow-none buffers s m v l e) refl, e))
              | inr (new_base, e) ↦ inl (
                  rw (no_room, grow_lem buffers s m new_base v l e)
                    (grown buffers s w m new_base v full l e))
            ]
      ]
]

-- On a valid stack with a free slot `pop_int` after `push_int` of an `i64` gives it back in its 63-bit
-- form, and the stack is valid and holds what it held.
pub push_int-pop_int :
    (buffers : Buffers) (s : TaggedStack) (i : ℕ) (m : Machine)
    → IsValid s
    → s.sp < s.capacity
    → (s' : TaggedStack) × ((push_int buffers i s >>= pop_int) m ≡ ok (wrap_i63 i, s') m)
      × IsValid s'
      × (contents s' ≡ contents s)
unfolding push_int push pop_int pop
push_int-pop_int buffers s i m v h =
    let room : leb s.capacity s.sp ≡ false = ground arith in
    let some_left : ltb 0 (s.sp + 1) ≡ true = ground arith in
    let back : s.sp + 1 - 1 ≡ s.sp = omega arith in
    let top : update s.base s.sp (tag_int i) s.sp ≡ tag_int i = ground arith in
    (
      record s { base = update s.base s.sp (tag_int i) },
      rw (room, some_left, back, top, is_tagged_int-tag_int, untag_int-tag_int) refl,
      record { within = v.within; sized = v.sized; legal = v.legal },
      words_cong s.base (update s.base s.sp (tag_int i)) 0 s.sp (λ k _ h'. ground arith),
    )
