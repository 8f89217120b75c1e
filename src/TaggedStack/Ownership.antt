-- ===== src/TaggedStack/Ownership.antt =====
-- The reference counts across `clone_stack` and the drop of crates/core/src/tagged_stack.rs.
use patch_seq.Base.{
  ℕ, zero, suc, ◌+◌, ◌*◌, ◌^◌, ◌<◌, ◌≤◌, ◌≡◌, refl, sym, ◌∙◌, true, some, List, [], ◌∷◌, ◌++◌, ltb,
  arith, count, ap, ==_refl,
}
use native.Mathlib.Decide.{ℕ_discrete as dec_eq}
use patch_seq.Value.{Value}
use patch_seq.Machine.{Heap, Machine, ok, update}
use patch_seq.Machine.Owns.{Owns, Decodes}
use patch_seq.Machine.Arc.Laws.{clone_stack_value_lem, drop_stack_value_lem}
use patch_seq.TaggedStack.{
  TaggedStack, Buffers, stack_layout, clone_words, clone_stack, drop_words, drop_stack,
}
use patch_seq.TaggedStack.Words.{words, words_cong}
use patch_seq.TaggedStack.Growth.{IsValid, contents}

Decodes-append :
    (h : Heap) (xs ys : List ℕ) (us vs : List Value)
    → Decodes h xs us
    → Decodes h ys vs
    → Decodes h (xs ++ ys) (us ++ vs)
Decodes-append h [] ys [] vs d e = e
Decodes-append h [] ys (u ∷ us) vs d e = absurd d
Decodes-append h (x ∷ xs) ys [] vs d e = absurd d
Decodes-append h (x ∷ xs) ys (u ∷ us) vs d e = (d.0, Decodes-append h xs ys us vs d.1 e)

-- Counted in the upper list first.
count-append : (ws upper : List ℕ) → (w : ℕ) → count w (ws ++ upper) ≡ count w upper + count w ws
count-append [] upper w = omega arith
count-append (v ∷ ws) upper w = let rest = count-append ws upper w in omega arith

-- The first word of a list may stand behind the others.
count_behind : (a x : ℕ) (xs ys : List ℕ) → count a (x ∷ (xs ++ ys)) ≡ count a (xs ++ (x ∷ ys))
count_behind a x xs ys = omega (arith, count-append xs ys a, count-append xs (x ∷ ys) a)

-- What the loop leaves: the copies hold the same words, and the heap counts each once more.
record Cloned (ext : ℕ → ℕ) (m : Machine) (base new_base : ℕ → ℕ) (i n : ℕ) (ws : List ℕ)
    (us vs : List Value) : Type 0 where
  heap : Heap
  buffer : ℕ → ℕ
  run : clone_words base new_base i n m ≡ ok buffer (record m { heap = heap })
  owns : Owns ext heap (words base i n ++ ws) (us ++ vs)
  still : Decodes heap ws vs
  copied : (k : ℕ) → i ≤ k → k < i + n → buffer k ≡ base k
  kept : (k : ℕ) → k < i → buffer k ≡ new_base k

clone_words_lem :
    (ext : ℕ → ℕ) (m : Machine) (base new_base : ℕ → ℕ) (i n : ℕ) (ws : List ℕ) (us vs : List Value)
    → Owns ext m.heap ws vs
    → ((h : Heap) → Decodes h ws vs → Decodes h (words base i n) us)
    → Cloned ext m base new_base i n ws us vs
unfolding clone_words
clone_words_lem ext m base new_base i zero ws [] vs o sub = record {
  heap = m.heap;
  buffer = new_base;
  run = refl;
  owns = o;
  still = o.decoded;
  copied = λ k a b. absurd (omega arith);
  kept = λ k a. refl;
}
clone_words_lem ext m base new_base i zero ws (u ∷ us) vs o sub = absurd (sub m.heap o.decoded)
clone_words_lem ext m base new_base i (suc n) ws [] vs o sub = absurd (sub m.heap o.decoded)
clone_words_lem ext m base new_base i (suc n) ws (u ∷ us) vs o sub =
    let x = base i in
    let (h, step, o') = clone_stack_value_lem ext m ws vs x u (sub m.heap o.decoded).0 o in
    let r =
      clone_words_lem ext (record m { heap = h }) base (update new_base i x) (i + 1) n (x ∷ ws) us
        (u ∷ vs) o' (λ k d. (sub k d.1).1) in
    record {
      heap = r.heap;
      buffer = r.buffer;
      run = rw step r.run;
      owns = record {
        counted = λ a na.
            r.owns.counted a na
            ∙ ap (λ c. c + ext a) (sym (count_behind a x (words base (i + 1) n) ws));
        positive = r.owns.positive;
        decoded =
            Decodes-append r.heap (words base i (suc n)) ws (u ∷ us) vs (sub r.heap r.still.1)
              r.still.1;
      };
      still = r.still.1;
      copied = λ k a b. elim (dec_eq k i) [
        | yes e ↦ r.kept k (omega arith) ∙ rw (e, ==_refl i) refl
        | no ne ↦ r.copied k (omega arith) (omega arith)
      ];
      kept = λ k a. r.kept k (omega arith) ∙ ground arith;
    }

-- `clone_stack` of a valid stack whose words stand for values, with a buffer from the allocator,
-- returns a valid stack with the same words; the heap counts every reference of both stacks, and
-- each of them holds the values.
pub clone_stack-Owns :
    (buffers : Buffers) (ext : ℕ → ℕ) (m : Machine) (s : TaggedStack) (vs : List Value)
    (new_base : ℕ → ℕ)
    → IsValid s
    → buffers.alloc s.capacity ≡ some new_base
    → Owns ext m.heap (contents s) vs
    → (s' : TaggedStack) × (h : Heap) × (clone_stack buffers s m ≡ ok s' (record m { heap = h }))
      × IsValid s'
      × (contents s' ≡ contents s)
      × Owns ext h (contents s' ++ contents s) (vs ++ vs)
unfolding clone_stack stack_layout
clone_stack-Owns buffers ext m s vs new_base v e o =
    let r = clone_words_lem ext m s.base new_base 0 s.sp (contents s) vs vs o (λ h d. d) in
    let fits : ltb (s.capacity * 8) (2 ^ 63) ≡ true = ground (arith, v.legal) in
    let same : words r.buffer 0 s.sp ≡ words s.base 0 s.sp =
      words_cong s.base r.buffer 0 s.sp (λ k a b. r.copied k a b) in
    (
      record { base = r.buffer; sp = s.sp; capacity = s.capacity },
      r.heap,
      rw (fits, e, r.run) refl,
      record { within = v.within; sized = v.sized; legal = v.legal },
      same,
      rw same r.owns,
    )

drop_words_lem :
    (ext : ℕ → ℕ) (m : Machine) (base : ℕ → ℕ) (i n : ℕ) (vs : List Value)
    → Owns ext m.heap (words base i n) vs
    → (h : Heap) × (drop_words base i n m ≡ ok tt (record m { heap = h })) × Owns ext h [] []
unfolding drop_words
drop_words_lem ext m base i zero [] o = (m.heap, refl, o)
drop_words_lem ext m base i zero (v ∷ vs) o = absurd o.decoded
drop_words_lem ext m base i (suc n) [] o = absurd o.decoded
drop_words_lem ext m base i (suc n) (v ∷ vs) o =
    let (h, run, o') = drop_stack_value_lem ext m (words base (i + 1) n) vs (base i) v o in
    let (h', run', o'') = drop_words_lem ext (record m { heap = h }) base (i + 1) n vs o' in
    (h', rw run run', o'')

-- The drop of a valid stack whose words stand for values succeeds, and the boxes that are left are
-- counted exactly once for each reference from elsewhere: those that the stack alone pointed to are
-- free.
pub drop_stack-Owns :
    (ext : ℕ → ℕ) (m : Machine) (s : TaggedStack) (vs : List Value)
    → IsValid s
    → Owns ext m.heap (contents s) vs
    → (h : Heap) × (drop_stack s m ≡ ok tt (record m { heap = h })) × Owns ext h [] []
unfolding drop_stack stack_layout
drop_stack-Owns ext m s vs v o =
    let (h, run, o') = drop_words_lem ext m s.base 0 s.sp vs o in
    let fits : ltb (s.capacity * 8) (2 ^ 63) ≡ true = ground (arith, v.legal) in
    (h, rw (run, fits) refl, o')
