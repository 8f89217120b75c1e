-- ===== src/Motions/Chars.antt =====
-- `move_left` and `move_right` of crates/vim-line/src/vim/motions.rs.
use patch_seq.Base.{
  ℕ, ◌+◌, ◌-◌, ◌<◌, ◌≤◌, ◌≡◌, refl, true, false, not, Option, none, List, ltb, length, arith, subst,
  inl, inr, not-true, not-false, order-cases,
}
use patch_seq.Motions.{byte, slice, is_char_boundary, move_left, move_right}
use patch_seq.Motions.Scan.{Forward, forward_lem, Backward, backward_lem}

start_is_boundary : (text : List ℕ) → is_char_boundary text 0 ≡ true
unfolding is_char_boundary
start_is_boundary text = refl

end_is_boundary : (text : List ℕ) → is_char_boundary text (length text) ≡ true
unfolding is_char_boundary
end_is_boundary text = ground arith

-- A character starts at a byte below 128.
pub ascii_is_boundary :
    (text : List ℕ) (i : ℕ) → i < length text → byte text i < 128 → is_char_boundary text i ≡ true
unfolding is_char_boundary
ascii_is_boundary text i h b = ground arith

pub slice_lem :
    {A : Type 0} (text : List ℕ) (i : ℕ) (o : Option A)
    → is_char_boundary text i ≡ true
    → slice text i o ≡ o
unfolding slice
slice_lem text i o e = rw e refl

pub slice_panics :
    {A : Type 0} (text : List ℕ) (i : ℕ) (o : Option A)
    → is_char_boundary text i ≡ false
    → slice text i o ≡ none
unfolding slice
slice_panics text i o e = rw e refl

-- The character boundary after `c`: the first one above it.
pub record NextBoundary (text : List ℕ) (c r : ℕ) : Type 0 where
  pub above : c < r
  pub within : r ≤ length text
  pub boundary : is_char_boundary text r ≡ true
  pub first : (i : ℕ) → c < i → i < r → is_char_boundary text i ≡ false

next_of :
    (text : List ℕ) (c r : ℕ)
    → c < length text
    → Forward (λ i. not (is_char_boundary text i)) (length text - (c + 1)) (c + 1) r
    → NextBoundary text c r
next_of text c r h f = record {
  above = omega (arith, f.least);
  within = omega (arith, f.most, h);
  boundary = elim (order-cases r (length text)) [
    | inl below ↦ not-false (is_char_boundary text r) (f.stopped (omega arith))
    | inr (inl e) ↦ rw e (end_is_boundary text)
    | inr (inr above) ↦ absurd (omega (arith, f.most))
  ];
  first = λ i p q. not-true (is_char_boundary text i) (f.passed i (omega arith) q);
}

move_right-NextBoundary :
    (text : List ℕ) (c : ℕ) → c < length text → NextBoundary text c (move_right c text)
unfolding move_right
move_right-NextBoundary text c h =
    let inside : ltb c (length text) ≡ true = ground arith in
    rw inside (next_of text c _ h (forward_lem (λ i. not (is_char_boundary text i)) _ (c + 1)))

-- The character boundary before `c`.
pub record PreviousBoundary (text : List ℕ) (c r : ℕ) : Type 0 where
  pub below : r < c
  pub boundary : is_char_boundary text r ≡ true
  pub last : (i : ℕ) → r < i → i < c → is_char_boundary text i ≡ false

previous_of :
    (text : List ℕ) (c r : ℕ)
    → 0 < c
    → Backward (λ i. not (is_char_boundary text i)) (c - 1) r
    → PreviousBoundary text c r
previous_of text c r h b = record {
  below = omega (arith, b.most, h);
  boundary = elim (order-cases 0 r) [
    | inl pos ↦ not-false (is_char_boundary text r) (b.stopped pos)
    | inr (inl e) ↦ subst (λ i. is_char_boundary text i ≡ true) e (start_is_boundary text)
    | inr (inr above) ↦ absurd (omega arith)
  ];
  last = λ i p q. not-true (is_char_boundary text i) (b.passed i p (omega arith));
}

pub move_left-PreviousBoundary :
    (text : List ℕ) (c : ℕ) → 0 < c → PreviousBoundary text c (move_left c text)
unfolding move_left
move_left-PreviousBoundary text c h =
    let inside : ltb 0 c ≡ true = ground arith in
    rw inside (previous_of text c _ h (backward_lem (λ i. not (is_char_boundary text i)) (c - 1)))

-- Between the two boundaries around a gap there is no other.
adjacent_left :
    (text : List ℕ) (c r l : ℕ)
    → is_char_boundary text c ≡ true
    → NextBoundary text c r
    → PreviousBoundary text r l
    → l ≡ c
adjacent_left text c r l at_c n p = elim (order-cases l c) [
  | inl lt ↦ absurd (cc (p.last c lt n.above))
  | inr (inl e) ↦ e
  | inr (inr gt) ↦ absurd (cc (n.first l gt p.below, p.boundary))
]

adjacent_right :
    (text : List ℕ) (c l r : ℕ)
    → is_char_boundary text c ≡ true
    → PreviousBoundary text c l
    → NextBoundary text l r
    → r ≡ c
adjacent_right text c l r at_c p n = elim (order-cases r c) [
  | inl lt ↦ absurd (cc (p.last r n.above lt, n.boundary))
  | inr (inl e) ↦ e
  | inr (inr gt) ↦ absurd (cc (n.first c p.below gt))
]

-- From a character boundary strictly inside the text `move_right` goes to the next one, from where
-- `move_left` goes back, and `move_left` to the one before, from where `move_right` goes back.
pub left_right_round_trip :
    (text : List ℕ) (c : ℕ)
    → is_char_boundary text c ≡ true
    → 0 < c
    → c < length text
    → NextBoundary text c (move_right c text)
      × (move_left (move_right c text) text ≡ c)
      × PreviousBoundary text c (move_left c text)
      × (move_right (move_left c text) text ≡ c)
left_right_round_trip text c at_c inside_left inside_right =
    let n = move_right-NextBoundary text c inside_right in
    let p = move_left-PreviousBoundary text c inside_left in
    (
      n,
      adjacent_left text c _ _ at_c n
          (move_left-PreviousBoundary text (move_right c text) (omega (arith, n.above))),
      p,
      adjacent_right text c _ _ at_c p
          (move_right-NextBoundary text (move_left c text) (omega (arith, p.below, inside_right))),
    )
