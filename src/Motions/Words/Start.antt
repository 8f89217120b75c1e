-- ===== src/Motions/Words/Start.antt =====
-- `move_word_backward` of crates/vim-line/src/vim/motions.rs.
use patch_seq.Base.{
  ℕ, ◌-◌, ◌<◌, ◌≤◌, ◌≡◌, refl, sym, ap, ◌∙◌, true, false, List, ◌==◌, ◌||◌, length, arith, min,
  Bool-cases, inl, inr, ◌⊎◌, order-cases,
}
use patch_seq.Motions.{whitespace, class_at, same, backward, move_word_backward}
use patch_seq.Motions.Scan.{Backward, backward_lem, BackwardBefore, backward_before_lem}
use patch_seq.Motions.Words.{StartsWord, same-eq, same-ne, starts_at, inner_at, blank}

-- `r` is the last start of a word before `c`, or the start of the text if there is none.
pub record PreviousWord (text : List ℕ) (c r : ℕ) : Type 0 where
  pub below : r < c
  pub starts : (r ≡ 0) ⊎ StartsWord text r
  pub last : (i : ℕ) → r < i → i < c → ¬ StartsWord text i

module _ (text : List ℕ) (from pos : ℕ) (h : 0 < from)
    (b : Backward (λ i. same (class_at text i) whitespace) (from - 1) pos) where
  blanks : (i : ℕ) → pos < i → i < from → ¬ StartsWord text i
  blanks i p q = blank text i (same-eq _ _ (b.passed i p (omega (arith, q))))

  only_blanks : same (class_at text pos) whitespace ≡ true → PreviousWord text from 0
  only_blanks w = record {
    below = h;
    starts = inl refl;
    last = λ i p q. elim (order-cases 0 pos) [
      | inl up ↦ absurd (cc (w, b.stopped up))
      | inr (inl e) ↦ blanks i (omega (arith, p, e)) q
      | inr (inr neg) ↦ absurd (omega (arith, neg))
    ];
  }

  module _ (r : ℕ) (w : same (class_at text pos) whitespace ≡ false)
      (bb : BackwardBefore (λ i. same (class_at text i) (class_at text pos)) pos r) where
    one_class : (i : ℕ) → r ≤ i → i ≤ pos → class_at text i ≡ class_at text pos
    one_class i p q = elim (order-cases i pos) [
      | inl lt ↦ same-eq _ _ (bb.passed i p lt)
      | inr (inl e) ↦ ap (λ k. class_at text k) e
      | inr (inr gt) ↦ absurd (omega (arith, gt, q))
    ]

    word_start : PreviousWord text from r
    word_start = record {
      below = omega (arith, bb.most, b.most, h);
      starts =
          let k = one_class r (omega arith) bb.most in
          inr (
            starts_at text r (λ e. same-ne _ _ w (sym k ∙ e))
              (λ j e e'. same-ne _ _ (bb.stopped j e) (e' ∙ k)));
      last = λ i p q. elim (order-cases pos i) [
        | inl gt ↦ blanks i gt q
        | inr le ↦ inner_at text i (omega (arith, p)) (λ j e.
            one_class j (omega (arith, p, e)) (omega (arith, e, le))
            ∙ sym (one_class i (omega (arith, p)) (omega (arith, le))))
      ];
    }

-- In a text with more than one byte, from a cursor after the first, `move_word_backward` goes to the
-- last start of a word before the cursor, or to the start of the text if there is none; a cursor past
-- the end counts as on the last byte.
pub move_word_backward-PreviousWord :
    (text : List ℕ) (c : ℕ)
    → 0 < c
    → 1 < length text
    → PreviousWord text (min c (length text - 1)) (move_word_backward c text)
unfolding move_word_backward
move_word_backward-PreviousWord text c h k =
    let from = min c (length text - 1) in
    let pos = backward (λ i. same (class_at text i) whitespace) (from - 1) in
    let up : 0 < from = omega (arith, h, k) in
    let inside : ((length text == 0) || (from == 0)) ≡ false = ground arith in
    let b = backward_lem (λ i. same (class_at text i) whitespace) (from - 1) in
    elim (Bool-cases (same (class_at text pos) whitespace)) [
      | inl w ↦ rw (inside, w) (only_blanks text from pos up b w)
      | inr w ↦
          rw (inside, w)
            (word_start text from pos up b _ w
              (backward_before_lem (λ i. same (class_at text i) (class_at text pos)) pos))
    ]
