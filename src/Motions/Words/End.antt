-- ===== src/Motions/Words/End.antt =====
-- `move_word_end` of crates/vim-line/src/vim/motions.rs.
use patch_seq.Base.{
  ℕ, suc, ◌+◌, ◌-◌, ◌<◌, ◌≤◌, ◌≡◌, ◌≢◌, refl, sym, ap, ◌∙◌, false, List, leb, length, arith,
  Bool-cases, inl, inr, ◌⊎◌, order-cases,
}
use patch_seq.Motions.{whitespace, class_at, same, move_word_end, skip_class}
use patch_seq.Motions.Scan.{Forward, forward_lem}
use patch_seq.Motions.Words.{EndsWord, same-eq, same-ne}

-- `r` is the first end of a word after `c`, or the end of the text if there is none.
pub record NextEnd (text : List ℕ) (c r : ℕ) : Type 0 where
  pub above : c < r
  pub within : r ≤ length text
  pub ends : (r ≡ length text) ⊎ EndsWord text r
  pub first : (i : ℕ) → c < i → i < r → ¬ EndsWord text i

suc_plus : (r : ℕ) → r + 1 ≡ suc r
suc_plus r = omega arith

module _ (text : List ℕ) (c pos : ℕ) (h : c < length text)
    (f : Forward (λ i. same (class_at text i) whitespace) (length text - (c + 1)) (c + 1) pos) where
  blank_before : (i : ℕ) → c < i → i < pos → ¬ EndsWord text i
  blank_before i p q (n, _) = n (same-eq _ _ (f.passed i (omega (arith, p)) q))

  no_word : length text ≤ pos → NextEnd text c (length text)
  no_word out = record {
    above = h;
    within = omega arith;
    ends = inl refl;
    first = λ i p q. blank_before i p (omega (arith, q, out));
  }

  module _ (r : ℕ) (inside : pos < length text)
      (g : Forward
        (λ i. same (class_at text (i + 1)) (class_at text pos))
        (length text - 1 - pos)
        pos
        r) where
    one_class : (i : ℕ) → pos ≤ i → i ≤ r → class_at text i ≡ class_at text pos
    one_class i p q = elim (order-cases pos i) [
      | inl lt ↦
          let e : i - 1 + 1 ≡ i = omega (arith, lt) in
          rw e at (same-eq _ _ (g.passed (i - 1) (omega (arith, lt)) (omega (arith, q, lt))))
      | inr le ↦ ap (λ k. class_at text k) (omega (arith, le, p))
    ]

    solid : class_at text r ≢ whitespace
    solid e =
        same-ne _ _ (f.stopped (omega (arith, inside, h)))
          (sym (one_class r g.least (omega arith)) ∙ e)

    goes_on : (i : ℕ) → pos ≤ i → i < r → ¬ EndsWord text i
    goes_on i p q (_, inl e) = absurd (omega (arith, e, q, g.most, inside))
    goes_on i p q (_, inr n) =
        n (one_class (suc i) (omega (arith, p)) q ∙ sym (one_class i p (omega (arith, q))))

    at_end : NextEnd text c r
    at_end = record {
      above = omega (arith, f.least, g.least);
      within = omega (arith, g.most, inside);
      ends = elim (order-cases (suc r) (length text)) [
        | inl lt ↦ inr (
          solid,
          inr (λ e.
              same-ne _ _ (g.stopped (omega (arith, lt, g.least)))
                (rw (suc_plus r) (e ∙ one_class r g.least (omega arith)))),
        )
        | inr (inl e) ↦ inr (solid, inl e)
        | inr (inr gt) ↦ absurd (omega (arith, gt, g.most, inside))
      ];
      first = λ i p q. elim (order-cases i pos) [
        | inl lt ↦ blank_before i p lt
        | inr ge ↦ goes_on i (omega (arith, ge)) q
      ];
    }

-- From a cursor inside the text `move_word_end` goes to the first end of a word after it, or to the
-- end of the text if there is none.
pub move_word_end-NextEnd :
    (text : List ℕ) (c : ℕ) → c < length text → NextEnd text c (move_word_end c text)
unfolding move_word_end
move_word_end-NextEnd text c h =
    let pos = skip_class text whitespace (c + 1) in
    let f = forward_lem (λ i. same (class_at text i) whitespace) (length text - (c + 1)) (c + 1) in
    let before_end : leb (length text) c ≡ false = ground arith in
    elim (Bool-cases (leb (length text) pos)) [
      | inl out ↦ rw (before_end, out) (no_word text c pos h f (ground arith))
      | inr ins ↦
          rw (before_end, ins)
            (at_end text c pos h f _ (ground arith)
              (forward_lem (λ i. same (class_at text (i + 1)) (class_at text pos)) _ pos))
    ]
