-- ===== src/Motions/Words.antt =====
-- The word motions of crates/vim-line/src/vim/motions.rs: `w` goes to the next start of a word, `b` to
-- the previous one, `e` to the next end. A word is a maximal run of one class that is not whitespace.
pub mod Start
pub mod End
use patch_seq.Base.{
  ℕ, zero, suc, ◌+◌, ◌-◌, ◌<◌, ◌≤◌, ◌≡◌, ◌≢◌, refl, sym, ap, ◌∙◌, Bool, true, false, not, List, ltb,
  leb, ◌==◌, ◌||◌, if◌then◌else◌, length, arith, min, subst, Bool-cases, inl, inr, ◌⊎◌, not-true,
  not-false, order-cases,
}
use patch_seq.Motions.{
  Class, whitespace, class_at, same, forward, backward, backward_before, skip_class,
  move_word_forward, move_word_backward, move_word_end,
}
use patch_seq.Motions.Scan.{
  Forward, forward_lem, Backward, backward_lem, BackwardBefore, backward_before_lem,
}

same_refl : (a : Class) → same a a ≡ true
unfolding same
same_refl a = ground arith

pub same-eq : (a b : Class) → same a b ≡ true → a ≡ b
unfolding same
same-eq a b e = ground arith

pub same-ne : (a b : Class) → same a b ≡ false → a ≢ b
same-ne a b e p = cc (same_refl a, p, e)

-- The byte at `i` starts a word: it is no whitespace, and not of the class of the byte before it.
abbrev pub StartsWord : List ℕ → ℕ → Type 0
StartsWord text zero = class_at text 0 ≢ whitespace
StartsWord text (suc i) =
    (class_at text (suc i) ≢ whitespace) × (class_at text i ≢ class_at text (suc i))

-- The byte at `i` ends a word.
abbrev pub EndsWord : List ℕ → ℕ → Type 0
EndsWord text i =
    (class_at text i ≢ whitespace)
    × ((suc i ≡ length text) ⊎ (class_at text (suc i) ≢ class_at text i))

-- `r` is the first start of a word after `c`, or the end of the text if there is none.
pub record NextWord (text : List ℕ) (c r : ℕ) : Type 0 where
  pub above : c < r
  pub within : r ≤ length text
  pub starts : (r ≡ length text) ⊎ StartsWord text r
  pub first : (i : ℕ) → c < i → i < r → ¬ StartsWord text i

-- A byte of the class of the byte before it starts no word, nor does whitespace.
inner :
    (text : List ℕ) (i : ℕ) → class_at text i ≡ class_at text (suc i) → ¬ StartsWord text (suc i)
inner text i e (_, n) = n e

pub blank : (text : List ℕ) (i : ℕ) → class_at text i ≡ whitespace → ¬ StartsWord text i
blank text zero e n = n e
blank text (suc i) e (n, _) = n e

pub starts_at :
    (text : List ℕ) (r : ℕ)
    → class_at text r ≢ whitespace
    → ((j : ℕ) → suc j ≡ r → class_at text j ≢ class_at text r)
    → StartsWord text r
starts_at text zero n h = n
starts_at text (suc j) n h = (n, h j refl)

pub inner_at :
    (text : List ℕ) (i : ℕ)
    → 0 < i
    → ((j : ℕ) → suc j ≡ i → class_at text j ≡ class_at text i)
    → ¬ StartsWord text i
inner_at text zero pos h = absurd (omega (arith, pos))
inner_at text (suc j) pos h = inner text j (h j refl)

-- The rest of the word at `c`, up to `mid`; none of whitespace.
record WordTail (text : List ℕ) (c mid : ℕ) : Type 0 where
  least : c ≤ mid
  most : mid ≤ length text
  run :
      (i : ℕ)
      → c ≤ i
      → i < mid
      → (class_at text i ≡ class_at text c) × (class_at text c ≢ whitespace)
  above : class_at text c ≢ whitespace → c < mid
  ends : c < mid → mid < length text → class_at text mid ≢ class_at text c

rest_of_word :
    (text : List ℕ) (c : ℕ)
    → c < length text
    → WordTail text c
        (if same (class_at text c) whitespace then c else skip_class text (class_at text c) c)
rest_of_word text c h = elim (Bool-cases (same (class_at text c) whitespace)) [
  | inl w ↦ rw w (record {
    least = omega arith;
    most = omega (arith, h);
    run = λ i p q. absurd (omega (arith, p, q));
    above = λ n. absurd (n (same-eq _ _ w));
    ends = λ p. absurd (omega (arith, p));
  })
  | inr w ↦
      let k = class_at text c in
      let f = forward_lem (λ i. same (class_at text i) k) (length text - c) c in
      let stops : forward (λ i. same (class_at text i) k) (length text - c) c < length text → _ =
        λ q. same-ne _ _ (f.stopped (omega (arith, q, h))) in
      rw w (record {
        least = f.least;
        most = omega (arith, f.most, h);
        run = λ i p q. (same-eq _ _ (f.passed i p q), same-ne _ _ w);
        above = λ n.
            elim (order-cases c (forward (λ i. same (class_at text i) k) (length text - c) c)) [
              | inl lt ↦ lt
              | inr (inl e) ↦ absurd (stops (rw e at h) (ap (λ i. class_at text i) (sym e)))
              | inr (inr gt) ↦ absurd (omega (arith, gt, f.least))
            ];
        ends = λ p q. stops q;
      })
]

module _ (text : List ℕ) (c mid r : ℕ) (h : c < length text) (rest : WordTail text c mid)
    (f : Forward (λ i. same (class_at text i) whitespace) (length text - mid) mid r) where
  stops_at_word : r < length text → class_at text r ≢ whitespace
  stops_at_word q = same-ne _ _ (f.stopped (omega (arith, q, rest.most)))

  moves : c < r
  moves = elim (order-cases c r) [
    | inl lt ↦ lt
    | inr (inl e) ↦
        let solid : class_at text c ≢ whitespace = λ w. stops_at_word (rw e at h) (rw e at w) in
        absurd (omega (arith, rest.above solid, e, f.least))
    | inr (inr gt) ↦ absurd (omega (arith, gt, f.least, rest.least))
  ]

  -- The byte before the end is of another class than the one there.
  breaks : r < length text → (j : ℕ) → suc j ≡ r → class_at text j ≢ class_at text r
  breaks q j e p = elim (order-cases j mid) [
    | inl lt ↦
        let at_mid : mid ≡ r = omega (arith, lt, e, f.least) in
        let (run, _) = rest.run j (omega (arith, e, moves)) lt in
        rest.ends (omega (arith, lt, e, moves)) (rw at_mid q)
          (ap (λ i. class_at text i) at_mid ∙ sym p ∙ run)
    | inr ge ↦
        stops_at_word q (sym p ∙ same-eq _ _ (f.passed j (omega (arith, ge)) (omega (arith, e))))
  ]

  passes : (i : ℕ) → c < i → i < r → ¬ StartsWord text i
  passes i p q = elim (order-cases i mid) [
    | inl lt ↦ inner_at text i (omega (arith, p)) (λ j e.
        (rest.run j (omega (arith, e, p)) (omega (arith, e, lt))).0
        ∙ sym (rest.run i (omega (arith, p)) lt).0)
    | inr ge ↦ blank text i (same-eq _ _ (f.passed i (omega (arith, ge)) q))
  ]

  word_forward_of : NextWord text c r
  word_forward_of = record {
    above = moves;
    within = omega (arith, f.most, rest.most);
    starts = elim (order-cases r (length text)) [
      | inl lt ↦ inr (starts_at text r (stops_at_word lt) (breaks lt))
      | inr (inl e) ↦ inl e
      | inr (inr gt) ↦ absurd (omega (arith, gt, f.most, rest.most))
    ];
    first = passes;
  }

-- From a cursor inside the text `move_word_forward` goes to the first start of a word after it, or to
-- the end of the text if there is none.
pub move_word_forward-NextWord :
    (text : List ℕ) (c : ℕ) → c < length text → NextWord text c (move_word_forward c text)
unfolding move_word_forward
move_word_forward-NextWord text c h =
    let inside : ltb c (length text) ≡ true = ground arith in
    rw inside (
      word_forward_of text c _ _ h (rest_of_word text c h)
        (forward_lem (λ i. same (class_at text i) whitespace) _ _))
