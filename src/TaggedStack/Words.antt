-- ===== src/TaggedStack/Words.antt =====
-- The words of a buffer as a list, from the bottom up.
use patch_seq.Base.{
  ℕ, zero, suc, ◌+◌, ◌<◌, ◌≤◌, ◌≡◌, refl, List, [], ◌∷◌, ◌++◌, arith, ap, ap₂, ◌∙◌,
}
use patch_seq.Machine.{update}

abbrev pub words : (ℕ → ℕ) → ℕ → ℕ → List ℕ
words base i zero = []
words base i (suc n) = base i ∷ words base (i + 1) n

pub words_cong :
    (base base' : ℕ → ℕ) (i n : ℕ)
    → ((k : ℕ) → i ≤ k → k < i + n → base' k ≡ base k)
    → words base' i n ≡ words base i n
words_cong base base' i zero same = refl
words_cong base base' i (suc n) same =
    ap₂ ◌∷◌ (same i (omega arith) (omega arith))
      (words_cong base base' (i + 1) n (λ k h h'. same k (omega arith) (omega arith)))

pub words-last :
    (base : ℕ → ℕ) (i n : ℕ) → words base i (suc n) ≡ words base i n ++ (base (i + n) ∷ [])
words-last base i zero = let e : i + 0 ≡ i = omega arith in rw e refl
words-last base i (suc n) =
    let e : i + 1 + n ≡ i + suc n = omega arith in
    rw e at (ap (λ ws. base i ∷ ws) (words-last base (i + 1) n))

pub words-update :
    (base : ℕ → ℕ) (n w : ℕ) → words (update base n w) 0 (suc n) ≡ words base 0 n ++ (w ∷ [])
words-update base n w =
    words-last (update base n w) 0 n
    ∙ ap₂ (λ ws x. ws ++ (x ∷ [])) (words_cong base (update base n w) 0 n (λ k h h'. ground arith))
        (ground arith)
