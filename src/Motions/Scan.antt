-- ===== src/Motions/Scan.antt =====
-- Where the loops of the motions stop, and what they pass.
use patch_seq.Base.{
  ℕ, zero, suc, ◌+◌, ◌<◌, ◌≤◌, ◌≡◌, Bool, true, false, arith, Bool-cases, inl, inr,
}
use native.Mathlib.Decide.{ℕ_discrete as dec_eq}
use patch_seq.Motions.{forward, backward, backward_before}

-- `forward` stops at the first position that fails the test, or after `n`.
pub record Forward (test : ℕ → Bool) (n pos r : ℕ) : Type 0 where
  pub least : pos ≤ r
  pub most : r ≤ pos + n
  pub passed : (i : ℕ) → pos ≤ i → i < r → test i ≡ true
  pub stopped : r < pos + n → test r ≡ false

pub forward_lem : (test : ℕ → Bool) (n pos : ℕ) → Forward test n pos (forward test n pos)
unfolding forward
forward_lem test zero pos = record {
  least = omega arith;
  most = omega arith;
  passed = λ i p q. absurd (omega arith);
  stopped = λ p. absurd (omega arith);
}
forward_lem test (suc n) pos = elim (Bool-cases (test pos)) [
  | inr f ↦ rw f (record {
    least = omega arith;
    most = omega arith;
    passed = λ i p q. absurd (omega arith);
    stopped = λ p. f;
  })
  | inl t ↦
      let rest = forward_lem test n (suc pos) in
      rw t (record {
        least = omega (arith, rest.least);
        most = omega (arith, rest.most);
        passed = λ i p q. elim (dec_eq pos i) [
          | yes e ↦ rw e at t
          | no ne ↦ rest.passed i (omega arith) q
        ];
        stopped = λ p. rest.stopped (omega arith);
      })
]

-- `backward` stops at the last position down from `pos` that fails the test, or at 0.
pub record Backward (test : ℕ → Bool) (pos r : ℕ) : Type 0 where
  pub most : r ≤ pos
  pub passed : (i : ℕ) → r < i → i ≤ pos → test i ≡ true
  pub stopped : 0 < r → test r ≡ false

pub backward_lem : (test : ℕ → Bool) (pos : ℕ) → Backward test pos (backward test pos)
unfolding backward
backward_lem test zero = record {
  most = omega arith;
  passed = λ i p q. absurd (omega arith);
  stopped = λ p. absurd (omega arith);
}
backward_lem test (suc n) = elim (Bool-cases (test (suc n))) [
  | inr f ↦
      rw f (record { most = omega arith; passed = λ i p q. absurd (omega arith); stopped = λ p. f })
  | inl t ↦
      let rest = backward_lem test n in
      rw t (record {
        most = omega (arith, rest.most);
        passed = λ i p q. elim (dec_eq (suc n) i) [
          | yes e ↦ rw e at t
          | no ne ↦ rest.passed i p (omega arith)
        ];
        stopped = rest.stopped;
      })
]

-- `backward_before` stops after the last position below `pos` that fails the test, or at 0.
pub record BackwardBefore (test : ℕ → Bool) (pos r : ℕ) : Type 0 where
  pub most : r ≤ pos
  pub passed : (i : ℕ) → r ≤ i → i < pos → test i ≡ true
  pub stopped : (i : ℕ) → suc i ≡ r → test i ≡ false

pub backward_before_lem :
    (test : ℕ → Bool) (pos : ℕ) → BackwardBefore test pos (backward_before test pos)
unfolding backward_before
backward_before_lem test zero = record {
  most = omega arith;
  passed = λ i p q. absurd (omega arith);
  stopped = λ i p. absurd (omega arith);
}
backward_before_lem test (suc n) = elim (Bool-cases (test n)) [
  | inr f ↦ rw f (record {
    most = omega arith;
    passed = λ i p q. absurd (omega arith);
    stopped = λ i p. let e : i ≡ n = omega (arith, p) in rw e f;
  })
  | inl t ↦
      let rest = backward_before_lem test n in
      rw t (record {
        most = omega (arith, rest.most);
        passed = λ i p q. elim (dec_eq n i) [
          | yes e ↦ rw e at t
          | no ne ↦ rest.passed i p (omega arith)
        ];
        stopped = rest.stopped;
      })
]
