-- ===== src/Stack/Shuffle.antt =====
-- The operations of crates/core/src/stack.rs with a fixed reach: `patch_seq_dup`, `drop_top`,
-- `patch_seq_swap`, `patch_seq_over`, `patch_seq_rot`, `patch_seq_nip`, `patch_seq_tuck`.
use patch_seq.Base.{ℕ, suc, ◌+◌, refl, List, ◌∷◌, arith, length}
use patch_seq.Value.{Value}
use patch_seq.Machine.{Machine, update}
use patch_seq.Machine.Arc.Laws.{clone_stack_value_lem, drop_stack_value_lem}
use patch_seq.Stack.{dup, drop_top, swap, over, rot, nip, tuck}
use patch_seq.Stack.Represents.{
  view, Represents, Does, sub_one, sub_two, sub_three, add_one, view_write1, view_write2,
  view_write3, Owns-same,
}

module _ (ext : ℕ → ℕ) (m : Machine) (b : ℕ) where
  -- On a stack that represents at least two values, `swap` exchanges the two on top: it succeeds,
  -- keeps every reference count exact, and touches no slot below the base.
  pub swap_lem :
      (u v : Value) (s : List Value)
      → Represents ext m b (u ∷ v ∷ s)
      → Does swap ext m b (u ∷ v ∷ s) (v ∷ u ∷ s)
  unfolding swap
  swap_lem u v s r =
      let n = length s in
      let x = m.slots (b + suc n) in
      let y = m.slots (b + n) in
      (
        record m { slots = update (update m.slots (b + n) x) (b + suc n) y },
        rw (sub_two, sub_one) refl,
        rw (view_write2 m.slots b n y x) (
            Owns-same ext m.heap (x ∷ y ∷ view m.slots b n) (y ∷ x ∷ view m.slots b n) _ (v ∷ u ∷ s)
              r (λ a. omega arith) (r.decoded.1.0, (r.decoded.0, r.decoded.1.1))),
        record { below = λ p h. ground arith; base = refl; error = refl },
      )

  -- On a stack that represents at least three values, `rot` brings the third to the top: it
  -- succeeds, keeps every reference count exact, and touches no slot below the base.
  pub rot_lem :
      (w v u : Value) (s : List Value)
      → Represents ext m b (w ∷ v ∷ u ∷ s)
      → Does rot ext m b (w ∷ v ∷ u ∷ s) (u ∷ w ∷ v ∷ s)
  unfolding rot
  rot_lem w v u s r =
      let n = length s in
      let z = m.slots (b + suc (suc n)) in
      let y = m.slots (b + suc n) in
      let x = m.slots (b + n) in
      (
        record m {
          slots = update (update (update m.slots (b + n) y) (b + suc n) z) (b + suc (suc n)) x;
        },
        rw (sub_three, sub_two, sub_one) refl,
        rw (view_write3 m.slots b n x z y) (
            Owns-same ext m.heap (z ∷ y ∷ x ∷ view m.slots b n) (x ∷ z ∷ y ∷ view m.slots b n) _
              (u ∷ w ∷ v ∷ s) r (λ a. omega arith)
              (r.decoded.1.1.0, (r.decoded.0, (r.decoded.1.0, r.decoded.1.1.1)))),
        record { below = λ p h. ground arith; base = refl; error = refl },
      )

  -- On a stack that represents at least one value, `dup` copies the top value: it succeeds, counts
  -- a box that the two words share once for each, and touches no slot below the base.
  pub dup_lem :
      (v : Value) (s : List Value)
      → Represents ext m b (v ∷ s)
      → Does dup ext m b (v ∷ s) (v ∷ v ∷ s)
  unfolding dup
  dup_lem v s r =
      let n = length s in
      let x = m.slots (b + n) in
      let (h, run, owns) = clone_stack_value_lem ext m _ _ x v r.decoded.0 r in
      (
        record m { slots = update m.slots (b + suc n) x; heap = h },
        rw (sub_one, run, add_one) refl,
        rw (view_write1 m.slots b (suc n) x) owns,
        record { below = λ p q. ground arith; base = refl; error = refl },
      )

  -- On a stack that represents at least two values, `over` copies the second to the top: it
  -- succeeds, keeps every reference count exact, and touches no slot below the base.
  pub over_lem :
      (u v : Value) (s : List Value)
      → Represents ext m b (u ∷ v ∷ s)
      → Does over ext m b (u ∷ v ∷ s) (v ∷ u ∷ v ∷ s)
  unfolding over
  over_lem u v s r =
      let n = length s in
      let x = m.slots (b + n) in
      let (h, run, owns) = clone_stack_value_lem ext m _ _ x v r.decoded.1.0 r in
      (
        record m { slots = update m.slots (b + suc (suc n)) x; heap = h },
        rw (sub_two, run, add_one) refl,
        rw (view_write1 m.slots b (suc (suc n)) x) owns,
        record { below = λ p q. ground arith; base = refl; error = refl },
      )

  -- On a stack that represents at least one value, `drop_top` removes the top value: it succeeds,
  -- gives its reference back, and touches no slot below the base.
  pub drop_top_lem :
      (v : Value) (s : List Value) → Represents ext m b (v ∷ s) → Does drop_top ext m b (v ∷ s) s
  unfolding drop_top
  drop_top_lem v s r =
      let n = length s in
      let x = m.slots (b + n) in
      let (h, run, owns) = drop_stack_value_lem ext m (view m.slots b n) s x v r in
      (
        record m { heap = h },
        rw (sub_one, run) refl,
        owns,
        record { below = λ p q. refl; base = refl; error = refl },
      )

  -- On a stack that represents at least two values, `nip` removes the second: it succeeds, gives
  -- its reference back, and touches no slot below the base.
  pub nip_lem :
      (u v : Value) (s : List Value)
      → Represents ext m b (u ∷ v ∷ s)
      → Does nip ext m b (u ∷ v ∷ s) (u ∷ s)
  unfolding nip
  nip_lem u v s r =
      let n = length s in
      let x = m.slots (b + suc n) in
      let y = m.slots (b + n) in
      let swapped =
        Owns-same ext m.heap (x ∷ y ∷ view m.slots b n) (y ∷ x ∷ view m.slots b n) _ (v ∷ u ∷ s) r
          (λ a. omega arith) (r.decoded.1.0, (r.decoded.0, r.decoded.1.1)) in
      let (h, run, owns) = drop_stack_value_lem ext m (x ∷ view m.slots b n) (u ∷ s) y v swapped in
      (
        record m { slots = update m.slots (b + n) x; heap = h },
        rw (sub_two, sub_one, run) refl,
        rw (view_write1 m.slots b n x) owns,
        record { below = λ p q. ground arith; base = refl; error = refl },
      )

  -- On a stack that represents at least two values, `tuck` copies the top value below the second:
  -- it succeeds, keeps every reference count exact, and touches no slot below the base.
  pub tuck_lem :
      (u v : Value) (s : List Value)
      → Represents ext m b (u ∷ v ∷ s)
      → Does tuck ext m b (u ∷ v ∷ s) (u ∷ v ∷ u ∷ s)
  unfolding tuck
  tuck_lem u v s r =
      let n = length s in
      let x = m.slots (b + suc n) in
      let y = m.slots (b + n) in
      let swapped =
        Owns-same ext m.heap (x ∷ y ∷ view m.slots b n) (y ∷ x ∷ view m.slots b n) _ (v ∷ u ∷ s) r
          (λ a. omega arith) (r.decoded.1.0, (r.decoded.0, r.decoded.1.1)) in
      let (h, run, owns) = clone_stack_value_lem ext m _ _ x u r.decoded.0 swapped in
      (
        record m {
          slots = update (update (update m.slots (b + n) x) (b + suc n) y) (b + suc (suc n)) x;
          heap = h;
        },
        rw (sub_two, sub_one, run, add_one) refl,
        rw (view_write3 m.slots b n x y x) owns,
        record { below = λ p q. ground arith; base = refl; error = refl },
      )
