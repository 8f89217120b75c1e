-- ===== src/Stack/Ends.antt =====
-- The operations that move values between the stack and the runtime: `push`, `pop`, `pop_two`,
-- `peek`, and `2dup`, which pushes twice.
use patch_seq.Base.{ℕ, suc, ◌+◌, refl, List, ◌∷◌, arith, length}
use patch_seq.Value.{Value}
use patch_seq.Machine.{Machine, ◌>>=◌, update}
use patch_seq.Machine.Arc.{Allocator}
use patch_seq.Machine.Arc.Laws.{
  HasRoom, stored, clone_stack_value_lem, stack_value_to_value_lem, value_to_stack_value_lem,
}
use patch_seq.Stack.{push, pop, pop_two, peek, two_dup}
use patch_seq.Stack.Represents.{
  view, Represents, Gives, Does, sub_one, sub_two, add_one, view_write1, view_write2, Frame-trans,
}

module _ (ext : ℕ → ℕ) (m : Machine) (b : ℕ) where
  -- `push` of a value for whose box the allocator has room puts it on top of the represented
  -- stack, an Int in its 63-bit form: it succeeds, keeps every reference count exact, and touches
  -- no slot below the base.
  pub push_lem :
      (alloc : Allocator) (v : Value) (s : List Value)
      → HasRoom alloc m.heap v
      → Represents ext m b s
      → Does (λ sp. push alloc sp v) ext m b s (stored v ∷ s)
  unfolding push
  push_lem alloc v s room r =
      let n = length s in
      let (w, h, run, owns) = value_to_stack_value_lem ext m (view m.slots b n) s alloc v room r in
      (
        record m { slots = update m.slots (b + n) w; heap = h },
        rw (run, add_one) refl,
        rw (view_write1 m.slots b n w) owns,
        record { below = λ p q. ground arith; base = refl; error = refl },
      )

  -- `pop` on a stack that represents at least one value returns the top value and the stack
  -- without it: it succeeds, keeps every reference count exact, and touches no slot below the
  -- base.
  pub pop_lem :
      (v : Value) (s : List Value)
      → Represents ext m b (v ∷ s)
      → Gives pop (λ sp. (sp, v)) ext m b (v ∷ s) s
  unfolding pop
  pop_lem v s r =
      let n = length s in
      let x = m.slots (b + n) in
      let (h, run, owns) = stack_value_to_value_lem ext m (view m.slots b n) s x v r in
      (
        record m { heap = h },
        rw (sub_one, run) refl,
        owns,
        record { below = λ p q. refl; base = refl; error = refl },
      )

  -- `peek` on a stack that represents at least one value returns the top value and leaves the
  -- represented stack and every reference count as they are.
  pub peek_lem :
      (v : Value) (s : List Value)
      → Represents ext m b (v ∷ s)
      → Gives peek (λ _. v) ext m b (v ∷ s) (v ∷ s)
  unfolding peek
  peek_lem v s r =
      let x = m.slots (b + length s) in
      let (h, run, owns) = clone_stack_value_lem ext m _ _ x v r.decoded.0 r in
      let (h', run', owns') = stack_value_to_value_lem ext (record m { heap = h }) _ _ x v owns in
      (
        record m { heap = h' },
        rw (sub_one, run, run') refl,
        owns',
        record { below = λ p q. refl; base = refl; error = refl },
      )

  -- On a stack that represents at least two values, `two_dup` copies the two on top in their
  -- order: it succeeds, keeps every reference count exact, and touches no slot below the base.
  pub two_dup_lem :
      (u v : Value) (s : List Value)
      → Represents ext m b (u ∷ v ∷ s)
      → Does two_dup ext m b (u ∷ v ∷ s) (u ∷ v ∷ u ∷ v ∷ s)
  unfolding two_dup
  two_dup_lem u v s r =
      let n = length s in
      let x = m.slots (b + suc n) in
      let y = m.slots (b + n) in
      let (h, run, owns) = clone_stack_value_lem ext m _ _ y v r.decoded.1.0 r in
      let (h', run', owns') =
        clone_stack_value_lem ext (record m { heap = h }) _ _ x u owns.decoded.1.0 owns in
      (
        record m {
          slots = update (update m.slots (b + suc (suc n)) y) (b + suc (suc (suc n))) x;
          heap = h';
        },
        rw (sub_two, sub_one, run, run', add_one b (suc (suc n)), add_one b (suc (suc (suc n))))
            refl,
        rw (view_write2 m.slots b (suc (suc n)) x y) owns',
        record { below = λ p q. ground arith; base = refl; error = refl },
      )

-- `pop_two` on a stack that represents at least two values returns them, the lower one first, and
-- the stack without them, with every reference count exact.
pub pop_two_lem :
    (ext : ℕ → ℕ) (m : Machine) (b : ℕ) (y x : Value) (s : List Value)
    → Represents ext m b (y ∷ x ∷ s)
    → Gives pop_two (λ sp. (sp, x, y)) ext m b (y ∷ x ∷ s) s
unfolding pop_two
pop_two_lem ext m b y x s r =
    let (m', run, r', f) = pop_lem ext m b y (x ∷ s) r in
    let (m'', run', r'', f') = pop_lem ext m' b x s r' in
    (m'', rw (run, run') refl, r'', Frame-trans f f')

-- A `pop` after a `push` of a value for whose box the allocator has room gives the value back, an
-- Int in its 63-bit form, and the represented stack is as it was.
pub push-pop :
    (alloc : Allocator) (ext : ℕ → ℕ) (m : Machine) (b : ℕ) (v : Value) (s : List Value)
    → HasRoom alloc m.heap v
    → Represents ext m b s
    → Gives (λ sp. push alloc sp v >>= pop) (λ sp. (sp, stored v)) ext m b s s
push-pop alloc ext m b v s room r =
    let (m', run, r', f) = push_lem ext m b alloc v s room r in
    let (m'', run', r'', f') = pop_lem ext m' b (stored v) s r' in
    (m'', rw run run', r'', Frame-trans f f')
