-- ===== src/Stack/Sequences.antt =====
-- Compiled code calls the operations of crates/core/src/stack.rs one after another, each on the stack
-- pointer that the one before returned.
use patch_seq.Base.{ℕ, Option, none, some, List, [], ◌∷◌, ◌≡◌, refl, Option-cases, inl, inr}
use patch_seq.Value.{Value}
use patch_seq.Machine.{Machine, M, pure, ◌>>=◌}
use patch_seq.Stack.{dup, drop_top, swap, over, rot, nip, tuck, two_dup}
use patch_seq.Stack.Represents.{Represents, Does, Frame-trans}
use patch_seq.Stack.Shuffle.{swap_lem, rot_lem, dup_lem, drop_top_lem, nip_lem, tuck_lem, over_lem}
use patch_seq.Stack.Ends.{two_dup_lem}

pub data Shuffle : Type 0 where
  dups drops swaps overs rots nips tucks two_dups : Shuffle

unfoldable pub call : Shuffle → ℕ → M ℕ
call dups = dup
call drops = drop_top
call swaps = swap
call overs = over
call rots = rot
call nips = nip
call tucks = tuck
call two_dups = two_dup

unfoldable pub call_all : List Shuffle → ℕ → M ℕ
unfolding call
call_all [] sp = pure sp
call_all (op ∷ ops) sp = do sp' ← call op sp; call_all ops sp'

-- What each word is to do to a list of values, its top first; none if there are too few.
unfoldable pub shuffled : Shuffle → List Value → Option (List Value)
shuffled dups (v ∷ s) = some (v ∷ v ∷ s)
shuffled drops (v ∷ s) = some s
shuffled swaps (u ∷ v ∷ s) = some (v ∷ u ∷ s)
shuffled overs (u ∷ v ∷ s) = some (v ∷ u ∷ v ∷ s)
shuffled rots (w ∷ v ∷ u ∷ s) = some (u ∷ w ∷ v ∷ s)
shuffled nips (u ∷ v ∷ s) = some (u ∷ s)
shuffled tucks (u ∷ v ∷ s) = some (u ∷ v ∷ u ∷ s)
shuffled two_dups (u ∷ v ∷ s) = some (u ∷ v ∷ u ∷ v ∷ s)
shuffled op s = none

unfoldable pub shuffled_all : List Shuffle → List Value → Option (List Value)
unfolding shuffled
shuffled_all [] vs = some vs
shuffled_all (op ∷ ops) vs = elim (shuffled op vs) [ none ↦ none | some vs' ↦ shuffled_all ops vs' ]

-- If the list of values is given, the operation does that.
abbrev pub DoesTo : (ℕ → M ℕ) → (ℕ → ℕ) → Machine → ℕ → List Value → Option (List Value) → Type 0
DoesTo op ext m b vs none = Unit
DoesTo op ext m b vs (some vs') = Does op ext m b vs vs'

call_lem :
    (ext : ℕ → ℕ) (m : Machine) (b : ℕ) (op : Shuffle) (vs : List Value)
    → Represents ext m b vs
    → DoesTo (call op) ext m b vs (shuffled op vs)
unfolding call shuffled
call_lem ext m b dups (v ∷ s) r = dup_lem ext m b v s r
call_lem ext m b drops (v ∷ s) r = drop_top_lem ext m b v s r
call_lem ext m b swaps (u ∷ v ∷ s) r = swap_lem ext m b u v s r
call_lem ext m b overs (u ∷ v ∷ s) r = over_lem ext m b u v s r
call_lem ext m b rots (w ∷ v ∷ u ∷ s) r = rot_lem ext m b w v u s r
call_lem ext m b nips (u ∷ v ∷ s) r = nip_lem ext m b u v s r
call_lem ext m b tucks (u ∷ v ∷ s) r = tuck_lem ext m b u v s r
call_lem ext m b two_dups (u ∷ v ∷ s) r = two_dup_lem ext m b u v s r
call_lem ext m b op s r = tt

-- A sequence of `dup`, `drop_top`, `swap`, `over`, `rot`, `nip`, `tuck` and `two_dup` on a stack that
-- has values enough for each of them, in turn, leaves the values that they make of it as lists: it
-- succeeds, keeps every reference count exact, and touches no slot below the base.
pub call_all_lem :
    (ext : ℕ → ℕ) (m : Machine) (b : ℕ) (ops : List Shuffle) (vs vs' : List Value)
    → shuffled_all ops vs ≡ some vs'
    → Represents ext m b vs
    → Does (call_all ops) ext m b vs vs'
unfolding call_all shuffled_all
call_all_lem ext m b [] vs vs' e r =
    let same : vs ≡ vs' = cc in
    (m, rw same refl, rw same at r, record { below = λ p h. refl; base = refl; error = refl })
call_all_lem ext m b (op ∷ ops) vs vs' e r = elim (Option-cases (shuffled op vs)) [
  | inl n ↦ absurd (cc (rw (n, shuffled_all) at e))
  | inr (us, k) ↦
      let (m1, run1, r1, f1) : Does (call op) ext m b vs us = rw k at (call_lem ext m b op vs r) in
      let (m2, run2, r2, f2) = call_all_lem ext m1 b ops us vs' (rw (k, shuffled_all) at e) r1 in
      (m2, rw run1 run2, r2, Frame-trans f1 f2)
]
