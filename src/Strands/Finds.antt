-- ===== src/Strands/Finds.antt =====
-- `unregister` of crates/runtime/src/scheduler/registry.rs finds a registered strand, whatever the
-- other threads have done.
use patch_seq.Base.{
  ℕ, zero, suc, ◌+◌, ◌-◌, ◌<◌, ◌≤◌, ◌≡◌, ◌≢◌, refl, sym, ◌∙◌, ap, subst, none, some, arith,
}
use native.Mathlib.Decide.{ℕ_discrete as dec_eq}
use patch_seq.Machine.{update}
use patch_seq.Strands.{
  Thread, releasing, clearing, Registry, new, goes, Step, start, store, claim, pass, overflow,
  finish, finish_untracked, release, skip, clear, missing, Reachable, at_start, and_step,
}
use patch_seq.Strands.Held.{Holds, IsConsistent, update_same, update_other}
use patch_seq.Strands.Runs.{Reachable-IsConsistent, Reachable-slots}

-- `unregister` of a strand with a slot is not past the slot.
abbrev InTime : Thread → Type 0
InTime (releasing (some q) k) = k ≤ q
InTime thread = Unit

moved-InTime :
    (r : Registry) (u : ℕ) (thread : Thread)
    → InTime thread
    → ((t : ℕ) → InTime (r.threads t))
    → (t : ℕ) → InTime (update r.threads u thread t)
moved-InTime r u thread h a t = elim (dec_eq t u) [
  | yes e ↦ subst InTime (sym (ap (update r.threads u thread) e ∙ update_same r.threads u thread)) h
  | no ne ↦ subst InTime (sym (update_other r.threads u thread t ne)) (a t)
]

step-InTime :
    (capacity : ℕ) (r r' : Registry)
    → IsConsistent capacity r
    → ((t : ℕ) → InTime (r.threads t))
    → Step capacity r r'
    → (t : ℕ) → InTime (r'.threads t)
step-InTime capacity r _ c a (start t time e) = moved-InTime r t _ tt a
step-InTime capacity r _ c a (store t time p e l) = moved-InTime r t _ tt a
step-InTime capacity r _ c a (claim t time p e l f) = moved-InTime r t _ tt a
step-InTime capacity r _ c a (pass t time p e n) = moved-InTime r t _ tt a
step-InTime capacity r _ c a (overflow t time p e l) = moved-InTime r t _ tt a
step-InTime capacity r _ c a (finish t p e) =
    moved-InTime r t (releasing (some p) 0) (omega arith) a
step-InTime capacity r _ c a (finish_untracked t e) = moved-InTime r t (releasing none 0) tt a
step-InTime capacity r _ c a (release t slot p e l f) = moved-InTime r t _ tt a
step-InTime capacity r _ c a (skip t none p e l n) = moved-InTime r t (releasing none (suc p)) tt a
step-InTime capacity r _ c a (skip t (some s) p e l n) =
    moved-InTime r t (releasing (some s) (suc p))
      (let k : p ≤ s = subst InTime e (a t) in
        let at : p ≢ s =
          λ same. n (c.stored t p (subst (λ x. Holds x p) (sym e) (sym same, omega arith))) in
        omega (arith, k, at))
      a
step-InTime capacity r _ c a (clear t p e) = moved-InTime r t _ tt a
step-InTime capacity r _ c a (missing t slot p e l) = moved-InTime r t _ tt a

Reachable-InTime :
    (capacity : ℕ) (r : Registry) → Reachable capacity r → (t : ℕ) → InTime (r.threads t)
unfolding new
Reachable-InTime capacity _ at_start = λ t. tt
Reachable-InTime capacity _ (and_step run s) =
    step-InTime capacity _ _ (Reachable-IsConsistent capacity _ run)
      (Reachable-InTime capacity _ run) s

-- In a reachable registry where `unregister` of a strand that was registered in a slot is in its loop:
-- the slot is ahead of it, within the capacity, and has the id of the strand.
slot_is_ahead :
    (capacity : ℕ) (r : Registry) (t q k : ℕ)
    → Reachable capacity r
    → r.threads t ≡ releasing (some q) k
    → (k ≤ q) × (q < capacity) × (r.strand_id q ≡ suc t)
slot_is_ahead capacity r t q k run e =
    let c = Reachable-IsConsistent capacity r run in
    let l : k ≤ q = subst InTime e (Reachable-InTime capacity r run t) in
    let h : Holds (r.threads t) q = subst (λ x. Holds x q) (sym e) (refl, l) in
    (l, c.within t q h, c.stored t q h)

-- Steps that move the thread alone.
pub data Alone (capacity t : ℕ) : Registry → Registry → Type 0 where
  stay : {r : Registry} → Alone capacity t r r
  move :
      {r r' r'' : Registry}
      → Step capacity r r'
      → ((u : ℕ) → u ≢ t → r'.threads u ≡ r.threads u)
      → Alone capacity t r' r''
      → Alone capacity t r r''

-- The slot is `n` ahead of the loop.
finds_in :
    (capacity : ℕ) (r : Registry) (t q k n : ℕ)
    → Reachable capacity r
    → r.threads t ≡ releasing (some q) k
    → k + n ≡ q
    → (r' : Registry) × Alone capacity t r r' × (r'.threads t ≡ clearing q) × (r'.strand_id q ≡ 0)
finds_in capacity r t q k zero run e d =
    let (l, u, s) = slot_is_ahead capacity r t q k run e in
    let here : k ≡ q = omega (arith, d) in
    (
      record (goes r t (clearing q)) { strand_id = update r.strand_id q 0 },
      move (release t (some q) q (rw here at e) u s) (λ o ne. update_other r.threads t _ o ne) stay,
      update_same r.threads t (clearing q),
      update_same r.strand_id q 0,
    )
finds_in capacity r t q k (suc n) run e d =
    let (l, u, s) = slot_is_ahead capacity r t q k run e in
    let (_, one, _) = Reachable-slots capacity r run in
    let other : r.strand_id k ≢ suc t = λ s'. omega (arith, one t k q s' s, d) in
    let pass_slot = skip t (some q) k e (omega (arith, l, u)) other in
    let (r', alone, at_end, free) =
      finds_in capacity (goes r t (releasing (some q) (suc k))) t q (suc k) n
        (and_step run pass_slot) (update_same r.threads t _) (omega (arith, d)) in
    (r', move pass_slot (λ o ne. update_other r.threads t _ o ne) alone, at_end, free)

-- In a reachable registry where `unregister` of a strand that was registered in a slot is in its loop,
-- anywhere in it, steps of its thread alone find and free the slot.
pub unregister_finds :
    (capacity : ℕ) (r : Registry) (t q k : ℕ)
    → Reachable capacity r
    → r.threads t ≡ releasing (some q) k
    → (r' : Registry) × Alone capacity t r r' × (r'.threads t ≡ clearing q) × (r'.strand_id q ≡ 0)
unregister_finds capacity r t q k run e =
    let (ahead, _, _) = slot_is_ahead capacity r t q k run e in
    finds_in capacity r t q k (q - k) run e (omega (arith, ahead))
