-- ===== src/Strands/Runs.antt =====
-- What holds after any steps of the threads on the registry of
-- crates/runtime/src/scheduler/registry.rs.
use patch_seq.Base.{ℕ, suc, ◌<◌, ◌≡◌, ◌↔◌, sym, ◌∙◌, ap, subst, true, false, none, some, arith}
use native.Mathlib.Decide.{ℕ_discrete as dec_eq}
use patch_seq.Strands.{
  Thread, ready, untracked, storing, claiming, registered, releasing, clearing, unregistered,
  Registry, new, goes, Step, start, store, claim, pass, overflow, finish, finish_untracked, release,
  skip, clear, missing, Reachable, at_start, and_step,
}
use patch_seq.Strands.Held.{
  Holds, IsConsistent, move-IsConsistent, claim-IsConsistent, release-IsConsistent, other_fields,
}

-- A thread between two positions that hold no slot.
idle_move :
    (capacity : ℕ) (r : Registry) (c : IsConsistent capacity r) (u : ℕ) (old thread : Thread)
    → r.threads u ≡ old
    → ((p : ℕ) → ¬ Holds old p)
    → ((p : ℕ) → ¬ Holds thread p)
    → IsConsistent capacity (goes r u thread)
idle_move capacity r c u old thread e a b =
    move-IsConsistent capacity r c u thread (λ p h. absurd (a p (subst (λ x. Holds x p) e h)))
      (λ p h. absurd (b p h))

step-IsConsistent :
    (capacity : ℕ) (r r' : Registry)
    → IsConsistent capacity r
    → Step capacity r r'
    → IsConsistent capacity r'
step-IsConsistent capacity r _ c (start t time e) =
    idle_move capacity r c t ready _ e (λ p h. h) (λ p h. h)
step-IsConsistent capacity r _ c (store t time p e l) =
    other_fields capacity (goes r t (claiming time p)) _ _
      (idle_move capacity r c t (storing time p) _ e (λ q h. h) (λ q h. h))
step-IsConsistent capacity r _ c (claim t time p e l f) =
    claim-IsConsistent capacity r c t p time e l f
step-IsConsistent capacity r _ c (pass t time p e n) =
    idle_move capacity r c t (claiming time p) _ e (λ q h. h) (λ q h. h)
step-IsConsistent capacity r _ c (overflow t time p e l) =
    other_fields capacity (goes r t untracked) _ _
      (idle_move capacity r c t (storing time p) _ e (λ q h. h) (λ q h. h))
step-IsConsistent capacity r _ c (finish t p e) =
    move-IsConsistent capacity r c t (releasing (some p) 0)
      (λ q h. (subst (λ x. Holds x q) e h, omega arith)) (λ q h. subst (λ x. Holds x q) (sym e) h.0)
step-IsConsistent capacity r _ c (finish_untracked t e) =
    idle_move capacity r c t untracked _ e (λ q h. h) (λ q h. h)
step-IsConsistent capacity r _ c (release t slot p e l f) =
    release-IsConsistent capacity r c t p slot e f
step-IsConsistent capacity r _ c (skip t none p e l n) =
    idle_move capacity r c t (releasing none p) _ e (λ q h. h) (λ q h. h)
step-IsConsistent capacity r _ c (skip t (some s) p e l n) =
    move-IsConsistent capacity r c t (releasing (some s) (suc p))
      (λ q h.
        let k : Holds (releasing (some s) p) q = subst (λ x. Holds x q) e h in
        (
          k.0,
          elim (dec_eq p q) [
            | yes at ↦ absurd (n (ap r.strand_id at ∙ c.stored t q h))
            | no off ↦ omega (arith, k.1, off)
          ],
        ))
      (λ q h. subst (λ x. Holds x q) (sym e) (h.0, omega (arith, h.1)))
step-IsConsistent capacity r _ c (clear t p e) =
    other_fields capacity (goes r t (unregistered true)) _ _
      (idle_move capacity r c t (clearing p) _ e (λ q h. h) (λ q h. h))
step-IsConsistent capacity r _ c (missing t none p e l) =
    idle_move capacity r c t (releasing none p) _ e (λ q h. h) (λ q h. h)
step-IsConsistent capacity r _ c (missing t (some s) p e l) =
    move-IsConsistent capacity r c t (unregistered false)
      (λ q h.
        let k : Holds (releasing (some s) p) q = subst (λ x. Holds x q) e h in
        omega (arith, k.1, l, c.within t q h))
      (λ q h. absurd h)

pub Reachable-IsConsistent :
    (capacity : ℕ) (r : Registry) → Reachable capacity r → IsConsistent capacity r
unfolding new
Reachable-IsConsistent capacity _ at_start = record {
  held = λ t p e. absurd (omega (arith, e));
  stored = λ t p h. absurd h;
  within = λ t p h. absurd h;
}
Reachable-IsConsistent capacity _ (and_step run s) =
    step-IsConsistent capacity _ _ (Reachable-IsConsistent capacity _ run) s

-- In every registry that steps of the threads make of a new one: a slot has the id of a strand exactly
-- if that strand is registered in it and `unregister` has not passed it; no strand has two slots, and
-- every slot with a strand is within the capacity.
pub Reachable-slots :
    (capacity : ℕ) (r : Registry)
    → Reachable capacity r
    → ((t p : ℕ) → (r.strand_id p ≡ suc t) ↔ Holds (r.threads t) p)
      × ((t p q : ℕ) → r.strand_id p ≡ suc t → r.strand_id q ≡ suc t → p ≡ q)
      × ((t p : ℕ) → r.strand_id p ≡ suc t → p < capacity)
Reachable-slots capacity r run =
    let c = Reachable-IsConsistent capacity r run in
    (
      λ t p. (c.held t p, c.stored t p),
      λ t p q s s'. one_slot (r.threads t) p q (c.held t p s) (c.held t q s'),
      λ t p s. c.within t p (c.held t p s),
    )
  where
    one_slot : (thread : Thread) (p q : ℕ) → Holds thread p → Holds thread q → p ≡ q
    one_slot (registered s) p q h k = sym h ∙ k
    one_slot (releasing (some s) i) p q h k = sym h.0 ∙ k.0
    one_slot (releasing none i) p q h k = absurd h
    one_slot thread p q h k = absurd h
