-- ===== src/Strands/Held.antt =====
-- In the registry of crates/runtime/src/scheduler/registry.rs a slot holds a strand exactly while that
-- strand is registered in it, in every interleaving.
use patch_seq.Base.{
  ℕ, suc, ◌<◌, ◌≤◌, ◌≡◌, ◌≢◌, ◌⊎◌, inl, inr, refl, sym, ◌∙◌, ap, subst, Option, none, some, arith,
  ==_refl, ==_ne,
}
use native.Mathlib.Decide.{ℕ_discrete as dec_eq}
use patch_seq.Machine.{update}
use patch_seq.Strands.{Thread, claiming, registered, releasing, clearing, Registry, goes}

-- The thread's strand is registered in the slot, and `unregister` has not come to it yet.
abbrev pub Holds : Thread → ℕ → Type 0
Holds (registered q) p = q ≡ p
Holds (releasing (some q) k) p = (q ≡ p) × (k ≤ p)
Holds thread p = ⊥

pub update_same : {A : Type 0} (f : ℕ → A) (p : ℕ) (a : A) → update f p a p ≡ a
update_same f p a = rw (==_refl p) refl

pub update_other : {A : Type 0} (f : ℕ → A) (p : ℕ) (a : A) (q : ℕ) → q ≢ p → update f p a q ≡ f q
update_other f p a q ne = rw (==_ne q p ne) refl

-- Slots and threads agree.
pub record IsConsistent (capacity : ℕ) (r : Registry) : Type 0 where
  pub held : (t p : ℕ) → r.strand_id p ≡ suc t → Holds (r.threads t) p
  pub stored : (t p : ℕ) → Holds (r.threads t) p → r.strand_id p ≡ suc t
  pub within : (t p : ℕ) → Holds (r.threads t) p → p < capacity

-- A step that changes the position of thread `u` alone.
module _ (capacity : ℕ) (r : Registry) (c : IsConsistent capacity r) (u : ℕ) (thread : Thread) where
  moved-Holds :
      (t p : ℕ)
      → Holds (update r.threads u thread t) p
      → ((t ≡ u) × Holds thread p) ⊎ ((t ≢ u) × Holds (r.threads t) p)
  moved-Holds t p h = elim (dec_eq t u) [
    | yes e ↦ inl (
      e,
      subst (λ x. Holds x p) (ap (update r.threads u thread) e ∙ update_same r.threads u thread) h,
    )
    | no ne ↦ inr (ne, subst (λ x. Holds x p) (update_other r.threads u thread t ne) h)
  ]

  Holds-moved_other :
      (t p : ℕ) → t ≢ u → Holds (r.threads t) p → Holds (update r.threads u thread t) p
  Holds-moved_other t p ne h = subst (λ x. Holds x p) (sym (update_other r.threads u thread t ne)) h

  Holds-moved_same : (t p : ℕ) → t ≡ u → Holds thread p → Holds (update r.threads u thread t) p
  Holds-moved_same t p e h =
      subst (λ x. Holds x p)
        (sym (ap (update r.threads u thread) e ∙ update_same r.threads u thread)) h

  -- The same slots are held before and after it.
  pub move-IsConsistent :
      ((p : ℕ) → Holds (r.threads u) p → Holds thread p)
      → ((p : ℕ) → Holds thread p → Holds (r.threads u) p)
      → IsConsistent capacity (goes r u thread)
  move-IsConsistent keeps adds = record {
    held = λ t p e. elim (dec_eq t u) [
      | yes same ↦
          Holds-moved_same t p same
            (keeps p (subst (λ x. Holds (r.threads x) p) same (c.held t p e)))
      | no ne ↦ Holds-moved_other t p ne (c.held t p e)
    ];
    stored = λ t p h. c.stored t p (back t p h);
    within = λ t p h. c.within t p (back t p h);
  }
    where
      back : (t p : ℕ) → Holds (update r.threads u thread t) p → Holds (r.threads t) p
      back t p h = elim (moved-Holds t p h) [
        | inl (e, k) ↦ subst (λ x. Holds (r.threads x) p) (sym e) (adds p k)
        | inr (ne, k) ↦ k
      ]

-- Spawn times and the count of the strands without a slot play no part.
pub other_fields :
    (capacity : ℕ) (r : Registry) (times : ℕ → ℕ) (n : ℕ)
    → IsConsistent capacity r
    → IsConsistent capacity (record r { spawn_time = times; overflow_count = n })
other_fields capacity r times n c = record { held = c.held; stored = c.stored; within = c.within }

module _ (capacity : ℕ) (r : Registry) (c : IsConsistent capacity r) (u q : ℕ) where
  pub claim-IsConsistent :
      (time : ℕ)
      → r.threads u ≡ claiming time q
      → q < capacity
      → r.strand_id q ≡ 0
      → IsConsistent capacity
          (record (goes r u (registered q)) { strand_id = update r.strand_id q (suc u) })
  claim-IsConsistent time e inside free = record {
    held = λ t p s. elim (dec_eq p q) [
      | yes at ↦
          let mine : t ≡ u = omega (
            arith,
            sym s ∙ ap (update r.strand_id q (suc u)) at ∙ update_same r.strand_id q (suc u),
          ) in
          Holds-moved_same capacity r c u (registered q) t p mine (sym at)
      | no off ↦
          let s' = sym (update_other r.strand_id q (suc u) p off) ∙ s in
          Holds-moved_other capacity r c u (registered q) t p
            (λ mine. not_mine p (subst (λ x. Holds (r.threads x) p) mine (c.held t p s')))
            (c.held t p s')
    ];
    stored = λ t p h. elim (moved-Holds capacity r c u (registered q) t p h) [
      | inl (mine, at) ↦
          ap (update r.strand_id q (suc u)) (sym at)
          ∙ update_same r.strand_id q (suc u)
          ∙ ap suc (sym mine)
      | inr (other, k) ↦
          let s = c.stored t p k in update_other r.strand_id q (suc u) p (λ at. taken p t at s) ∙ s
    ];
    within = λ t p h. elim (moved-Holds capacity r c u (registered q) t p h) [
      | inl (mine, at) ↦ omega (arith, at, inside)
      | inr (other, k) ↦ c.within t p k
    ];
  }
    where
      not_mine : (p : ℕ) → ¬ Holds (r.threads u) p
      not_mine p h = subst (λ x. Holds x p) e h

      taken : (p t : ℕ) → p ≡ q → ¬ (r.strand_id p ≡ suc t)
      taken p t at s = omega (arith, sym (ap r.strand_id at) ∙ s, free)

  pub release-IsConsistent :
      (slot : Option ℕ)
      → r.threads u ≡ releasing slot q
      → r.strand_id q ≡ suc u
      → IsConsistent capacity
          (record (goes r u (clearing q)) { strand_id = update r.strand_id q 0 })
  release-IsConsistent slot e full = record {
    held = λ t p s. elim (dec_eq p q) [
      | yes at ↦
          absurd
            (omega (arith, sym s ∙ ap (update r.strand_id q 0) at ∙ update_same r.strand_id q 0))
      | no off ↦
          let s' = sym (update_other r.strand_id q 0 p off) ∙ s in
          Holds-moved_other capacity r c u (clearing q) t p
            (λ mine. off (only p (s' ∙ ap suc mine))) (c.held t p s')
    ];
    stored = λ t p h. elim (moved-Holds capacity r c u (clearing q) t p h) [
      | inl (mine, no_slot) ↦ absurd no_slot
      | inr (other, k) ↦
          let s = c.stored t p k in
          update_other r.strand_id q 0 p
            (λ at. other (omega (arith, sym s ∙ ap r.strand_id at ∙ full)))
          ∙ s
    ];
    within = λ t p h. elim (moved-Holds capacity r c u (clearing q) t p h) [
      | inl (mine, no_slot) ↦ absurd no_slot
      | inr (other, k) ↦ c.within t p k
    ];
  }
    where
      both_in :
          (slot : Option ℕ) (a b : ℕ)
          → Holds (releasing slot q) a
          → Holds (releasing slot q) b
          → a ≡ b
      both_in none a b h k = absurd h
      both_in (some s) a b h k = sym h.0 ∙ k.0

      only : (p : ℕ) → r.strand_id p ≡ suc u → p ≡ q
      only p s =
          both_in slot p q (subst (λ x. Holds x p) e (c.held u p s))
            (subst (λ x. Holds x q) e (c.held u q full))
