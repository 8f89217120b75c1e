-- ===== src/Unify/Total.antt =====
-- The rounds that `unify_stacks` of crates/compiler/src/unification.rs takes.
use patch_seq.Base.{ℕ, zero, suc, ◌<◌, ◌≡◌, ◌≢◌, refl, arith, Bool-cases, inl, inr, ◌⊎◌}
use patch_seq.Types.{Ty, StackType, empty, cons, row_var}
use patch_seq.Unify.{
  Subst, apply_stack, occurs_in_stack, is_row_var, bind_row, unify_types, unify_stacks, Result, ok,
  err, out_of_fuel, Error, ◌>>=◌, compose,
}
use patch_seq.Unify.Flat.{
  IsFlat, IsFlatStack, TypeStep, agrees, binds_left, binds_right, clashes, unify_types-flat,
}
use patch_seq.Unify.Absorbs.{height}
use patch_seq.Unify.General.{single-flat, empty-stack}

bind_row-ends : (x : _) (s : StackType) → bind_row x s ≢ out_of_fuel
unfolding bind_row
bind_row-ends x s = elim (Bool-cases (is_row_var x s)) [
  | inl i ↦ rw i (λ e. cc)
  | inr i ↦ elim (Bool-cases (occurs_in_stack x s)) [
    | inl o ↦ rw (i, o) (λ e. cc)
    | inr o ↦ rw (i, o) (λ e. cc)
  ]
]

-- A step on the tops ends, and if it succeeds the rests stay flat and as high.
step-ends :
    (t1 t2 : Ty) (r : Result)
    → IsFlat t1
    → IsFlat t2
    → TypeStep t1 t2 r
    → ((e : Error) × (r ≡ err e))
      ⊎ ((σ : Subst) × (r ≡ ok σ)
          × ((s : StackType)
              → IsFlatStack s
              → IsFlatStack (apply_stack σ s) × (height (apply_stack σ s) ≡ height s)))
step-ends t1 t2 r h k (agrees _) = inr (_, refl, λ s g. rw (empty-stack s) (g, refl))
step-ends t1 t2 r h k (binds_left x _ _) = inr (_, refl, λ s g. single-flat x t2 s k g)
step-ends t1 t2 r h k (binds_right x _ _) = inr (_, refl, λ s g. single-flat x t1 s h g)
step-ends t1 t2 r h k (clashes e _) = inl (e, refl)

-- The calls of the case of two cons cells.
cons-err :
    (f : ℕ) (r1 r2 : StackType) (t1 t2 : Ty) (e : Error)
    → unify_types f t1 t2 ≡ err e
    → unify_stacks (suc f) (cons r1 t1) (cons r2 t2) ≢ out_of_fuel
unfolding unify_stacks
cons-err f r1 r2 t1 t2 e p = rw p (λ q. cc)

ends_with : (r : Result) (k : Subst → Subst) → r ≢ out_of_fuel → (r >>= λ τ. ok (k τ)) ≢ out_of_fuel
ends_with (ok τ) k h e = cc
ends_with (err e) k h p = cc
ends_with out_of_fuel k h e = h refl

cons-ok :
    (f : ℕ) (r1 r2 : StackType) (t1 t2 : Ty) (σ : Subst)
    → unify_types f t1 t2 ≡ ok σ
    → unify_stacks f (apply_stack σ r1) (apply_stack σ r2) ≢ out_of_fuel
    → unify_stacks (suc f) (cons r1 t1) (cons r2 t2) ≢ out_of_fuel
unfolding unify_stacks
cons-ok f r1 r2 t1 t2 σ p h = rw p (ends_with _ (compose σ) h)

-- With more rounds of fuel than the first of two stack types without quotations and closures is
-- high, `unify_stacks` ends, by a substitution or an error.
pub unify_stacks-total :
    (f : ℕ) (s1 s2 : StackType)
    → height s1 < f
    → IsFlatStack s1
    → IsFlatStack s2
    → unify_stacks f s1 s2 ≢ out_of_fuel
unfolding unify_stacks
unify_stacks-total zero s1 s2 lt g h = absurd (omega arith)
unify_stacks-total (suc f) (row_var x) s2 lt g h = bind_row-ends x s2
unify_stacks-total (suc f) s1 (row_var x) lt g h = bind_row-ends x s1
unify_stacks-total (suc f) empty empty lt g h = λ e. cc
unify_stacks-total (suc f) empty (cons r2 t2) lt g h = λ e. cc
unify_stacks-total (suc f) (cons r1 t1) empty lt g h = λ e. cc
unify_stacks-total (suc zero) (cons r1 t1) (cons r2 t2) lt g h = absurd (omega arith)
unify_stacks-total (suc (suc f)) (cons r1 t1) (cons r2 t2) lt g h =
    elim (step-ends t1 t2 _ g.1 h.1 (unify_types-flat f t1 t2 g.1 h.1)) [
      | inl (e, p) ↦ cons-err (suc f) r1 r2 t1 t2 e p
      | inr (σ, p, keeps) ↦ cons-ok (suc f) r1 r2 t1 t2 σ p (
          unify_stacks-total (suc f) (apply_stack σ r1) (apply_stack σ r2)
            (omega (arith, (keeps r1 g.0).1)) (keeps r1 g.0).0 (keeps r2 h.0).0)
    ]
