-- ===== src/Unify/Run.antt =====
-- The steps that a successful call of `unify_stacks` takes on stack types of flat types, as a
-- relation, for proofs by induction on them.
use Prim.Native.String.{String}
use text.Mathlib.TextEquality.{eq_iff}
use patch_seq.Base.{ℕ, zero, suc, true, false, ◌≡◌, ◌≢◌, refl, sym, ap, Bool-cases, inl, inr, ◌⊎◌}
use patch_seq.Types.{Ty, StackType, var, empty, cons, row_var}
use patch_seq.Unify.{
  Subst, empty_subst, apply_stack, occurs_in_stack, is_row_var, bind_row, unify_stacks, Result, ok,
  err, out_of_fuel, compose, ◌>>=◌,
}
use patch_seq.Unify.Flat.{
  IsFlat, IsFlatStack, TypeStep, agrees, binds_left, binds_right, clashes, Compatible, single,
  unify_types-flat,
}
use patch_seq.Unify.Absorbs.{row_single}
use patch_seq.Unify.General.{single-flat, empty-stack}

-- The steps of a successful call.
pub data Run : StackType → StackType → Subst → Type 0 where
  at_end : {s1 s2 : StackType} → s1 ≡ s2 → Run s1 s2 empty_subst
  row_left :
      {s : StackType} (x : String)
      → occurs_in_stack x s ≡ false
      → IsFlatStack s
      → Run (row_var x) s (row_single x s)
  row_right :
      {s : StackType} (x : String)
      → occurs_in_stack x s ≡ false
      → IsFlatStack s
      → Run s (row_var x) (row_single x s)
  top_agrees :
      {r1 r2 : StackType} {t1 t2 : Ty} {τ : Subst}
      → Compatible t1 t2
      → Run r1 r2 τ
      → Run (cons r1 t1) (cons r2 t2) (compose empty_subst τ)
  top_left :
      {r1 r2 : StackType} {t : Ty} {τ : Subst} (x : String)
      → t ≢ var x
      → IsFlat t
      → Run (apply_stack (single x t) r1) (apply_stack (single x t) r2) τ
      → Run (cons r1 (var x)) (cons r2 t) (compose (single x t) τ)
  top_right :
      {r1 r2 : StackType} {t : Ty} {τ : Subst} (x : String)
      → t ≢ var x
      → IsFlat t
      → Run (apply_stack (single x t) r1) (apply_stack (single x t) r2) τ
      → Run (cons r1 t) (cons r2 (var x)) (compose (single x t) τ)

row_var_of : (x : String) (s : StackType) → is_row_var x s ≡ true → s ≡ row_var x
unfolding is_row_var
row_var_of x (row_var n) h = ap row_var ((eq_iff n x).0 h)
row_var_of x empty h = cc
row_var_of x (cons r t) h = cc

-- How `bind_row` succeeds.
bind_row_cases :
    (x : String) (s : StackType) (σ : Subst)
    → bind_row x s ≡ ok σ
    → ((s ≡ row_var x) × (σ ≡ empty_subst)) ⊎ ((occurs_in_stack x s ≡ false) × (σ ≡ row_single x s))
unfolding bind_row
bind_row_cases x s σ h = elim (Bool-cases (is_row_var x s)) [
  | inl i ↦ let h' = rw i at h in inl (row_var_of x s i, cc)
  | inr i ↦ elim (Bool-cases (occurs_in_stack x s)) [
    | inl o ↦ let h' = rw (i, o) at h in absurd (cc)
    | inr o ↦ let h' = rw (i, o) at h in inr (o, cc)
  ]
]

Run-bind_left :
    (x : String) (s : StackType) (σ : Subst)
    → IsFlatStack s
    → bind_row x s ≡ ok σ
    → Run (row_var x) s σ
Run-bind_left x s σ g h = elim (bind_row_cases x s σ h) [
  | inl (e, p) ↦ rw p (at_end (sym e))
  | inr (o, p) ↦ rw p (row_left x o g)
]

Run-bind_right :
    (x : String) (s : StackType) (σ : Subst)
    → IsFlatStack s
    → bind_row x s ≡ ok σ
    → Run s (row_var x) σ
Run-bind_right x s σ g h = elim (bind_row_cases x s σ h) [
  | inl (e, p) ↦ rw p (at_end e)
  | inr (o, p) ↦ rw p (row_right x o g)
]

>>=-eq-ok :
    (r : Result) (k : Subst → Result) (σ : Subst)
    → (r >>= k) ≡ ok σ
    → (τ : Subst) × (r ≡ ok τ) × (k τ ≡ ok σ)
>>=-eq-ok (ok τ) k σ h = (τ, refl, h)
>>=-eq-ok (err e) k σ h = cc
>>=-eq-ok out_of_fuel k σ h = cc

-- The step on the tops, and the calls that follow it.
module _ (f : ℕ) (r1 r2 : StackType) (t1 t2 : Ty) (g : IsFlatStack (cons r1 t1))
    (h : IsFlatStack (cons r2 t2)) where
  Run-cons :
      (σ τ : Subst) (r : Result)
      → TypeStep t1 t2 r
      → r ≡ ok σ
      → ((s1 s2 : StackType)
          → IsFlatStack s1
          → IsFlatStack s2
          → unify_stacks f s1 s2 ≡ ok τ
          → Run s1 s2 τ)
      → unify_stacks f (apply_stack σ r1) (apply_stack σ r2) ≡ ok τ
      → Run (cons r1 t1) (cons r2 t2) (compose σ τ)
  Run-cons σ τ r (agrees c) e ih run =
      let p : σ ≡ empty_subst = cc in
      rw p (top_agrees c (ih r1 r2 g.0 h.0 (rw (p, empty-stack r1, empty-stack r2) at run)))
  Run-cons σ τ r (binds_left x p ne) e ih run =
      let q : σ ≡ single x t2 = cc in
      rw (q, p)
        (top_left x ne h.1
          (ih _ _ (single-flat x t2 r1 h.1 g.0).0 (single-flat x t2 r2 h.1 h.0).0 (rw q at run)))
  Run-cons σ τ r (binds_right x p ne) e ih run =
      let q : σ ≡ single x t1 = cc in
      rw (q, p)
        (top_right x ne g.1
          (ih _ _ (single-flat x t1 r1 g.1 g.0).0 (single-flat x t1 r2 g.1 h.0).0 (rw q at run)))
  Run-cons σ τ r (clashes _ none_unifies) e ih run = cc

pub Run-unify_stacks :
    (f : ℕ) (s1 s2 : StackType) (σ : Subst)
    → IsFlatStack s1
    → IsFlatStack s2
    → unify_stacks f s1 s2 ≡ ok σ
    → Run s1 s2 σ
unfolding unify_stacks
Run-unify_stacks zero s1 s2 σ g h e = cc
Run-unify_stacks (suc f) (row_var x) s2 σ g h e = Run-bind_left x s2 σ h e
Run-unify_stacks (suc f) s1 (row_var x) σ g h e = Run-bind_right x s1 σ g e
Run-unify_stacks (suc f) empty empty σ g h e = let p : σ ≡ empty_subst = cc in rw p (at_end refl)
Run-unify_stacks (suc f) empty (cons r2 t2) σ g h e = cc
Run-unify_stacks (suc f) (cons r1 t1) empty σ g h e = cc
Run-unify_stacks (suc zero) (cons r1 t1) (cons r2 t2) σ g h e = cc
Run-unify_stacks (suc (suc f)) (cons r1 t1) (cons r2 t2) σ g h e =
    let (α, top, rest) = >>=-eq-ok _ _ σ e in
    let (β, run, last) = >>=-eq-ok _ _ σ rest in
    let p : compose α β ≡ σ = cc in
    rw (← p) (
      Run-cons (suc f) r1 r2 t1 t2 g h α β _ (unify_types-flat f t1 t2 g.1 h.1) top
        (λ u v k l. Run-unify_stacks (suc f) u v β k l) run)
