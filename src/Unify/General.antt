-- ===== src/Unify/General.antt =====
-- `unify_stacks` of crates/compiler/src/unification.rs against any substitution that makes its two
-- sides equal.
use Prim.Native.String.{String}
use text.Mathlib.Text.{◌==◌}
use text.Mathlib.TextEquality.{eq_iff}
use patch_seq.Base.{
  ℕ, zero, suc, ◌+◌, ◌<◌, true, false, ◌≡◌, refl, sym, ◌∙◌, ap, ap₂, arith, Bool-cases, inl, inr,
}
use patch_seq.Types.{Ty, StackType, var, empty, cons, row_var, quotation, closure}
use patch_seq.Unify.{
  Subst, empty_subst, apply_type, apply_stack, occurs_in_stack, is_row_var, bind_row, unify_types,
  unify_stacks, Result, ok, compose,
}
use patch_seq.Unify.Flat.{
  IsFlat, IsFlatStack, TypeStep, agrees, binds_left, binds_right, clashes, single, unify_types-flat,
}
use patch_seq.Unify.Absorbs.{
  height, Absorbs, absorbs_stack, Absorbs-empty, Absorbs-single, Absorbs-row_single,
  Absorbs-compose, row_single,
}

-- A binding of a flat type keeps flat stack types flat, and their height.
single-IsFlat_type :
    (x : String) (t : Ty) → IsFlat t → (u : Ty) → IsFlat u → IsFlat (apply_type (single x t) u)
unfolding apply_type empty_subst
single-IsFlat_type x t h (var k) g = elim (Bool-cases (k == x)) [ inl e ↦ rw e h | inr e ↦ rw e tt ]
single-IsFlat_type x t h (quotation e) g = elim g [ ]
single-IsFlat_type x t h (closure e c) g = elim g [ ]
single-IsFlat_type x t h u g = tt

pub single-flat :
    (x : String) (t : Ty) (s : StackType)
    → IsFlat t
    → IsFlatStack s
    → IsFlatStack (apply_stack (single x t) s) × (height (apply_stack (single x t) s) ≡ height s)
unfolding apply_stack empty_subst
single-flat x t empty h g = (tt, refl)
single-flat x t (row_var r) h g = (tt, refl)
single-flat x t (cons rest top) h g =
    let (flat, e) = single-flat x t rest h g.0 in
    ((flat, single-IsFlat_type x t h top g.1), ap suc e)

pub empty-type : (u : Ty) → apply_type empty_subst u ≡ u
unfolding apply_type empty_subst
empty-type (var k) = refl
empty-type u = refl

pub empty-stack : (s : StackType) → apply_stack empty_subst s ≡ s
unfolding apply_stack empty_subst
empty-stack empty = refl
empty-stack (row_var r) = refl
empty-stack (cons rest top) = ap₂ cons (empty-stack rest) (empty-type top)

-- A row variable inside a stack type puts what stands for it at the same depth below.
height-occurs :
    (θ : Subst) (x : String) (s : StackType)
    → occurs_in_stack x s ≡ true
    → height (apply_stack θ s) ≡ height s + height (apply_stack θ (row_var x))
unfolding occurs_in_stack apply_stack
height-occurs θ x empty h = cc
height-occurs θ x (row_var n) h = rw ((eq_iff n x).0 h) (omega arith)
height-occurs θ x (cons rest top) h = omega (arith, height-occurs θ x rest h)

is_row_var_iff : (x : String) (s : StackType) → is_row_var x s ≡ true → s ≡ row_var x
unfolding is_row_var
is_row_var_iff x (row_var n) h = ap row_var ((eq_iff n x).0 h)
is_row_var_iff x empty h = cc
is_row_var_iff x (cons r t) h = cc

occurs-high :
    (x : String) (s : StackType)
    → is_row_var x s ≡ false
    → occurs_in_stack x s ≡ true
    → 0 < height s
unfolding is_row_var occurs_in_stack
occurs-high x empty h k = cc
occurs-high x (row_var n) h k = cc
occurs-high x (cons r t) h k = omega arith

-- A row variable and a stack type that some `θ` makes equal: `bind_row` returns a unifier of which
-- `θ` is an instance.
bind_row-general :
    (θ : Subst) (x : String) (s : StackType)
    → apply_stack θ (row_var x) ≡ apply_stack θ s
    → (σ : Subst) × (bind_row x s ≡ ok σ) × Absorbs θ σ
unfolding bind_row
bind_row-general θ x s e = elim (Bool-cases (is_row_var x s)) [
  | inl i ↦ (empty_subst, rw i refl, Absorbs-empty θ)
  | inr i ↦ elim (Bool-cases (occurs_in_stack x s)) [
    | inl o ↦ absurd (omega (arith, height-occurs θ x s o, occurs-high x s i o, ap height e))
    | inr o ↦ (row_single x s, rw (i, o) refl, Absorbs-row_single θ x s e)
  ]
]

-- What a step on the tops gives for the rests.
record TopUnified (θ : Subst) (t1 t2 : Ty) (r : Result) : Type 0 where
  σ : Subst
  result : r ≡ ok σ
  instance_of : Absorbs θ σ
  keeps :
      (s : StackType)
      → IsFlatStack s
      → IsFlatStack (apply_stack σ s) × (height (apply_stack σ s) ≡ height s)

top_unified :
    (θ : Subst) (t1 t2 : Ty) (r : Result)
    → IsFlat t1
    → IsFlat t2
    → apply_type θ t1 ≡ apply_type θ t2
    → TypeStep t1 t2 r
    → TopUnified θ t1 t2 r
top_unified θ t1 t2 r h k e (agrees _) = record {
  σ = empty_subst;
  result = refl;
  instance_of = Absorbs-empty θ;
  keeps = λ s g. rw (empty-stack s) (g, refl);
}
top_unified θ t1 t2 r h k e (binds_left x p ne) = record {
  σ = single x t2;
  result = refl;
  instance_of = Absorbs-single θ x t2 (ap (apply_type θ) (sym p) ∙ e);
  keeps = λ s g. single-flat x t2 s k g;
}
top_unified θ t1 t2 r h k e (binds_right x p ne) = record {
  σ = single x t1;
  result = refl;
  instance_of = Absorbs-single θ x t1 (ap (apply_type θ) (sym p) ∙ sym e);
  keeps = λ s g. single-flat x t1 s h g;
}
top_unified θ t1 t2 r h k e (clashes _ none) = absurd (none θ e)

pub cons_step :
    (f : ℕ) (r1 r2 : StackType) (t1 t2 : Ty) (σ τ : Subst)
    → unify_types f t1 t2 ≡ ok σ
    → unify_stacks f (apply_stack σ r1) (apply_stack σ r2) ≡ ok τ
    → unify_stacks (suc f) (cons r1 t1) (cons r2 t2) ≡ ok (compose σ τ)
unfolding unify_stacks
cons_step f r1 r2 t1 t2 σ τ e e' = rw (e, e') refl

-- For stack types without quotations and closures, and more rounds of fuel than the first is high:
-- if a substitution makes the two equal, `unify_stacks` returns a substitution, and the given one
-- is an instance of it, that is, it gives the same whether the returned one is applied before it
-- or not.
pub unify_stacks-general :
    (f : ℕ) (s1 s2 : StackType) (θ : Subst)
    → height s1 < f
    → IsFlatStack s1
    → IsFlatStack s2
    → apply_stack θ s1 ≡ apply_stack θ s2
    → (σ : Subst) × (unify_stacks f s1 s2 ≡ ok σ) × Absorbs θ σ
unfolding unify_stacks apply_stack
unify_stacks-general zero s1 s2 θ lt h k e = absurd (omega arith)
unify_stacks-general (suc f) (row_var x) s2 θ lt h k e = bind_row-general θ x s2 e
unify_stacks-general (suc f) s1 (row_var x) θ lt h k e = bind_row-general θ x s1 (sym e)
unify_stacks-general (suc f) empty empty θ lt h k e = (empty_subst, refl, Absorbs-empty θ)
unify_stacks-general (suc f) empty (cons r2 t2) θ lt h k e = cc
unify_stacks-general (suc f) (cons r1 t1) empty θ lt h k e = cc
unify_stacks-general (suc zero) (cons r1 t1) (cons r2 t2) θ lt h k e = absurd (omega arith)
unify_stacks-general (suc (suc f)) (cons r1 t1) (cons r2 t2) θ lt h k e =
    let tops : apply_type θ t1 ≡ apply_type θ t2 = cc in
    let rests : apply_stack θ r1 ≡ apply_stack θ r2 = cc in
    let top = top_unified θ t1 t2 _ h.1 k.1 tops (unify_types-flat f t1 t2 h.1 k.1) in
    let σ = top.σ in
    let absorb = absorbs_stack θ σ top.instance_of in
    let (τ, run, inst) =
      unify_stacks-general (suc f) (apply_stack σ r1) (apply_stack σ r2) θ
        (omega (arith, (top.keeps r1 h.0).1)) (top.keeps r1 h.0).0 (top.keeps r2 k.0).0
        (absorb r1 ∙ rests ∙ sym (absorb r2)) in
    (
      compose σ τ,
      cons_step (suc f) r1 r2 t1 t2 σ τ top.result run,
      Absorbs-compose θ σ τ top.instance_of inst,
    )
