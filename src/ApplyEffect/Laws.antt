-- ===== src/ApplyEffect/Laws.antt =====
-- What `apply_effect` and `polymorphic_pop` of crates/compiler/src/typechecker/stack_utils.rs return.
use Prim.Native.String.{String}
use text.Mathlib.Text.{◌==◌}
use patch_seq.Base.{
  ℕ, ◌+◌, ◌≤◌, ◌≡◌, ◌⊎◌, inl, inr, sym, ◌∙◌, ap, ap₂, false, ltb, arith, Bool-cases,
}
use patch_seq.Types.{Ty, StackType, effect, var, cons, row_var, SideEffects}
use patch_seq.Unify.{Subst, Result, apply_stack}
use patch_seq.Unify.Flat.{IsFlatStack}
use patch_seq.Unify.Sound.{StackCompatible, unify_stacks-sound}
use patch_seq.Unify.Absorbs.{row_single, row_single_hit}
use patch_seq.LiteralIndex.{stack_depth}
use patch_seq.ApplyEffect.{
  count_concrete_types, get_row_var_base, is_rigid, applied, apply_result, apply_effect, popped,
  polymorphic_pop,
}

apply_result-applied :
    (outputs result : StackType) (σ : Subst) (r : Result)
    → apply_result outputs r ≡ applied result σ
    → (r ≡ Result.ok σ) × (result ≡ apply_stack σ outputs)
apply_result-applied outputs result σ (Result.ok τ) e =
    let same : τ ≡ σ = cc e in
    let shown : result ≡ apply_stack τ outputs = cc e in (ap Result.ok same, rw same at shown)
apply_result-applied outputs result σ (Result.err x) e = absurd (cc e)
apply_result-applied outputs result σ Result.out_of_fuel e = absurd (cc e)

-- If `apply_effect` succeeds on stack types without quotations and closures: with the substitution
-- that it returns, the stack has the shape and at each place the type of the inputs of the effect, or
-- a union on one side and the bare variant on the other; the result is the outputs with it; and if the
-- row variable of the stack is the declared one, the stack has at least as many concrete items as the
-- inputs.
pub apply_effect_sound :
    (f : ℕ) (inputs outputs current result : StackType) (s : SideEffects) (σ : Subst)
    → IsFlatStack inputs
    → IsFlatStack current
    → apply_effect f (effect inputs outputs s) current ≡ applied result σ
    → StackCompatible (apply_stack σ inputs) (apply_stack σ current)
      × (result ≡ apply_stack σ outputs)
      × ((is_rigid (get_row_var_base current) ≡ false) ⊎ (stack_depth inputs ≤ stack_depth current))
unfolding apply_effect count_concrete_types
apply_effect_sound f inputs outputs current result s σ g h e =
    elim (Bool-cases (is_rigid (get_row_var_base current))) [
      | inr loose ↦
          let (run, shown) = apply_result-applied outputs result σ _ (rw loose at e) in
          (unify_stacks-sound f inputs current σ g h run, shown, inl loose)
      | inl rigid ↦ elim (Bool-cases (ltb (stack_depth current) (stack_depth inputs))) [
        | inl few ↦ absurd (cc (rw (rigid, few) at e))
        | inr enough ↦
            let (run, shown) = apply_result-applied outputs result σ _ (rw (rigid, enough) at e) in
            (unify_stacks-sound f inputs current σ g h run, shown, inr (ground (arith, enough)))
      ]
    ]

-- A pop from a row variable that is not the declared one returns a substitution with which the stack
-- type is the returned type on top of the returned rest.
pub polymorphic_pop-row :
    (fresh : String → ℕ → String) (name : String) (k l : ℕ) (rest : StackType) (ty : Ty) (σ : Subst)
    → polymorphic_pop fresh (row_var name) k ≡ popped rest ty σ l
    → apply_stack σ (row_var name) ≡ cons rest ty
unfolding polymorphic_pop
polymorphic_pop-row fresh name k l rest ty σ e = elim (Bool-cases (name == "rest")) [
  | inl y ↦ absurd (cc (rw y at e))
  | inr n ↦
      let new_rest = row_var (fresh name (k + 1)) in
      let t = var (fresh "T" k) in
      let made : popped new_rest t (row_single name (cons new_rest t)) (k + 2)
          ≡ popped rest ty σ l =
        rw n at e in
      let a : new_rest ≡ rest = cc made in
      let b : t ≡ ty = cc made in
      let c : row_single name (cons new_rest t) ≡ σ = cc made in
      ap (λ τ. apply_stack τ (row_var name)) (sym c)
      ∙ row_single_hit name (cons new_rest t)
      ∙ ap₂ cons a b
]
