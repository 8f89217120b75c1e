-- ===== src/Unify/Tests.antt =====
-- The theorems on unification, at concrete stack types.
use patch_seq.Base.{◌≡◌, ◌≢◌, refl, none, arith}
use patch_seq.Types.{StackType, effect, int, bool, var, empty, cons, row_var, quotation, pure}
use patch_seq.Unify.{
  Subst, empty_subst, insert, apply_type, apply_stack, compose, unify_types, unify_stacks,
  bind_type, bind_row, occurs_in_type, occurs_in_stack, is_var, is_row_var, ok, out_of_fuel,
}
use patch_seq.Unify.Flat.{single}
use patch_seq.Unify.Absorbs.{Absorbs}
use patch_seq.Unify.General.{unify_stacks-general}
use patch_seq.Unify.Sound.{StackCompatible, unify_stacks-sound}
use patch_seq.Unify.Total.{unify_stacks-total}
use patch_seq.Unify.Occurs.{occurs_check_misses}

-- `..a T` and `Int Bool`.
abbrev open_stack : StackType
open_stack = cons (row_var "a") (var "T")

abbrev int_bool : StackType
int_bool = cons (cons empty int) bool

abbrev solution : Subst
solution = record {
  types = insert "T" bool (λ _. none);
  rows = insert "a" (cons empty int) (λ _. none);
}

solves : apply_stack solution open_stack ≡ apply_stack solution int_bool
unfolding apply_stack apply_type
solves = refl

unify_stacks-general_example :
    (σ : Subst) × (unify_stacks 3 open_stack int_bool ≡ ok σ) × Absorbs solution σ
unify_stacks-general_example =
    unify_stacks-general 3 open_stack int_bool solution (omega arith) (tt, tt) ((tt, tt), tt) solves

abbrev bound_top : Subst
bound_top = single "T" bool

abbrev bound_row : Subst
bound_row = record empty_subst { rows = insert "a" (cons empty int) empty_subst.rows }

runs : unify_stacks 3 open_stack int_bool ≡ ok (compose bound_top bound_row)
unfolding unify_stacks unify_types bind_type bind_row is_var is_row_var occurs_in_type
    occurs_in_stack empty_subst apply_stack apply_type
runs = refl

unify_stacks-sound_example :
    StackCompatible
      (apply_stack (compose bound_top bound_row) open_stack)
      (apply_stack (compose bound_top bound_row) int_bool)
unify_stacks-sound_example =
    unify_stacks-sound 3 open_stack int_bool (compose bound_top bound_row) (tt, tt) ((tt, tt), tt)
      runs

unify_stacks-total_example : unify_stacks 3 open_stack int_bool ≢ out_of_fuel
unify_stacks-total_example =
    unify_stacks-total 3 open_stack int_bool (omega arith) (tt, tt) ((tt, tt), tt)

occurs_check_misses_example :
    unify_types 1 (var "T") (quotation (effect (cons (row_var "a") (var "T")) (row_var "a") pure))
    ≡ ok (single "T" (quotation (effect (cons (row_var "a") (var "T")) (row_var "a") pure)))
occurs_check_misses_example = occurs_check_misses 0 "T" (row_var "a") (row_var "a") refl refl
