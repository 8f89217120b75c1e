-- ===== src/ApplyEffect/Tests.antt =====
-- The theorem on effects, at the effect of `dup` and a declared stack.
use patch_seq.Base.{◌≡◌, ◌≤◌, ◌⊎◌, refl, false}
use patch_seq.Types.{StackType, effect, int, var, cons, row_var, pure}
use patch_seq.Unify.{
  Subst, empty_subst, insert, apply_type, apply_stack, compose, unify_types, unify_stacks,
  bind_type, bind_row, occurs_in_type, occurs_in_stack, is_var, is_row_var,
}
use patch_seq.Unify.Flat.{single}
use patch_seq.Unify.Sound.{StackCompatible}
use patch_seq.LiteralIndex.{stack_depth}
use patch_seq.ApplyEffect.{apply_effect, applied, is_rigid, get_row_var_base, count_concrete_types}
use patch_seq.ApplyEffect.Laws.{apply_effect_sound}

-- `..a T`, `..a T T` and `..rest Int`
abbrev open_stack : StackType
open_stack = cons (row_var "a") (var "T")

abbrev doubled : StackType
doubled = cons open_stack (var "T")

abbrev declared : StackType
declared = cons (row_var "rest") int

abbrev unified : Subst
unified =
    compose (single "T" int)
      (record empty_subst { rows = insert "a" (row_var "rest") empty_subst.rows })

runs :
    apply_effect 3 (effect open_stack doubled pure) declared ≡ applied (cons declared int) unified
unfolding apply_effect count_concrete_types get_row_var_base is_rigid unify_stacks unify_types
    bind_type bind_row is_var is_row_var occurs_in_type occurs_in_stack empty_subst apply_stack
    apply_type
runs = refl

apply_effect_sound_example :
    StackCompatible (apply_stack unified open_stack) (apply_stack unified declared)
    × (cons declared int ≡ apply_stack unified doubled)
    × ((is_rigid (get_row_var_base declared) ≡ false)
        ⊎ (stack_depth open_stack ≤ stack_depth declared))
apply_effect_sound_example =
    apply_effect_sound 3 open_stack doubled declared (cons declared int) pure unified (tt, tt)
      (tt, tt) runs
