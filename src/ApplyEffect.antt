-- ===== src/ApplyEffect.antt =====
-- How the type checker applies the effect of a word to a stack type, and pops a type
-- (crates/compiler/src/typechecker/stack_utils.rs). Fuel is that of the unifier.
pub mod Laws
mod Tests
use Prim.Native.String.{String}
use text.Mathlib.Text.{◌==◌}
use patch_seq.Base.{ℕ, ◌+◌, Bool, true, false, ◌&&◌, ltb, Option, none, some, if◌then◌else◌}
use patch_seq.Types.{Ty, StackType, Effect, effect, var, empty, cons, row_var}
use patch_seq.Unify.{Subst, Result, Error, apply_stack, unify_stacks, empty_subst, insert}
use patch_seq.LiteralIndex.{stack_depth}

unfoldable pub count_concrete_types : StackType → ℕ
unfolding stack_depth
count_concrete_types stack = stack_depth stack

unfoldable pub get_row_var_base : StackType → Option String
get_row_var_base (cons rest top) = get_row_var_base rest
get_row_var_base (row_var name) = some name
get_row_var_base empty = none

-- `row_var_name == "rest"`, of a stack type with a row variable at its base.
unfoldable pub is_rigid : Option String → Bool
is_rigid none = false
is_rigid (some name) = name == "rest"

pub data Applied : Type 0 where
  applied : (result : StackType) → Subst → Applied
  underflow : (needed provided : ℕ) → Applied
  mismatch : Error → Applied
  no_fuel : Applied

abbrev pub apply_result : (outputs : StackType) → Result → Applied
apply_result outputs (Result.ok subst) = applied (apply_stack subst outputs) subst
apply_result outputs (Result.err e) = mismatch e
apply_result outputs Result.out_of_fuel = no_fuel

unfoldable pub apply_effect : (fuel : ℕ) → Effect → (current_stack : StackType) → Applied
unfolding count_concrete_types get_row_var_base is_rigid
apply_effect fuel (effect inputs outputs s) current =
    let needed = count_concrete_types inputs in
    let provided = count_concrete_types current in
    if is_rigid (get_row_var_base current) && ltb provided needed
    then underflow needed provided
    else apply_result outputs (unify_stacks fuel inputs current)

pub data Popped : Type 0 where
  popped : (rest : StackType) → Ty → Subst → (fresh_counter : ℕ) → Popped
  nothing_to_pop : Popped

-- The names of the fresh variables are formatted from a prefix and the counter.
unfoldable pub polymorphic_pop :
    (fresh : String → ℕ → String) → StackType → (fresh_counter : ℕ) → Popped
unfolding empty_subst
polymorphic_pop fresh (cons rest top) k = popped rest top empty_subst k
polymorphic_pop fresh (row_var name) k =
    if name == "rest"
    then nothing_to_pop
    else (let new_rest = row_var (fresh name (k + 1)) in
        let ty = var (fresh "T" k) in
        popped new_rest ty
          (record empty_subst { rows = insert name (cons new_rest ty) empty_subst.rows }) (k + 2))
polymorphic_pop fresh empty k = nothing_to_pop

unfoldable pub pop_type : StackType → Option (StackType × Ty)
pop_type (cons rest top) = some (rest, top)
pop_type stack = none
