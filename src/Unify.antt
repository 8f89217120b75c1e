-- ===== src/Unify.antt =====
-- Unification of types and stack types (crates/compiler/src/unification.rs). A `HashMap` is the
-- function that looks a name up. The recursion of the source is on types that it has just
-- substituted in, so it runs on fuel here; error messages are kept as their kind.
pub mod Flat
pub mod Absorbs
pub mod General
pub mod Run
pub mod Free
pub mod Sound
pub mod Total
pub mod Occurs
mod Tests
use Prim.Native.String.{String}
use text.Mathlib.Text.{◌==◌}
use patch_seq.Base.{ℕ, zero, suc, Bool, true, false, ◌||◌, Option, none, some, if◌then◌else◌, ◌≡◌}
use mathlib.Core.Option
use patch_seq.Types.{
  Ty, Tys, StackType, Effect, effect, int, float, bool, string, symbol, channel, socket, variant,
  quotation, closure, union, var, empty, cons, row_var, nil, more,
}

abbrev pub HashMap : Type 0 → Type 0
HashMap V = String → Option V

abbrev pub insert : {V : Type 0} → String → V → HashMap V → HashMap V
insert k v m j = if j == k then some v else m j

pub record Subst : Type 0 where
  pub types : HashMap Ty
  pub rows : HashMap StackType

unfoldable pub empty_subst : Subst
empty_subst = record { types = λ _. none; rows = λ _. none }

-- `unwrap_or`
abbrev pub found {ℓ} : {A : Type ℓ} → Option A → A → A
found none a = a
found (some x) a = x

unfoldable pub apply_type : Subst → Ty → Ty
apply_type σ (var name) = found (σ.types name) (var name)
apply_type σ ty = ty

unfoldable pub apply_stack : Subst → StackType → StackType
unfolding apply_type
apply_stack σ empty = empty
apply_stack σ (cons rest top) = cons (apply_stack σ rest) (apply_type σ top)
apply_stack σ (row_var name) = found (σ.rows name) (row_var name)

-- The entry that `compose` ends with: the second substitution is written over the first.
abbrev pub over : {V : Type 0} → Option V → Option V → Option V
over (some v) old = some v
over none old = old

unfoldable pub compose : Subst → Subst → Subst
unfolding apply_type apply_stack
compose σ other = record {
  types = λ k.
      over (Option.map (apply_type σ) (other.types k)) (Option.map (apply_type other) (σ.types k));
  rows = λ k.
      over (Option.map (apply_stack σ) (other.rows k)) (Option.map (apply_stack other) (σ.rows k));
}

-- A row variable is looked for in the rests alone.
unfoldable pub occurs_in_stack : String → StackType → Bool
occurs_in_stack v empty = false
occurs_in_stack v (row_var name) = name == v
occurs_in_stack v (cons rest top) = occurs_in_stack v rest

unfoldable mutual
  unfolding occurs_in_stack

  pub occurs_in_type : String → Ty → Bool
  occurs_in_type v (var name) = name == v
  occurs_in_type v (quotation (effect i o _)) = occurs_in_stack v i || occurs_in_stack v o
  occurs_in_type v (closure (effect i o _) captures) =
      occurs_in_stack v i || occurs_in_stack v o || occurs_in_types v captures
  occurs_in_type v _ = false

  pub occurs_in_types : String → Tys → Bool
  occurs_in_types v nil = false
  occurs_in_types v (more t ts) = occurs_in_type v t || occurs_in_types v ts

pub data Error : Type 0 where
  type_mismatch : Ty → Ty → Error
  shape_mismatch : StackType → StackType → Error
  occurs_type : String → Ty → Error
  occurs_row : String → StackType → Error

pub data Result : Type 0 where
  ok : Subst → Result
  err : Error → Result
  out_of_fuel : Result

-- `?`
infixl 5 ◌>>=◌
abbrev pub ◌>>=◌ : Result → (Subst → Result) → Result
ok σ >>= k = k σ
err e >>= k = err e
out_of_fuel >>= k = out_of_fuel

unfoldable pub is_var : String → Ty → Bool
is_var name (var n) = n == name
is_var name _ = false

unfoldable pub is_row_var : String → StackType → Bool
is_row_var name (row_var n) = n == name
is_row_var name _ = false

-- The case of a variable in `unify_types`, and of a row variable in `unify_stacks`.
unfoldable pub bind_type : String → Ty → Result
unfolding is_var occurs_in_type empty_subst
bind_type name ty =
    if is_var name ty
    then ok empty_subst
    else if occurs_in_type name ty
    then err (occurs_type name ty)
    else ok (record empty_subst { types = insert name ty empty_subst.types })

unfoldable pub bind_row : String → StackType → Result
unfolding is_row_var occurs_in_stack empty_subst
bind_row name stack =
    if is_row_var name stack
    then ok empty_subst
    else if occurs_in_stack name stack
    then err (occurs_row name stack)
    else ok (record empty_subst { rows = insert name stack empty_subst.rows })

unfoldable mutual
  unfolding empty_subst bind_type bind_row apply_stack compose

  pub unify_effects : ℕ → Effect → Effect → Result
  unify_effects zero e1 e2 = out_of_fuel
  unify_effects (suc f) (effect in1 out1 _) (effect in2 out2 _) = unify_stacks f in1 in2 >>= λ s_in.
      unify_stacks f (apply_stack s_in out1) (apply_stack s_in out2) >>= λ s_out.
      ok (compose s_in s_out)

  pub unify_types : ℕ → Ty → Ty → Result
  unify_types zero t1 t2 = out_of_fuel
  unify_types (suc f) int int = ok empty_subst
  unify_types (suc f) float float = ok empty_subst
  unify_types (suc f) bool bool = ok empty_subst
  unify_types (suc f) string string = ok empty_subst
  unify_types (suc f) symbol symbol = ok empty_subst
  unify_types (suc f) channel channel = ok empty_subst
  unify_types (suc f) socket socket = ok empty_subst
  unify_types (suc f) (union a) (union b) =
      if a == b then ok empty_subst else err (type_mismatch (union a) (union b))
  unify_types (suc f) variant variant = ok empty_subst
  unify_types (suc f) (union _) variant = ok empty_subst
  unify_types (suc f) variant (union _) = ok empty_subst
  unify_types (suc f) (var name) ty = bind_type name ty
  unify_types (suc f) ty (var name) = bind_type name ty
  unify_types (suc f) (quotation e1) (quotation e2) = unify_effects f e1 e2
  unify_types (suc f) (closure e1 _) (closure e2 _) = unify_effects f e1 e2
  unify_types (suc f) (quotation q) (closure e _) = unify_effects f q e
  unify_types (suc f) (closure e _) (quotation q) = unify_effects f q e
  unify_types (suc f) t1 t2 = err (type_mismatch t1 t2)

  pub unify_stacks : ℕ → StackType → StackType → Result
  unify_stacks zero s1 s2 = out_of_fuel
  unify_stacks (suc f) empty empty = ok empty_subst
  unify_stacks (suc f) (row_var name) stack = bind_row name stack
  unify_stacks (suc f) stack (row_var name) = bind_row name stack
  unify_stacks (suc f) (cons rest1 top1) (cons rest2 top2) = unify_types f top1 top2 >>= λ s_top.
      unify_stacks f (apply_stack s_top rest1) (apply_stack s_top rest2) >>= λ s_rest.
      ok (compose s_top s_rest)
  unify_stacks (suc f) s1 s2 = err (shape_mismatch s1 s2)
