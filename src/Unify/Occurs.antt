-- ===== src/Unify/Occurs.antt =====
-- The occurs check of crates/compiler/src/unification.rs on quotations.
use Prim.Native.String.{String}
use text.Mathlib.Text.{◌==◌}
use patch_seq.Base.{ℕ, suc, Bool, false, ◌≡◌, refl}
use patch_seq.Types.{StackType, effect, empty, cons, row_var, var, quotation, pure}
use patch_seq.Unify.{
  unify_types, bind_type, is_var, occurs_in_type, occurs_in_stack, ok, empty_subst,
}
use patch_seq.Unify.Flat.{single}

-- The row variable at the end of a stack type, and whether a variable is one of its types.
abbrev pub ends_in : String → StackType → Bool
ends_in r empty = false
ends_in r (row_var n) = n == r
ends_in r (cons rest top) = ends_in r rest

occurs-ends_in : (x : String) (s : StackType) → occurs_in_stack x s ≡ ends_in x s
unfolding occurs_in_stack
occurs-ends_in x empty = refl
occurs-ends_in x (row_var n) = refl
occurs-ends_in x (cons rest top) = occurs-ends_in x rest

-- A type variable is unified with a pure quotation that takes a value of that very type on top, if
-- no row variable of the quotation has the variable's name: no occurs check fails, and the
-- variable is bound to the quotation.
pub occurs_check_misses :
    (f : ℕ) (x : String) (rest outputs : StackType)
    → ends_in x rest ≡ false
    → ends_in x outputs ≡ false
    → let q = quotation (effect (cons rest (var x)) outputs pure) in
      unify_types (suc f) (var x) q ≡ ok (single x q)
unfolding unify_types bind_type is_var occurs_in_type empty_subst
occurs_check_misses f x rest outputs h k =
    rw (occurs-ends_in x rest, h, occurs-ends_in x outputs, k) refl
