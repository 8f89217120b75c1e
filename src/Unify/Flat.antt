-- ===== src/Unify/Flat.antt =====
-- Types without quotations and closures: the types of data. On them a call of `unify_types` ends at
-- once, in one of four ways.
use Prim.Native.String.{String}
use text.Mathlib.Text.{◌==◌}
use text.Mathlib.TextEquality.{eq_iff}
use text.Mathlib.TextPositions.{eq_refl}
use patch_seq.Base.{
  ℕ, suc, true, false, if◌then◌else◌, ◌≡◌, ◌≢◌, refl, sym, ap, Bool-cases, inl, inr, ◌⊎◌,
}
use patch_seq.Types.{
  Ty, StackType, int, float, bool, string, symbol, channel, socket, variant, quotation, closure,
  union, var, empty, cons, row_var,
}
use patch_seq.Unify.{
  Subst, empty_subst, insert, apply_type, occurs_in_type, is_var, bind_type, unify_types, Result,
  ok, err, Error,
}

abbrev pub IsFlat : Ty → Type 0
IsFlat (quotation e) = ⊥
IsFlat (closure e c) = ⊥
IsFlat t = Unit

abbrev pub IsFlatStack : StackType → Type 0
IsFlatStack empty = Unit
IsFlatStack (row_var name) = Unit
IsFlatStack (cons rest top) = IsFlatStack rest × IsFlat top

-- Equal, or a union where the other side is the bare variant.
pub data Compatible (t u : Ty) : Type 0 where
  same : t ≡ u → Compatible t u
  union_variant : (n : String) → t ≡ union n → u ≡ variant → Compatible t u
  variant_union : (n : String) → t ≡ variant → u ≡ union n → Compatible t u

abbrev pub single : String → Ty → Subst
single x t = record empty_subst { types = insert x t empty_subst.types }

-- The ends of a call on flat types. At a failure no substitution makes the two sides equal.
pub data TypeStep (t1 t2 : Ty) : Result → Type 0 where
  agrees : Compatible t1 t2 → TypeStep t1 t2 (ok empty_subst)
  binds_left : (x : String) → t1 ≡ var x → t2 ≢ var x → TypeStep t1 t2 (ok (single x t2))
  binds_right : (x : String) → t2 ≡ var x → t1 ≢ var x → TypeStep t1 t2 (ok (single x t1))
  clashes :
      (e : Error) → ((θ : Subst) → ¬ (apply_type θ t1 ≡ apply_type θ t2)) → TypeStep t1 t2 (err e)

is_var_iff : (x : String) (t : Ty) → is_var x t ≡ true → t ≡ var x
unfolding is_var
is_var_iff x (var n) h = ap var ((eq_iff n x).0 h)
is_var_iff x t h = cc

is_var_self : (x : String) → is_var x (var x) ≡ true
unfolding is_var
is_var_self x = eq_refl x

-- In a flat type a variable occurs only as the type itself.
occurs-flat : (x : String) (t : Ty) → IsFlat t → occurs_in_type x t ≡ is_var x t
unfolding occurs_in_type is_var
occurs-flat x (var n) h = refl
occurs-flat x (quotation e) h = elim h [ ]
occurs-flat x (closure e c) h = elim h [ ]
occurs-flat x t h = refl

-- `bind_type` of a flat type: the variable itself, or a new binding.
bind_type-flat :
    (x : String) (t : Ty)
    → IsFlat t
    → ((t ≡ var x) × (bind_type x t ≡ ok empty_subst))
      ⊎ ((t ≢ var x) × (bind_type x t ≡ ok (single x t)))
unfolding bind_type
bind_type-flat x t h = elim (Bool-cases (is_var x t)) [
  | inl e ↦ inl (is_var_iff x t e, rw e refl)
  | inr e ↦ inr (differs e, rw (e, occurs-flat x t h, e) refl)
]
  where
    differs : is_var x t ≡ false → t ≢ var x
    differs e p = cc (rw p at e, is_var_self x)

step_left : (x : String) (t : Ty) → IsFlat t → TypeStep (var x) t (bind_type x t)
step_left x t h = elim (bind_type-flat x t h) [
  | inl (e, r) ↦ rw r (agrees (same (sym e)))
  | inr (ne, r) ↦ rw r (binds_left x refl ne)
]

step_right : (x : String) (t : Ty) → IsFlat t → TypeStep t (var x) (bind_type x t)
step_right x t h = elim (bind_type-flat x t h) [
  | inl (e, r) ↦ rw r (agrees (same e))
  | inr (ne, r) ↦ rw r (binds_right x refl ne)
]

step_union :
    (a b : String)
    → TypeStep
        (union a)
        (union b)
        (if a == b then ok empty_subst else err (Error.type_mismatch (union a) (union b)))
unfolding apply_type
step_union a b = elim (Bool-cases (a == b)) [
  | inl e ↦ rw e (agrees (same (ap union ((eq_iff a b).0 e))))
  | inr e ↦ rw e (clashes _ (λ θ h. apart e h))
]
  where
    apart : (a == b) ≡ false → union a ≡ union b → ⊥
    apart e h = let p : a ≡ b = cc in cc (e, eq_refl b)

pub unify_types-flat :
    (f : ℕ) (t1 t2 : Ty) → IsFlat t1 → IsFlat t2 → TypeStep t1 t2 (unify_types (suc f) t1 t2)
unfolding unify_types apply_type
unify_types-flat f (quotation e) t2 h k = elim h [ ]
unify_types-flat f (closure e c) t2 h k = elim h [ ]
unify_types-flat f t1 (quotation e) h k = elim k [ ]
unify_types-flat f t1 (closure e c) h k = elim k [ ]
unify_types-flat f (var x) t2 h k = step_left x t2 k
unify_types-flat f t1 (var x) h k = step_right x t1 h
unify_types-flat f (union a) (union b) h k = step_union a b
unify_types-flat f (union a) variant h k = agrees (union_variant a refl refl)
unify_types-flat f variant (union a) h k = agrees (variant_union a refl refl)
unify_types-flat f int int h k = agrees (same refl)
unify_types-flat f float float h k = agrees (same refl)
unify_types-flat f bool bool h k = agrees (same refl)
unify_types-flat f string string h k = agrees (same refl)
unify_types-flat f symbol symbol h k = agrees (same refl)
unify_types-flat f channel channel h k = agrees (same refl)
unify_types-flat f socket socket h k = agrees (same refl)
unify_types-flat f variant variant h k = agrees (same refl)
unify_types-flat f t1 t2 h k = clashes _ (λ θ e. cc)
