-- ===== src/Types/Equality.antt =====
-- The derived equality of the types of crates/compiler/src/types.rs.
use text.Mathlib.Text.{◌==◌}
use text.Mathlib.TextEquality.{eq_iff}
use patch_seq.Base.{Bool, true, false, ◌&&◌, ◌≡◌, refl, ap, ap₂, subst, ◌↔◌}
use patch_seq.Types.{
  SideEffects, Ty, Tys, StackType, Effect, pure, yield, effect, int, float, bool, string, symbol,
  channel, socket, variant, quotation, closure, union, var, empty, cons, row_var, nil, more,
}

unfoldable mutual
  pub same_type : Ty → Ty → Bool
  same_type int int = true
  same_type float float = true
  same_type bool bool = true
  same_type string string = true
  same_type symbol symbol = true
  same_type channel channel = true
  same_type socket socket = true
  same_type variant variant = true
  same_type (quotation e) (quotation f) = same_effect e f
  same_type (closure e ts) (closure f us) = same_effect e f && same_types ts us
  same_type (union a) (union b) = a == b
  same_type (var a) (var b) = a == b
  same_type _ _ = false

  same_types : Tys → Tys → Bool
  same_types nil nil = true
  same_types (more t ts) (more u us) = same_type t u && same_types ts us
  same_types _ _ = false

  same_effects : SideEffects → SideEffects → Bool
  same_effects pure pure = true
  same_effects (yield t s) (yield u r) = same_type t u && same_effects s r
  same_effects _ _ = false

  same_stack : StackType → StackType → Bool
  same_stack empty empty = true
  same_stack (cons s t) (cons r u) = same_stack s r && same_type t u
  same_stack (row_var a) (row_var b) = a == b
  same_stack _ _ = false

  same_effect : Effect → Effect → Bool
  same_effect (effect i o s) (effect j p r) = same_stack i j && (same_stack o p && same_effects s r)

and-true : (a b : Bool) → (a && b) ≡ true → (a ≡ true) × (b ≡ true)
and-true true b e = (refl, e)
and-true false b e = absurd (cc e)

mutual
  unfolding same_type

  eq_type : (t u : Ty) → same_type t u ≡ true → t ≡ u
  eq_type int int h = refl
  eq_type float float h = refl
  eq_type bool bool h = refl
  eq_type string string h = refl
  eq_type symbol symbol h = refl
  eq_type channel channel h = refl
  eq_type socket socket h = refl
  eq_type variant variant h = refl
  eq_type (quotation e) (quotation f) h = ap quotation (eq_effect e f h)
  eq_type (closure e ts) (closure f us) h =
      let (a, b) = and-true _ _ h in ap₂ closure (eq_effect e f a) (eq_types ts us b)
  eq_type (union a) (union b) h = ap union ((eq_iff a b).0 h)
  eq_type (var a) (var b) h = ap var ((eq_iff a b).0 h)
  eq_type t u h = absurd (cc h)

  eq_types : (ts us : Tys) → same_types ts us ≡ true → ts ≡ us
  eq_types nil nil h = refl
  eq_types (more t ts) (more u us) h =
      let (a, b) = and-true _ _ h in ap₂ more (eq_type t u a) (eq_types ts us b)
  eq_types ts us h = absurd (cc h)

  eq_effects : (s r : SideEffects) → same_effects s r ≡ true → s ≡ r
  eq_effects pure pure h = refl
  eq_effects (yield t s) (yield u r) h =
      let (a, b) = and-true _ _ h in ap₂ yield (eq_type t u a) (eq_effects s r b)
  eq_effects s r h = absurd (cc h)

  eq_stack : (s r : StackType) → same_stack s r ≡ true → s ≡ r
  eq_stack empty empty h = refl
  eq_stack (cons s t) (cons r u) h =
      let (a, b) = and-true _ _ h in ap₂ cons (eq_stack s r a) (eq_type t u b)
  eq_stack (row_var a) (row_var b) h = ap row_var ((eq_iff a b).0 h)
  eq_stack s r h = absurd (cc h)

  eq_effect : (e f : Effect) → same_effect e f ≡ true → e ≡ f
  eq_effect (effect i o s) (effect j p r) h =
      let (a, bc) = and-true _ _ h in
      let (b, c) = and-true _ _ bc in rw (eq_stack i j a, eq_stack o p b, eq_effects s r c) refl

and-both : (a b : Bool) → a ≡ true → b ≡ true → (a && b) ≡ true
and-both a b h k = rw (h, k) refl

mutual
  unfolding same_type

  refl_type : (t : Ty) → same_type t t ≡ true
  refl_type (quotation e) = refl_effect e
  refl_type (closure e ts) = and-both _ _ (refl_effect e) (refl_types ts)
  refl_type (union a) = (eq_iff a a).1 refl
  refl_type (var a) = (eq_iff a a).1 refl
  refl_type int = refl
  refl_type float = refl
  refl_type bool = refl
  refl_type string = refl
  refl_type symbol = refl
  refl_type channel = refl
  refl_type socket = refl
  refl_type variant = refl

  refl_types : (ts : Tys) → same_types ts ts ≡ true
  refl_types nil = refl
  refl_types (more t ts) = and-both _ _ (refl_type t) (refl_types ts)

  refl_effects : (s : SideEffects) → same_effects s s ≡ true
  refl_effects pure = refl
  refl_effects (yield t s) = and-both _ _ (refl_type t) (refl_effects s)

  refl_stack : (s : StackType) → same_stack s s ≡ true
  refl_stack empty = refl
  refl_stack (cons s t) = and-both _ _ (refl_stack s) (refl_type t)
  refl_stack (row_var a) = (eq_iff a a).1 refl

  refl_effect : (e : Effect) → same_effect e e ≡ true
  refl_effect (effect i o s) =
      and-both _ _ (refl_stack i) (and-both _ _ (refl_stack o) (refl_effects s))

pub same_type_iff : (t u : Ty) → (same_type t u ≡ true) ↔ (t ≡ u)
same_type_iff t u = (eq_type t u, λ e. subst (λ x. same_type t x ≡ true) e (refl_type t))
