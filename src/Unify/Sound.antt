-- ===== src/Unify/Sound.antt =====
-- The two sides of `unify_stacks` (crates/compiler/src/unification.rs) under the substitution that it
-- returns.
use Prim.Native.String.{String}
use text.Mathlib.Text.{◌==◌}
use text.Mathlib.TextEquality.{eq_iff}
use patch_seq.Base.{
  ℕ, false, none, some, ◌≡◌, ◌≢◌, refl, sym, ◌∙◌, ap, ap₂, Bool-cases, inl, inr, subst,
}
use patch_seq.Types.{Ty, StackType, var, empty, cons, row_var}
use patch_seq.Unify.{
  Subst, empty_subst, apply_type, apply_stack, occurs_in_stack, unify_stacks, ok, compose,
}
use patch_seq.Unify.Flat.{IsFlatStack, Compatible, same, union_variant, variant_union, single}
use patch_seq.Unify.Absorbs.{
  single_hit, single_miss, row_single, row_single_hit, compose_type, compose_row,
}
use patch_seq.Unify.General.{empty-stack, empty-type}
use patch_seq.Unify.Free.{Avoids, Free, Run-Free, avoids-single}
use patch_seq.Unify.Run.{
  Run, at_end, row_left, row_right, top_agrees, top_left, top_right, Run-unify_stacks,
}

-- The same shape, with compatible types.
abbrev pub StackCompatible : StackType → StackType → Type 0
StackCompatible empty empty = Unit
StackCompatible (row_var a) (row_var b) = a ≡ b
StackCompatible (cons r t) (cons q u) = StackCompatible r q × Compatible t u
StackCompatible _ _ = ⊥

StackCompatible-refl : (s : StackType) → StackCompatible s s
StackCompatible-refl empty = tt
StackCompatible-refl (row_var r) = refl
StackCompatible-refl (cons rest top) = (StackCompatible-refl rest, same refl)

compatible_of_eq : (s u : StackType) → s ≡ u → StackCompatible s u
compatible_of_eq s u e = subst (λ w. StackCompatible s w) e (StackCompatible-refl s)

Compatible-apply :
    (τ : Subst) (t u : Ty) → Compatible t u → Compatible (apply_type τ t) (apply_type τ u)
unfolding apply_type
Compatible-apply τ t u (same e) = same (ap (apply_type τ) e)
Compatible-apply τ t u (union_variant n e e') = rw (e, e') (union_variant n refl refl)
Compatible-apply τ t u (variant_union n e e') = rw (e, e') (variant_union n refl refl)

-- What `τ` binds, `σ` leaves alone, the names and what they stand for.
record Apart (σ τ : Subst) : Type 0 where
  types :
      (k : String) (v : Ty)
      → τ.types k ≡ some v
      → (apply_type σ v ≡ v) × (apply_type σ (var k) ≡ var k)
  rows :
      (k : String) (s : StackType)
      → τ.rows k ≡ some s
      → (apply_stack σ s ≡ s) × (apply_stack σ (row_var k) ≡ row_var k)

type_entry : (τ : Subst) (k : String) (v : Ty) → τ.types k ≡ some v → apply_type τ (var k) ≡ v
unfolding apply_type
type_entry τ k v e = rw e refl

row_entry :
    (τ : Subst) (k : String) (v : StackType) → τ.rows k ≡ some v → apply_stack τ (row_var k) ≡ v
unfolding apply_stack
row_entry τ k v e = rw e refl

-- Then `compose` is one substitution after the other.
module _ (σ τ : Subst) (apart : Apart σ τ) where
  compose_var :
      (k : String) → apply_type (compose σ τ) (var k) ≡ apply_type τ (apply_type σ (var k))
  compose_var k = elim (compose_type σ τ k) [
    | inl (v, e, q) ↦
        let (p, p') = apart.types k v e in
        q ∙ p ∙ sym (type_entry τ k v e) ∙ ap (apply_type τ) (sym p')
    | inr (e, q) ↦ q
  ]

  compose_row_var :
      (k : String)
      → apply_stack (compose σ τ) (row_var k) ≡ apply_stack τ (apply_stack σ (row_var k))
  compose_row_var k = elim (compose_row σ τ k) [
    | inl (v, e, q) ↦
        let (p, p') = apart.rows k v e in
        q ∙ p ∙ sym (row_entry τ k v e) ∙ ap (apply_stack τ) (sym p')
    | inr (e, q) ↦ q
  ]

  in_turn_type : (t : Ty) → apply_type (compose σ τ) t ≡ apply_type τ (apply_type σ t)
  unfolding apply_type
  in_turn_type (var k) = compose_var k
  in_turn_type t = refl

  in_turn : (s : StackType) → apply_stack (compose σ τ) s ≡ apply_stack τ (apply_stack σ s)
  unfolding apply_stack
  in_turn empty = refl
  in_turn (row_var k) = compose_row_var k
  in_turn (cons rest top) = ap₂ cons (in_turn rest) (in_turn_type top)

Apart-empty : (τ : Subst) → Apart empty_subst τ
Apart-empty τ = record {
  types = λ k v e. (empty-type v, empty-type (var k));
  rows = λ k s e. (empty-stack s, empty-stack (row_var k));
}

-- A single binding leaves alone what its variable does not occur in.
single-other_var : (x k : String) (t : Ty) → var k ≢ var x → apply_type (single x t) (var k) ≡ var k
single-other_var x k t ne = elim (Bool-cases (k == x)) [
  | inl e ↦ absurd (ne (ap var ((eq_iff k x).0 e)))
  | inr e ↦ single_miss x k t e
]

single-other : (x : String) (t v : Ty) → v ≢ var x → apply_type (single x t) v ≡ v
unfolding apply_type
single-other x t (var k) ne = single-other_var x k t ne
single-other x t v ne = refl

single-avoids : (x : String) (t : Ty) (s : StackType) → Avoids x s → apply_stack (single x t) s ≡ s
unfolding apply_stack empty_subst
single-avoids x t empty a = refl
single-avoids x t (row_var r) a = refl
single-avoids x t (cons rest top) a =
    ap₂ cons (single-avoids x t rest a.0) (single-other x t top a.1)

single-row : (x : String) (t : Ty) (k : String) → apply_stack (single x t) (row_var k) ≡ row_var k
unfolding apply_stack empty_subst
single-row x t k = refl

Apart-single : (x : String) (t : Ty) (τ : Subst) → Free x τ → Apart (single x t) τ
Apart-single x t τ free = record {
  types = λ k v e. (single-other x t v (free.types k v e), single-other x t (var k) (bound k v e));
  rows = λ k s e. (single-avoids x t s (free.rows k s e), single-row x t k);
}
  where
    bound : (k : String) (v : Ty) → τ.types k ≡ some v → var k ≢ var x
    bound k v e h =
        let p : k ≡ x = cc in
        let q : τ.types k ≡ none = subst (λ n. τ.types n ≡ none) (sym p) free.unbound in cc

row_single-type : (x : String) (s : StackType) (t : Ty) → apply_type (row_single x s) t ≡ t
unfolding apply_type empty_subst
row_single-type x s (var k) = refl
row_single-type x s t = refl

row_single-other :
    (x : String) (s u : StackType)
    → occurs_in_stack x u ≡ false
    → apply_stack (row_single x s) u ≡ u
unfolding occurs_in_stack apply_stack empty_subst
row_single-other x s empty h = refl
row_single-other x s (row_var n) h = rw h refl
row_single-other x s (cons rest top) h =
    ap₂ cons (row_single-other x s rest h) (row_single-type x s top)

apply_cons :
    (σ : Subst) (r : StackType) (t : Ty)
    → apply_stack σ (cons r t) ≡ cons (apply_stack σ r) (apply_type σ t)
unfolding apply_stack
apply_cons σ r t = refl

-- A step on the tops, and the steps on the rests after it.
StackCompatible-cons :
    (σ τ : Subst) (r1 r2 : StackType) (t1 t2 : Ty)
    → Apart σ τ
    → Compatible (apply_type σ t1) (apply_type σ t2)
    → StackCompatible (apply_stack τ (apply_stack σ r1)) (apply_stack τ (apply_stack σ r2))
    → StackCompatible
        (apply_stack (compose σ τ) (cons r1 t1))
        (apply_stack (compose σ τ) (cons r2 t2))
StackCompatible-cons σ τ r1 r2 t1 t2 apart c rests =
    rw
      (
        in_turn σ τ apart (cons r1 t1),
        in_turn σ τ apart (cons r2 t2),
        apply_cons σ r1 t1,
        apply_cons σ r2 t2,
        apply_cons τ (apply_stack σ r1) (apply_type σ t1),
        apply_cons τ (apply_stack σ r2) (apply_type σ t2),
      )
      (rests, Compatible-apply τ _ _ c)

Run-sound :
    (s1 s2 : StackType) (σ : Subst)
    → Run s1 s2 σ
    → StackCompatible (apply_stack σ s1) (apply_stack σ s2)
Run-sound s1 s2 σ (at_end e) = compatible_of_eq _ _ (ap (apply_stack empty_subst) e)
Run-sound s1 s2 σ (row_left x o f) =
    compatible_of_eq _ _ (row_single_hit x s2 ∙ sym (row_single-other x s2 s2 o))
Run-sound s1 s2 σ (row_right x o f) =
    compatible_of_eq _ _ (row_single-other x s1 s1 o ∙ sym (row_single_hit x s1))
Run-sound s1 s2 σ (top_agrees {r1 = r1} {r2 = r2} {t1 = t1} {t2 = t2} {τ = τ} c r) =
    StackCompatible-cons empty_subst τ r1 r2 t1 t2 (Apart-empty τ)
      (Compatible-apply empty_subst t1 t2 c)
      (rw (empty-stack r1, empty-stack r2) (Run-sound r1 r2 τ r))
Run-sound s1 s2 σ (top_left {r1 = r1} {r2 = r2} {t = t} {τ = τ} x ne f r) =
    let free = Run-Free x _ _ τ (avoids-single x t ne r1) (avoids-single x t ne r2) r in
    StackCompatible-cons (single x t) τ r1 r2 (var x) t (Apart-single x t τ free)
      (same (single_hit x t ∙ sym (single-other x t t ne))) (Run-sound _ _ τ r)
Run-sound s1 s2 σ (top_right {r1 = r1} {r2 = r2} {t = t} {τ = τ} x ne f r) =
    let free = Run-Free x _ _ τ (avoids-single x t ne r1) (avoids-single x t ne r2) r in
    StackCompatible-cons (single x t) τ r1 r2 t (var x) (Apart-single x t τ free)
      (same (single-other x t t ne ∙ sym (single_hit x t))) (Run-sound _ _ τ r)

-- If `unify_stacks` returns a substitution for two stack types without quotations and closures,
-- with it they have the same shape, and at each place the same type, or a union on one side and
-- the bare variant on the other.
pub unify_stacks-sound :
    (f : ℕ) (s1 s2 : StackType) (σ : Subst)
    → IsFlatStack s1
    → IsFlatStack s2
    → unify_stacks f s1 s2 ≡ ok σ
    → StackCompatible (apply_stack σ s1) (apply_stack σ s2)
unify_stacks-sound f s1 s2 σ g h e = Run-sound s1 s2 σ (Run-unify_stacks f s1 s2 σ g h e)
