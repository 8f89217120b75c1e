-- ===== src/Unify/Absorbs.antt =====
-- When one substitution is an instance of another, and what `compose` and a single binding do to
-- that relation.
use Prim.Native.String.{String}
use text.Mathlib.Text.{◌==◌}
use text.Mathlib.TextEquality.{eq_iff}
use text.Mathlib.TextPositions.{eq_refl}
use patch_seq.Base.{
  ℕ, suc, false, none, some, ◌≡◌, refl, sym, ◌∙◌, ap, ap₂, Bool-cases, Option-cases, inl, inr, ◌⊎◌,
}
use patch_seq.Types.{Ty, StackType, var, empty, cons, row_var}
use patch_seq.Unify.{Subst, empty_subst, insert, apply_type, apply_stack, compose}
use patch_seq.Unify.Flat.{single}

-- The number of types above the end of a stack type.
abbrev pub height : StackType → ℕ
height (cons rest top) = suc (height rest)
height s = 0

-- After `σ` the substitution `θ` gives what it gives alone: `θ` is an instance of `σ`.
pub record Absorbs (θ σ : Subst) : Type 0 where
  pub on_types : (k : String) → apply_type θ (apply_type σ (var k)) ≡ apply_type θ (var k)
  pub on_rows : (r : String) → apply_stack θ (apply_stack σ (row_var r)) ≡ apply_stack θ (row_var r)

module _ (θ σ : Subst) (a : Absorbs θ σ) where
  pub absorbs_type : (t : Ty) → apply_type θ (apply_type σ t) ≡ apply_type θ t
  unfolding apply_type
  absorbs_type (var k) = a.on_types k
  absorbs_type t = refl

  pub absorbs_stack : (s : StackType) → apply_stack θ (apply_stack σ s) ≡ apply_stack θ s
  unfolding apply_stack
  absorbs_stack (row_var r) = a.on_rows r
  absorbs_stack (cons rest top) = ap₂ cons (absorbs_stack rest) (absorbs_type top)
  absorbs_stack empty = refl

pub Absorbs-empty : (θ : Subst) → Absorbs θ empty_subst
unfolding apply_type apply_stack empty_subst
Absorbs-empty θ = record { on_types = λ k. refl; on_rows = λ r. refl }

-- A binding of one name, read at a name.
pub single_hit : (x : String) (t : Ty) → apply_type (single x t) (var x) ≡ t
unfolding apply_type empty_subst
single_hit x t = rw (eq_refl x) refl

pub single_miss :
    (x k : String) (t : Ty) → (k == x) ≡ false → apply_type (single x t) (var k) ≡ var k
unfolding apply_type empty_subst
single_miss x k t p = rw p refl

abbrev pub row_single : String → StackType → Subst
row_single x s = record empty_subst { rows = insert x s empty_subst.rows }

pub row_single_miss :
    (x k : String) (s : StackType)
    → (k == x) ≡ false
    → apply_stack (row_single x s) (row_var k) ≡ row_var k
unfolding apply_stack empty_subst
row_single_miss x k s p = rw p refl

pub row_single_hit : (x : String) (s : StackType) → apply_stack (row_single x s) (row_var x) ≡ s
unfolding apply_stack empty_subst
row_single_hit x s = rw (eq_refl x) refl

pub Absorbs-single :
    (θ : Subst) (x : String) (t : Ty)
    → apply_type θ (var x) ≡ apply_type θ t
    → Absorbs θ (single x t)
unfolding apply_stack empty_subst
Absorbs-single θ x t e = record { on_types = at_var; on_rows = λ r. refl }
  where
    at_var : (k : String) → apply_type θ (apply_type (single x t) (var k)) ≡ apply_type θ (var k)
    at_var k = elim (Bool-cases (k == x)) [
      | inl p ↦ rw ((eq_iff k x).0 p, single_hit x t) (sym e)
      | inr p ↦ rw (single_miss x k t p) refl
    ]

pub Absorbs-row_single :
    (θ : Subst) (x : String) (s : StackType)
    → apply_stack θ (row_var x) ≡ apply_stack θ s
    → Absorbs θ (row_single x s)
unfolding apply_type empty_subst
Absorbs-row_single θ x s e = record { on_types = λ k. refl; on_rows = at_row }
  where
    at_row :
        (k : String)
        → apply_stack θ (apply_stack (row_single x s) (row_var k)) ≡ apply_stack θ (row_var k)
    at_row k = elim (Bool-cases (k == x)) [
      | inl p ↦ rw ((eq_iff k x).0 p, row_single_hit x s) (sym e)
      | inr p ↦ rw (row_single_miss x k s p) refl
    ]

-- What `compose` does to a name.
pub compose_type :
    (σ τ : Subst) (k : String)
    → ((v : Ty) × (τ.types k ≡ some v) × (apply_type (compose σ τ) (var k) ≡ apply_type σ v))
      ⊎ ((τ.types k ≡ none)
          × (apply_type (compose σ τ) (var k) ≡ apply_type τ (apply_type σ (var k))))
unfolding compose apply_type
compose_type σ τ k = elim (Option-cases (τ.types k)) [
  | inl e ↦ inr (e, second e)
  | inr (v, e) ↦ inl (v, e, rw e refl)
]
  where
    second :
        τ.types k ≡ none → apply_type (compose σ τ) (var k) ≡ apply_type τ (apply_type σ (var k))
    second e = elim (Option-cases (σ.types k)) [
      | inl q ↦ rw (e, q, e) refl
      | inr (w, q) ↦ rw (e, q) refl
    ]

pub compose_row :
    (σ τ : Subst) (k : String)
    → ((v : StackType) × (τ.rows k ≡ some v)
        × (apply_stack (compose σ τ) (row_var k) ≡ apply_stack σ v))
      ⊎ ((τ.rows k ≡ none)
          × (apply_stack (compose σ τ) (row_var k) ≡ apply_stack τ (apply_stack σ (row_var k))))
unfolding compose apply_stack
compose_row σ τ k = elim (Option-cases (τ.rows k)) [
  | inl e ↦ inr (e, second e)
  | inr (v, e) ↦ inl (v, e, rw e refl)
]
  where
    second :
        τ.rows k ≡ none
        → apply_stack (compose σ τ) (row_var k) ≡ apply_stack τ (apply_stack σ (row_var k))
    second e = elim (Option-cases (σ.rows k)) [
      | inl q ↦ rw (e, q, e) refl
      | inr (w, q) ↦ rw (e, q) refl
    ]

pub type_entry : (τ : Subst) (k : String) (v : Ty) → τ.types k ≡ some v → apply_type τ (var k) ≡ v
unfolding apply_type
type_entry τ k v e = rw e refl

pub row_entry :
    (τ : Subst) (k : String) (v : StackType) → τ.rows k ≡ some v → apply_stack τ (row_var k) ≡ v
unfolding apply_stack
row_entry τ k v e = rw e refl

pub Absorbs-compose : (θ σ τ : Subst) → Absorbs θ σ → Absorbs θ τ → Absorbs θ (compose σ τ)
Absorbs-compose θ σ τ a b = record {
  on_types = λ k. elim (compose_type σ τ k) [
    | inl (v, e, q) ↦
        ap (apply_type θ) q
        ∙ absorbs_type θ σ a v
        ∙ ap (apply_type θ) (sym (type_entry τ k v e))
        ∙ b.on_types k
    | inr (e, q) ↦ ap (apply_type θ) q ∙ absorbs_type θ τ b (apply_type σ (var k)) ∙ a.on_types k
  ];
  on_rows = λ k. elim (compose_row σ τ k) [
    | inl (v, e, q) ↦
        ap (apply_stack θ) q
        ∙ absorbs_stack θ σ a v
        ∙ ap (apply_stack θ) (sym (row_entry τ k v e))
        ∙ b.on_rows k
    | inr (e, q) ↦
        ap (apply_stack θ) q ∙ absorbs_stack θ τ b (apply_stack σ (row_var k)) ∙ a.on_rows k
  ];
}
