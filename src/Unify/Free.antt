-- ===== src/Unify/Free.antt =====
-- A variable that a step has bound occurs in nothing that the later steps see or return.
use Prim.Native.String.{String}
use text.Mathlib.Text.{◌==◌}
use text.Mathlib.TextEquality.{eq_iff}
use mathlib.Core.Option
use patch_seq.Base.{
  Bool, true, false, Option, none, some, if◌then◌else◌, ◌≡◌, ◌≢◌, refl, sym, ap, Bool-cases,
  Option-cases, inl, inr, ◌⊎◌, subst,
}
use patch_seq.Types.{Ty, StackType, var, empty, cons, row_var}
use patch_seq.Unify.{Subst, empty_subst, apply_type, apply_stack, compose, over}
use patch_seq.Unify.Flat.{single}
use patch_seq.Unify.Absorbs.{single_hit, single_miss, row_single}
use patch_seq.Unify.Run.{Run, at_end, row_left, row_right, top_agrees, top_left, top_right}

-- No type of the stack is the variable.
abbrev pub Avoids : String → StackType → Type 0
Avoids x empty = Unit
Avoids x (row_var r) = Unit
Avoids x (cons rest top) = Avoids x rest × (top ≢ var x)

-- The substitution neither binds the variable nor brings it in.
pub record Free (x : String) (σ : Subst) : Type 0 where
  pub unbound : σ.types x ≡ none
  pub types : (k : String) (v : Ty) → σ.types k ≡ some v → v ≢ var x
  pub rows : (k : String) (s : StackType) → σ.rows k ≡ some s → Avoids x s

if_entry : {A : Type 0} (b : Bool) (v w : A) → (if b then some v else none) ≡ some w → v ≡ w
if_entry true v w e = cc
if_entry false v w e = cc

over_entry :
    {A : Type 0} (f g : A → A) (new old : Option A) (w : A)
    → over (Option.map f new) (Option.map g old) ≡ some w
    → ((u : A) × (new ≡ some u) × (f u ≡ w)) ⊎ ((u : A) × (old ≡ some u) × (g u ≡ w))
over_entry f g (some u) old w e = inl (u, refl, cc)
over_entry f g none (some u) w e = inr (u, refl, cc)
over_entry f g none none w e = cc

var-ne : (k x : String) → (k == x) ≡ false → var k ≢ var x
var-ne k x h e = let p : k ≡ x = cc in cc (h, (eq_iff k x).1 p)

pub name-ne : (x y : String) → var y ≢ var x → (x == y) ≡ false
name-ne x y h = elim (Bool-cases (x == y)) [
  | inl e ↦ absurd (h (ap var (sym ((eq_iff x y).0 e))))
  | inr e ↦ e
]

module _ (x : String) (σ : Subst) (free : Free x σ) where
  avoid_type : (t : Ty) → t ≢ var x → apply_type σ t ≢ var x
  unfolding apply_type
  avoid_type (var k) h = elim (Option-cases (σ.types k)) [
    | inl e ↦ rw e h
    | inr (v, e) ↦ rw e (free.types k v e)
  ]
  avoid_type t h = h

  avoid_stack : (s : StackType) → Avoids x s → Avoids x (apply_stack σ s)
  unfolding apply_stack
  avoid_stack empty a = tt
  avoid_stack (row_var r) a = elim (Option-cases (σ.rows r)) [
    | inl e ↦ rw e tt
    | inr (s, e) ↦ rw e (free.rows r s e)
  ]
  avoid_stack (cons rest top) a = (avoid_stack rest a.0, avoid_type top a.1)

pub Free-empty : (x : String) → Free x empty_subst
unfolding empty_subst
Free-empty x = record { unbound = refl; types = λ k v e. cc; rows = λ k s e. cc }

pub Free-single : (x y : String) (t : Ty) → (x == y) ≡ false → t ≢ var x → Free x (single y t)
unfolding empty_subst
Free-single x y t ne h = record {
  unbound = rw ne refl;
  types = λ k v e. subst (λ u. u ≢ var x) (if_entry (k == y) t v e) h;
  rows = λ k s e. cc;
}

Free-row_single : (x y : String) (s : StackType) → Avoids x s → Free x (row_single y s)
unfolding empty_subst
Free-row_single x y s a = record {
  unbound = refl;
  types = λ k v e. cc;
  rows = λ k s' e. subst (Avoids x) (if_entry (k == y) s s' e) a;
}

Free-compose : (x : String) (σ τ : Subst) → Free x σ → Free x τ → Free x (compose σ τ)
unfolding compose
Free-compose x σ τ a b = record {
  unbound = rw (b.unbound, a.unbound) refl;
  types = λ k v e. elim (over_entry (apply_type σ) (apply_type τ) (τ.types k) (σ.types k) v e) [
    | inl (u, q, p) ↦ subst (λ w. w ≢ var x) p (avoid_type x σ a u (b.types k u q))
    | inr (u, q, p) ↦ subst (λ w. w ≢ var x) p (avoid_type x τ b u (a.types k u q))
  ];
  rows = λ k s e. elim (over_entry (apply_stack σ) (apply_stack τ) (τ.rows k) (σ.rows k) s e) [
    | inl (u, q, p) ↦ subst (Avoids x) p (avoid_stack x σ a u (b.rows k u q))
    | inr (u, q, p) ↦ subst (Avoids x) p (avoid_stack x τ b u (a.rows k u q))
  ];
}

-- A binding with a type that is not the variable itself leaves no trace of the variable.
single_var-ne : (x k : String) (t : Ty) → t ≢ var x → apply_type (single x t) (var k) ≢ var x
single_var-ne x k t ne = elim (Bool-cases (k == x)) [
  | inl e ↦ rw ((eq_iff k x).0 e, single_hit x t) ne
  | inr e ↦ rw (single_miss x k t e) (var-ne k x e)
]

avoids-single_type :
    (x : String) (t : Ty) → t ≢ var x → (u : Ty) → apply_type (single x t) u ≢ var x
unfolding apply_type
avoids-single_type x t ne (var k) = single_var-ne x k t ne
avoids-single_type x t ne u = λ e. cc

pub avoids-single :
    (x : String) (t : Ty) → t ≢ var x → (s : StackType) → Avoids x (apply_stack (single x t) s)
unfolding apply_stack empty_subst
avoids-single x t ne empty = tt
avoids-single x t ne (row_var r) = tt
avoids-single x t ne (cons rest top) = (avoids-single x t ne rest, avoids-single_type x t ne top)

pub Run-Free :
    (x : String) (s1 s2 : StackType) (σ : Subst)
    → Avoids x s1
    → Avoids x s2
    → Run s1 s2 σ
    → Free x σ
Run-Free x s1 s2 σ a b (at_end e) = Free-empty x
Run-Free x s1 s2 σ a b (row_left y o f) = Free-row_single x y s2 b
Run-Free x s1 s2 σ a b (row_right y o f) = Free-row_single x y s1 a
Run-Free x s1 s2 σ a b (top_agrees {r1 = r1} {r2 = r2} {τ = τ} c r) =
    Free-compose x empty_subst τ (Free-empty x) (Run-Free x r1 r2 τ a.0 b.0 r)
Run-Free x s1 s2 σ a b (top_left {r1 = r1} {r2 = r2} {t = t} {τ = τ} y ne f r) =
    let free = Free-single x y t (name-ne x y a.1) b.1 in
    Free-compose x (single y t) τ free (
      Run-Free x _ _ τ (avoid_stack x (single y t) free r1 a.0)
        (avoid_stack x (single y t) free r2 b.0) r)
Run-Free x s1 s2 σ a b (top_right {r1 = r1} {r2 = r2} {t = t} {τ = τ} y ne f r) =
    let free = Free-single x y t (name-ne x y b.1) a.1 in
    Free-compose x (single y t) τ free (
      Run-Free x _ _ τ (avoid_stack x (single y t) free r1 a.0)
        (avoid_stack x (single y t) free r2 b.0) r)
