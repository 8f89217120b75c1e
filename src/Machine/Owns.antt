-- ===== src/Machine/Owns.antt =====
-- When words own the heap: every box is counted once for each word that points to it, and each
-- word stands for a value. This is the specification of the reference counts of
-- crates/core/src/stack.rs.
use patch_seq.Base.{
  ℕ, ◌+◌, ◌<◌, ◌≡◌, ◌∙◌, true, false, Option, none, some, List, [], ◌∷◌, arith, ◌==◌, if◌then◌else◌,
  count, Option-cases, ==_refl, inl, inr,
}
use patch_seq.Word.{tag_false, tag_true, is_tagged_int, untag_int, is_inline}
use patch_seq.Value.{Value, int, bool}
use patch_seq.Machine.{Cell, Heap}

abbrev pub cell_value : Option Cell → Option Value
cell_value none = none
cell_value (some c) = some c.value

-- The value that a word stands for; none at a pointer to no box.
unfoldable pub decode : Heap → ℕ → Option Value
decode h w =
    if is_tagged_int w
    then some (int (untag_int w))
    else if w == tag_false
    then some (bool false)
    else if w == tag_true
    then some (bool true)
    else cell_value (h w)

abbrev pub refs : Option Cell → ℕ
refs none = 0
refs (some c) = c.strong

-- The words stand for the values, one by one.
abbrev pub Decodes : Heap → List ℕ → List Value → Type 0
Decodes h [] [] = Unit
Decodes h (w ∷ ws) (v ∷ vs) = (decode h w ≡ some v) × Decodes h ws vs
Decodes h _ _ = ⊥

-- `ext a` counts the references to `a` from elsewhere.
pub record Owns (ext : ℕ → ℕ) (h : Heap) (ws : List ℕ) (vs : List Value) : Type 0 where
  pub counted : (a : ℕ) → is_inline a ≡ false → refs (h a) ≡ count a ws + ext a
  pub positive : (a : ℕ) (c : Cell) → h a ≡ some c → 0 < c.strong
  pub decoded : Decodes h ws vs

-- A word decodes alike in two heaps that agree on the value of its box.
pub decode_cong :
    (h h' : Heap) (w : ℕ) → cell_value (h' w) ≡ cell_value (h w) → decode h' w ≡ decode h w
unfolding decode
decode_cong h h' w e = rw e

-- A pointer that stands for a value leads to a box that holds it.
pub cell_of_decode :
    (h : Heap) (w : ℕ) (v : Value)
    → is_inline w ≡ false
    → decode h w ≡ some v
    → (c : Cell) × (h w ≡ some c) × (c.value ≡ v)
unfolding decode is_inline
cell_of_decode h w v i d = elim (Option-cases (h w)) [
  | inl e ↦ absurd (ground arith)
  | inr (c, e) ↦ (c, e, ground arith)
]

pub Decodes-cong :
    (h h' : Heap) (ws : List ℕ) (vs : List Value)
    → ((w : ℕ) → 0 < count w ws → decode h' w ≡ decode h w)
    → Decodes h ws vs
    → Decodes h' ws vs
Decodes-cong h h' [] [] same d = d
Decodes-cong h h' [] (v ∷ vs) same d = d
Decodes-cong h h' (w ∷ ws) [] same d = d
Decodes-cong h h' (w ∷ ws) (v ∷ vs) same d = (
  same w (rw (==_refl w) (omega arith)) ∙ d.0,
  Decodes-cong h h' ws vs (λ x p. same x (omega arith)) d.1,
)
