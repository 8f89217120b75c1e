-- ===== src/Machine/Arc/Laws.antt =====
-- The ownership of the heap across the conversions and reference-count operations of
-- crates/core/src/stack.rs.
use patch_seq.Base.{ℕ, ◌+◌, ◌≡◌, refl, true, false, some, List, ◌∷◌, Bool-cases, inl, inr}
use patch_seq.Word.{tag_false, tag_true, is_tagged_int, is_inline, tag_int, wrap_i63}
use patch_seq.Word.Laws.{is_tagged_int-tag_int, untag_int-tag_int}
use patch_seq.Value.{Value, int, bool}
use patch_seq.Machine.{Heap, Machine, ok, update}
use patch_seq.Machine.Owns.{decode, Owns, cell_of_decode}
use patch_seq.Machine.Arc.{
  Allocator, released, arc_new, arc_clone, arc_drop, value_to_stack_value, stack_value_to_value,
  clone_stack_value, drop_stack_value,
}
use patch_seq.Machine.Arc.Boxes.{
  cons_inline, tail_inline, retain-Owns, release-Owns, stack_value_to_value_inline,
  stack_value_to_value_heap, new-Owns,
}

-- An Int or a Bool needs no box; any other value needs an address.
abbrev pub HasRoom : Allocator → Heap → Value → Type 0
HasRoom alloc h (int i) = Unit
HasRoom alloc h (bool b) = Unit
HasRoom alloc h v = (a : ℕ) × (alloc.malloc h ≡ some a)

-- A value as the stack gives it back: an Int has its 63 bits.
abbrev pub stored : Value → Value
stored (int i) = int (wrap_i63 i)
stored v = v

tag_int-inline : (i : ℕ) → is_inline (tag_int i) ≡ true
unfolding is_inline
tag_int-inline i = rw is_tagged_int-tag_int refl

decode-tag_int : (h : Heap) (i : ℕ) → decode h (tag_int i) ≡ some (int (wrap_i63 i))
unfolding decode
decode-tag_int h i = rw (is_tagged_int-tag_int, untag_int-tag_int) refl

bool_inline :
    (h : Heap)
    → (is_inline tag_false ≡ true)
      × (decode h tag_false ≡ some (bool false))
      × (is_inline tag_true ≡ true)
      × (decode h tag_true ≡ some (bool true))
unfolding is_inline decode is_tagged_int
bool_inline h = (refl, refl, refl, refl)

module _ (ext : ℕ → ℕ) (m : Machine) (ws : List ℕ) (vs : List Value) where
  -- `clone_stack_value` of a word that stands for `v` returns that word and owns it once more.
  pub clone_stack_value_lem :
      (w : ℕ) (v : Value)
      → decode m.heap w ≡ some v
      → Owns ext m.heap ws vs
      → (h : Heap) × (clone_stack_value w m ≡ ok w (record m { heap = h }))
        × Owns ext h (w ∷ ws) (v ∷ vs)
  unfolding clone_stack_value
  clone_stack_value_lem w v d o = elim (Bool-cases (is_inline w)) [
    | inl i ↦ (m.heap, rw i refl, cons_inline ext m.heap ws vs w v i d o)
    | inr i ↦
        let (c, e, _) = cell_of_decode m.heap w v i d in
        (
          update m.heap w (some (record c { strong = c.strong + 1 })),
          rw (i, e, arc_clone) refl,
          retain-Owns ext m.heap w c ws vs v i e d o,
        )
  ]

  -- `drop_stack_value` of an owned word gives its reference back.
  pub drop_stack_value_lem :
      (w : ℕ) (v : Value)
      → Owns ext m.heap (w ∷ ws) (v ∷ vs)
      → (h : Heap) × (drop_stack_value w m ≡ ok tt (record m { heap = h })) × Owns ext h ws vs
  unfolding drop_stack_value
  drop_stack_value_lem w v o = elim (Bool-cases (is_inline w)) [
    | inl i ↦ (m.heap, rw i refl, tail_inline ext m.heap ws vs w v i o)
    | inr i ↦
        let (c, e, _) = cell_of_decode m.heap w v i o.decoded.0 in
        (
          update m.heap w (released c),
          rw (i, e, arc_drop) refl,
          release-Owns ext m.heap w c ws vs v i e o,
        )
  ]

  -- `stack_value_to_value` of an owned word is the value that it stands for, and gives its
  -- reference back.
  pub stack_value_to_value_lem :
      (w : ℕ) (v : Value)
      → Owns ext m.heap (w ∷ ws) (v ∷ vs)
      → (h : Heap) × (stack_value_to_value w m ≡ ok v (record m { heap = h })) × Owns ext h ws vs
  unfolding stack_value_to_value
  stack_value_to_value_lem w v o = elim (Bool-cases (is_inline w)) [
    | inl i ↦ (
      m.heap,
      stack_value_to_value_inline m w v i o.decoded.0,
      tail_inline ext m.heap ws vs w v i o,
    )
    | inr i ↦
        let (c, e, q) = cell_of_decode m.heap w v i o.decoded.0 in
        (
          update m.heap w (released c),
          stack_value_to_value_heap m w v c i e q,
          release-Owns ext m.heap w c ws vs v i e o,
        )
  ]

  -- What a boxed value becomes: a word that owns a box of its own.
  arc_new_lem :
      (alloc : Allocator) (v : Value) (a : ℕ)
      → alloc.malloc m.heap ≡ some a
      → Owns ext m.heap ws vs
      → (h : Heap) × (arc_new alloc v m ≡ ok a (record m { heap = h }))
        × Owns ext h (a ∷ ws) (v ∷ vs)
  unfolding arc_new
  arc_new_lem alloc v a e o = (
    update m.heap a (some (record { value = v; strong = 1 })),
    rw (e, arc_new) refl,
    new-Owns ext m.heap ws vs a v (alloc.malloc_free m.heap a e) (alloc.malloc_aligned m.heap a e)
        o,
  )

  -- `value_to_stack_value` returns a word that owns the value, an Int in its 63-bit form.
  pub value_to_stack_value_lem :
      (alloc : Allocator) (v : Value)
      → HasRoom alloc m.heap v
      → Owns ext m.heap ws vs
      → (w : ℕ) × (h : Heap) × (value_to_stack_value alloc v m ≡ ok w (record m { heap = h }))
        × Owns ext h (w ∷ ws) (stored v ∷ vs)
  unfolding value_to_stack_value
  value_to_stack_value_lem alloc (int i) _ o = (
    tag_int i,
    m.heap,
    refl,
    cons_inline ext m.heap ws vs (tag_int i) (int (wrap_i63 i)) (tag_int-inline i)
        (decode-tag_int m.heap i) o,
  )
  value_to_stack_value_lem alloc (bool false) _ o = (
    tag_false,
    m.heap,
    refl,
    cons_inline ext m.heap ws vs tag_false (bool false) (bool_inline m.heap).0
        (bool_inline m.heap).1 o,
  )
  value_to_stack_value_lem alloc (bool true) _ o = (
    tag_true,
    m.heap,
    refl,
    cons_inline ext m.heap ws vs tag_true (bool true) (bool_inline m.heap).2 (bool_inline m.heap).3
        o,
  )
  value_to_stack_value_lem alloc v (a, e) o =
      let (h, run, owns) = arc_new_lem alloc v a e o in (a, h, run, owns)
