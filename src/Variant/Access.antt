-- ===== src/Variant/Access.antt =====
-- The operations that read a variant or a list and push one value
-- (crates/runtime/src/variant_ops/access.rs, crates/runtime/src/list_ops/basic.rs).
use patch_seq.Base.{
  ℕ, ◌+◌, ◌<◌, ◌≤◌, ◌≡◌, refl, true, false, none, some, List, ◌∷◌, arith, ◌==◌, leb, length,
  get_elem?, reverse, ◌⊎◌, inl, inr, Bool-cases,
}
use patch_seq.Word.{i64_min, wrap_i63}
use patch_seq.Value.{Value, Values, int, bool, symbol, variant}
use patch_seq.Value.Fields.{fields, values}
use patch_seq.Machine.{Machine, panicked, M, ◌>>=◌}
use patch_seq.Machine.Arc.{Allocator}
use patch_seq.Machine.Arc.Laws.{stored}
use patch_seq.Stack.{push, pop}
use patch_seq.Stack.Represents.{Represents, Does, Frame-trans}
use patch_seq.Stack.Ends.{pop_lem, push_lem}
use patch_seq.Variant.{expect_variant, field_count, variant_tag, field_at, expect_index, push_field}
use patch_seq.Variant.Lists.{list_empty, list_reverse}
use patch_seq.Variant.Room.{Room, pop-Shrinks, Shrinks-trans}

-- What these operations have in common.
variant_op : Allocator → (List ℕ → List Value → Value) → ℕ → M ℕ
variant_op alloc f stack = do
  (stack', value) ← pop stack
  expect_variant value (λ tag fs. push alloc stack' (f tag fs))

module _ (alloc : Allocator) (ext : ℕ → ℕ) (m : Machine) (b : ℕ) (tag : List ℕ) (fs : Values)
    (s : List Value) (r : Represents ext m b (variant tag fs ∷ s)) where
  variant_op_lem :
      (f : List ℕ → List Value → Value)
      → Room alloc m.heap (f tag (fields fs))
      → Does (variant_op alloc f) ext m b (variant tag fs ∷ s) (stored (f tag (fields fs)) ∷ s)
  unfolding variant_op expect_variant
  variant_op_lem f room =
      let (m1, run1, r1, f1) = pop_lem ext m b (variant tag fs) s r in
      let (m2, run2, r2, f2) =
        push_lem ext m1 b alloc (f tag (fields fs)) s (room m1.heap (pop-Shrinks _ m m1 _ run1))
          r1 in
      (m2, rw run1 run2, r2, Frame-trans f1 f2)

  -- On a stack with a variant on top, with room for a symbol and a variant in the heap: `field_count`
  -- leaves the number of its fields in its place, `variant_tag` its tag as a symbol, `list_empty`
  -- whether it has no fields, and `list_reverse` the variant with its fields reversed.
  pub variant_reads :
      Room alloc m.heap (symbol tag)
      → Room alloc m.heap (variant tag (values (reverse (fields fs))))
      → Does
          (field_count alloc)
          ext
          m
          b
          (variant tag fs ∷ s)
          (int (wrap_i63 (length (fields fs))) ∷ s)
        × Does (variant_tag alloc) ext m b (variant tag fs ∷ s) (symbol tag ∷ s)
        × Does (list_empty alloc) ext m b (variant tag fs ∷ s) (bool (length (fields fs) == 0) ∷ s)
        × Does
            (list_reverse alloc)
            ext
            m
            b
            (variant tag fs ∷ s)
            (variant tag (values (reverse (fields fs))) ∷ s)
  unfolding variant_op field_count variant_tag list_empty list_reverse
  variant_reads room room' = (
    variant_op_lem (λ t us. int (length us)) (λ h sh. tt),
    variant_op_lem (λ t us. symbol t) room,
    variant_op_lem (λ t us. bool (length us == 0)) (λ h sh. tt),
    variant_op_lem (λ t us. variant t (values (reverse us))) room',
  )

-- `field_at` with an Int that is neither negative nor out of bounds leaves that field of the variant
-- below it, if there is room for it in the heap.
pub field_at_lem :
    (alloc : Allocator) (ext : ℕ → ℕ) (m : Machine) (b i : ℕ) (tag : List ℕ) (fs : Values)
    (v : Value) (s : List Value)
    → i < i64_min
    → get_elem? (fields fs) i ≡ some v
    → Room alloc m.heap v
    → Represents ext m b (int i ∷ variant tag fs ∷ s)
    → Does (field_at alloc) ext m b (int i ∷ variant tag fs ∷ s) (stored v ∷ s)
unfolding field_at expect_variant expect_index push_field
field_at_lem alloc ext m b i tag fs v s small e room r =
    let (m1, run1, r1, f1) = pop_lem ext m b (int i) (variant tag fs ∷ s) r in
    let (m2, run2, r2, f2) = pop_lem ext m1 b (variant tag fs) s r1 in
    let (m3, run3, r3, f3) =
      push_lem ext m2 b alloc v s
        (room m2.heap (Shrinks-trans (pop-Shrinks _ m m1 _ run1) (pop-Shrinks _ m1 m2 _ run2)))
        r2 in
    let positive : leb i64_min i ≡ false = ground arith in
    (m3, rw (run1, positive, run2, e, push_field) run3, r3, Frame-trans (Frame-trans f1 f2) f3)

-- An index that names no field: negative, out of bounds, or no Int at all.
abbrev pub NoField : Value → Values → Type 0
NoField (int i) fs = (i64_min ≤ i) ⊎ (get_elem? (fields fs) i ≡ none)
NoField v fs = Unit

-- `field_at` panics with any index that names no field.
pub field_at_panics :
    (alloc : Allocator) (ext : ℕ → ℕ) (m : Machine) (b : ℕ) (k : Value) (tag : List ℕ) (fs : Values)
    (s : List Value)
    → NoField k fs
    → Represents ext m b (k ∷ variant tag fs ∷ s)
    → field_at alloc (b + length (k ∷ variant tag fs ∷ s)) m ≡ panicked
unfolding field_at expect_variant expect_index push_field
field_at_panics alloc ext m b (int i) tag fs s (inl neg) r =
    let (m1, run1, r1, f1) = pop_lem ext m b (int i) (variant tag fs ∷ s) r in
    let negative : leb i64_min i ≡ true = ground arith in rw (run1, negative) refl
field_at_panics alloc ext m b (int i) tag fs s (inr out) r =
    let (m1, run1, r1, f1) = pop_lem ext m b (int i) (variant tag fs ∷ s) r in
    let (m2, run2, r2, f2) = pop_lem ext m1 b (variant tag fs) s r1 in
    elim (Bool-cases (leb i64_min i)) [
      | inl n ↦ rw (run1, n) refl
      | inr p ↦ rw (run1, p, run2, out, push_field) refl
    ]
field_at_panics alloc ext m b k tag fs s h r =
    let (m1, run1, r1, f1) = pop_lem ext m b k (variant tag fs ∷ s) r in rw run1 refl
