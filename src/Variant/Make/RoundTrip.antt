-- ===== src/Variant/Make/RoundTrip.antt =====
-- `patch_seq_unpack_variant` after a constructor of crates/runtime/src/variant_ops/make.rs.
use patch_seq.Base.{ℕ, ◌+◌, ◌≡◌, refl, sym, ◌∙◌, ap, List, [], ◌∷◌, ◌++◌, arith, length, map, subst}
use patch_seq.Value.{Value, symbol, variant}
use patch_seq.Value.Fields.{fields, values, fields-values}
use patch_seq.Machine.{Heap, Machine, ok, M, ◌>>=◌}
use patch_seq.Machine.Arc.{Allocator}
use patch_seq.Machine.Arc.Laws.{stored}
use patch_seq.Stack.Represents.{Represents, Does, Frame-trans}
use patch_seq.Variant.{unpack_variant}
use patch_seq.Variant.Room.{Shrinks, Room}
use patch_seq.Variant.Make.{make_variant}
use patch_seq.Variant.Make.Laws.{onto, RoomForAll, make_variant_lem, unpack_variant_lem}

length-onto : (vs us : List Value) → length (onto vs us) ≡ length vs + length us
length-onto [] us = ground arith
length-onto (v ∷ vs) us = ground (arith, length-onto vs (v ∷ us))

onto-onto :
    (vs us s : List Value)
    → onto (map stored (onto vs us)) s ≡ onto (map stored us) (map stored vs ++ s)
onto-onto [] us s = refl
onto-onto (v ∷ vs) us s = onto-onto vs (v ∷ us) s

-- The constructor for `n` fields and then `unpack_variant` of as many.
unfoldable pub make_then_unpack : (n : ℕ) → Allocator → ℕ → M ℕ
make_then_unpack n alloc stack = do
  stack' ← make_variant n alloc stack
  unpack_variant alloc stack' n

-- On a stack with a symbol above some number of values, with room for a variant in the heap and, after
-- it is made, for its fields: making the variant of these values and unpacking as many fields leaves
-- the values in their order, without the symbol, the Ints wrapped to 63 bits, and touches nothing
-- below.
pub make_variant-unpack_variant_round_trip :
    (alloc : Allocator) (ext : ℕ → ℕ) (m : Machine) (b : ℕ) (tag : List ℕ) (vs s : List Value)
    → Room alloc m.heap (variant tag (values (onto vs [])))
    → ((m' : Machine) (sp sp' : ℕ) (h : Heap)
        → make_variant (length vs) alloc sp m ≡ ok sp' m'
        → Shrinks m'.heap h
        → RoomForAll alloc h (onto vs []))
    → Represents ext m b (symbol tag ∷ vs ++ s)
    → Does (make_then_unpack (length vs) alloc) ext m b (symbol tag ∷ vs ++ s) (map stored vs ++ s)
unfolding make_then_unpack
make_variant-unpack_variant_round_trip alloc ext m b tag vs s room more r =
    let made = onto vs [] in
    let e : fields (values made) ≡ made = fields-values made in
    let n : length (fields (values made)) ≡ length vs =
      ap length e ∙ length-onto vs [] ∙ omega arith in
    let left = onto (map stored (fields (values made))) s in
    let same : left ≡ map stored vs ++ s =
      ap (λ fs. onto (map stored fs) s) e ∙ onto-onto vs [] s in
    let (m1, run1, r1, f1) = make_variant_lem alloc ext m b tag vs s room r in
    let made_at = b + length (variant tag (values made) ∷ s) in
    let (m2, run2, r2, f2) =
      unpack_variant_lem alloc ext m1 b tag (values made) s
        (λ h sh. subst (RoomForAll alloc h) (sym e) (more m1 _ _ h run1 sh)) r1 in
    let run : unpack_variant alloc made_at (length vs) m1 ≡ ok (b + length left) m2 =
      subst (λ k. unpack_variant alloc made_at k m1 ≡ ok (b + length left) m2) n run2 in
    subst (Does (make_then_unpack (length vs) alloc) ext m b (symbol tag ∷ vs ++ s)) same
      (m2, rw run1 run, r2, Frame-trans f1 f2)
