-- ===== src/Variant/Make/Laws.antt =====
-- The constructors of crates/runtime/src/variant_ops/make.rs and `patch_seq_unpack_variant`.
use patch_seq.Base.{ℕ, ◌+◌, ◌≡◌, refl, false, List, [], ◌∷◌, ◌++◌, arith, ltb, length, map}
use patch_seq.Value.{Value, Values, symbol, variant}
use patch_seq.Value.Fields.{fields, values}
use patch_seq.Machine.{Heap, Machine, ok}
use patch_seq.Machine.Arc.{Allocator}
use patch_seq.Machine.Arc.Laws.{HasRoom, stored}
use patch_seq.Stack.{push}
use patch_seq.Stack.Represents.{Represents, Does, Frame, Frame-trans}
use patch_seq.Stack.Ends.{pop_lem, push_lem}
use patch_seq.Variant.{expect_variant, push_fields, unpack_variant}
use patch_seq.Variant.Room.{Shrinks, Room, pop-Shrinks, Shrinks-trans}
use patch_seq.Variant.Make.{expect_symbol, pop_fields, make_variant}

-- The second list with the elements of the first put on it one by one.
abbrev pub onto : List Value → List Value → List Value
onto [] vs = vs
onto (u ∷ us) vs = onto us (u ∷ vs)

pop_fields_lem :
    (ext : ℕ → ℕ) (m : Machine) (b : ℕ) (vs fs s : List Value)
    → Represents ext m b (vs ++ s)
    → (m' : Machine) × (pop_fields (length vs) (b + length (vs ++ s)) fs m
        ≡ ok (b + length s, onto vs fs) m')
      × Represents ext m' b s
      × Frame b m m'
      × Shrinks m.heap m'.heap
unfolding pop_fields
pop_fields_lem ext m b [] fs s r =
    (m, refl, r, record { below = λ p h. refl; base = refl; error = refl }, λ a n. n)
pop_fields_lem ext m b (v ∷ vs) fs s r =
    let (m1, run1, r1, f1) = pop_lem ext m b v (vs ++ s) r in
    let (m2, run2, r2, f2, sh) = pop_fields_lem ext m1 b vs (v ∷ fs) s r1 in
    (m2, rw run1 run2, r2, Frame-trans f1 f2, Shrinks-trans (pop-Shrinks _ m m1 _ run1) sh)

-- On a stack with a symbol on top and some number of values under it, with room for a variant in the
-- heap, the constructor for that number leaves the variant with that tag and with these values as its
-- fields, the lowest first.
pub make_variant_lem :
    (alloc : Allocator) (ext : ℕ → ℕ) (m : Machine) (b : ℕ) (tag : List ℕ) (vs s : List Value)
    → Room alloc m.heap (variant tag (values (onto vs [])))
    → Represents ext m b (symbol tag ∷ vs ++ s)
    → Does
        (make_variant (length vs) alloc)
        ext
        m
        b
        (symbol tag ∷ vs ++ s)
        (variant tag (values (onto vs [])) ∷ s)
unfolding make_variant expect_symbol
make_variant_lem alloc ext m b tag vs s room r =
    let (m1, run1, r1, f1) = pop_lem ext m b (symbol tag) (vs ++ s) r in
    let (m2, run2, r2, f2, sh) = pop_fields_lem ext m1 b vs [] s r1 in
    let (m3, run3, r3, f3) =
      push_lem ext m2 b alloc (variant tag (values (onto vs []))) s
        (room m2.heap (Shrinks-trans (pop-Shrinks _ m m1 _ run1) sh)) r2 in
    (m3, rw (run1, run2) run3, r3, Frame-trans (Frame-trans f1 f2) f3)

-- There is room for each value after the pushes of those before it.
abbrev pub RoomForAll : Allocator → Heap → List Value → Type 0
RoomForAll alloc h [] = Unit
RoomForAll alloc h (v ∷ vs) =
    HasRoom alloc h v
    × ((m m' : Machine) (sp sp' : ℕ)
        → m.heap ≡ h
        → push alloc sp v m ≡ ok sp' m'
        → RoomForAll alloc m'.heap vs)

push_fields_lem :
    (alloc : Allocator) (ext : ℕ → ℕ) (m : Machine) (b : ℕ) (fs s : List Value)
    → RoomForAll alloc m.heap fs
    → Represents ext m b s
    → Does (λ sp. push_fields alloc sp (length fs) fs) ext m b s (onto (map stored fs) s)
unfolding push_fields
push_fields_lem alloc ext m b [] s room r =
    (m, refl, r, record { below = λ p h. refl; base = refl; error = refl })
push_fields_lem alloc ext m b (v ∷ fs) s (room, more) r =
    let (m1, run1, r1, f1) = push_lem ext m b alloc v s room r in
    let (m2, run2, r2, f2) =
      push_fields_lem alloc ext m1 b fs (stored v ∷ s) (more m m1 _ _ refl run1) r1 in
    (m2, rw run1 run2, r2, Frame-trans f1 f2)

-- On a stack with a variant on top, with room in the heap for its fields, `unpack_variant` with the
-- number of its fields leaves them in its place, the last one on top.
pub unpack_variant_lem :
    (alloc : Allocator) (ext : ℕ → ℕ) (m : Machine) (b : ℕ) (tag : List ℕ) (fs : Values)
    (s : List Value)
    → ((h : Heap) → Shrinks m.heap h → RoomForAll alloc h (fields fs))
    → Represents ext m b (variant tag fs ∷ s)
    → Does
        (λ sp. unpack_variant alloc sp (length (fields fs)))
        ext
        m
        b
        (variant tag fs ∷ s)
        (onto (map stored (fields fs)) s)
unfolding unpack_variant expect_variant
unpack_variant_lem alloc ext m b tag fs s room r =
    let (m1, run1, r1, f1) = pop_lem ext m b (variant tag fs) s r in
    let (m2, run2, r2, f2) =
      push_fields_lem alloc ext m1 b (fields fs) s (room m1.heap (pop-Shrinks _ m m1 _ run1)) r1 in
    let enough : ltb (length (fields fs)) (length (fields fs)) ≡ false = ground arith in
    (m2, rw (run1, enough) run2, r2, Frame-trans f1 f2)
