-- ===== src/Variant/Lists/Get.antt =====
-- `get` of crates/runtime/src/list_ops/access.rs on every pair of operands.
use patch_seq.Base.{
  ℕ, ◌+◌, ◌-◌, ◌<◌, ◌≡◌, refl, true, false, Option, none, some, List, [], ◌∷◌, arith, ◌==◌, leb,
  ltb, if◌then◌else◌, length, get_elem?,
}
use patch_seq.Word.{i64_min}
use patch_seq.Value.{Value, int, bool, variant}
use patch_seq.Value.Fields.{fields}
use patch_seq.Machine.{
  Machine, ok, M, RuntimeError, OpName, list_get, expected_int, expected_variant, stack_underflow,
}
use patch_seq.Machine.Arc.{Allocator}
use patch_seq.Machine.Arc.Laws.{stored}
use patch_seq.Stack.Represents.{Represents}
use patch_seq.Variant.Lists.{get, stack_depth}
use patch_seq.Variant.Room.{Room}

-- The operation leaves `vs'` on the stack and `e` as the pending error, and touches nothing below.
abbrev pub Leaves :
    (ℕ → M ℕ) → (ℕ → ℕ) → Machine → ℕ → List Value → List Value → Option RuntimeError → Type 0
Leaves op ext m b vs vs' e =
    (m' : Machine) × (op (b + length vs) m ≡ ok (b + length vs') m')
    × Represents ext m' b vs'
    × (m'.error ≡ e)
    × (m'.base ≡ m.base)
    × ((p : ℕ) → p < b → m'.slots p ≡ m.slots p)

-- What a lookup leaves: the value and `true`, or 0 and `false`.
abbrev pub flagged : Option Value → List Value
flagged none = bool false ∷ int 0 ∷ []
flagged (some v) = bool true ∷ stored v ∷ []

abbrev pub RoomFor : Allocator → (Machine) → Option Value → Type 0
RoomFor alloc m none = Unit
RoomFor alloc m (some v) = Room alloc m.heap v

-- The field that a list operation finds; an index of 2 ^ 63 or more is negative.
abbrev pub get_result : (index list : Value) → Option Value
get_result (int i) (variant tag fs) = if leb i64_min i then none else get_elem? (fields fs) i
get_result _ _ = none

abbrev pub get_error : OpName → (index list : Value) → Option RuntimeError → Option RuntimeError
get_error op (int i) (variant tag fs) e = e
get_error op (int i) list e = some (expected_variant op)
get_error op index list e = some (expected_int op)

-- The depth of a stack whose base is set.
stack_depth_lem : (b n : ℕ) (m : Machine) → m.base ≡ b → 0 < b → stack_depth (b + n) m ≡ ok n m
unfolding stack_depth
stack_depth_lem b n m base pos =
    let p : (b + n == 0) ≡ false = ground arith in
    let q : (m.base == 0) ≡ false = ground arith in
    let d : b + n - m.base ≡ n = omega arith in rw (p, q, d) refl

-- With fewer than two values above its base, `get` leaves the stack as it is and sets the error.
pub get_underflow :
    (alloc : Allocator) (ext : ℕ → ℕ) (m : Machine) (b : ℕ) (s : List Value)
    → m.base ≡ b
    → 0 < b
    → length s < 2
    → Represents ext m b s
    → Leaves (get alloc) ext m b s s (some (stack_underflow list_get))
unfolding get
get_underflow alloc ext m b s base pos few r =
    let shallow : ltb (length s) 2 ≡ true = ground arith in
    (
      record m { error = some (stack_underflow list_get) },
      rw (stack_depth_lem b (length s) m base pos, shallow) refl,
      r,
      refl,
      refl,
      λ p h. refl,
    )
