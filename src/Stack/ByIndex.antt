-- ===== src/Stack/ByIndex.antt =====
-- `patch_seq_pick_op` and the index that it shares with `patch_seq_roll` (crates/core/src/stack.rs).
pub mod Roll
use patch_seq.Base.{
  ℕ, zero, suc, ◌+◌, ◌-◌, ◌<◌, ◌≤◌, ◌≡◌, refl, sym, ◌∙◌, ap, ap₂, Bool, true, false, List, [], ◌∷◌,
  ◌++◌, arith, length, count, if◌then◌else◌, ◌==◌, leb, some, length-append, ◌≢◌,
}
use patch_seq.Value.{Value, int, bool}
use patch_seq.Word.{is_inline, i64_min}
use patch_seq.Machine.{
  Heap, Machine, ok, M, ◌>>=◌, ◌>>◌, pure, update, OpName, pick, roll, RuntimeError, expected_int,
  negative_index, exceeds_depth,
}
use patch_seq.Machine.Owns.{Owns, decode, Decodes}
use patch_seq.Machine.Arc.Laws.{clone_stack_value_lem}
use patch_seq.Stack.{
  pop, pick_op, roll_op, pop_and_validate_index, validate_index, valid, invalid, pick_index,
  roll_index, check_depth_for_index,
}
use patch_seq.Stack.Represents.{
  view, Represents, Frame, Gives, Does, sub_one, sub_two, add_one, view_write1, view_write2,
  Frame-trans,
}
use patch_seq.Stack.Ends.{pop_lem}

-- The operation consumes the index, leaves the rest of the stack and sets the error.
abbrev pub Refuses : (ℕ → M ℕ) → (ℕ → ℕ) → Machine → ℕ → Value → List Value → RuntimeError → Type 0
Refuses op ext m b v s e =
    (m' : Machine) × (op (b + length (v ∷ s)) m ≡ ok (b + length s) m')
    × Represents ext m' b s
    × (m'.error ≡ some e)
    × (m'.base ≡ m.base)
    × ((p : ℕ) → p < b → m'.slots p ≡ m.slots p)

-- The word at the place of a value stands for that value.
pub decode_at :
    (h : Heap) (slots : ℕ → ℕ) (b : ℕ) (us : List Value) (v : Value) (ts : List Value)
    → Decodes h (view slots b (length (us ++ (v ∷ ts)))) (us ++ (v ∷ ts))
    → decode h (slots (b + length ts)) ≡ some v
decode_at h slots b [] v ts d = d.0
decode_at h slots b (u ∷ us) v ts d = decode_at h slots b us v ts d.1

pub length_middle :
    (us : List Value) (v : Value) (ts : List Value)
    → length (us ++ (v ∷ ts)) ≡ length us + suc (length ts)
length_middle us v ts = length-append us (v ∷ ts)

-- `sp - (n + 1)` is the place of the value at depth `n`.
pub place :
    (b : ℕ) (us : List Value) (v : Value) (ts : List Value)
    → b + length (us ++ (v ∷ ts)) - (length us + 1) ≡ b + length ts
place b us v ts = omega (arith, length_middle us v ts)

module _ (ext : ℕ → ℕ) (m : Machine) (b : ℕ) where
  -- A valid index is popped and handed on.
  pub index_valid :
      (op : OpName) (n : ℕ) (s : List Value)
      → n < i64_min
      → Represents ext m b (int n ∷ s)
      → Gives (λ sp. pop_and_validate_index sp op) (λ sp. valid sp n) ext m b (int n ∷ s) s
  unfolding pop_and_validate_index
  index_valid op n s small r =
      let (m', run, r', f) = pop_lem ext m b (int n) s r in
      let ok_index : leb i64_min n ≡ false = ground arith in (m', rw (run, ok_index) refl, r', f)

  -- With the base of the stack set and an index below 2 ^ 63 on top that is less than the number
  -- of values under it, `pick_op` puts a copy of the value at that depth in the place of the
  -- index, with every reference count exact.
  pub pick_op_lem :
      (us : List Value) (v : Value) (ts : List Value)
      → m.base ≡ b
      → length us < i64_min
      → Represents ext m b (int (length us) ∷ (us ++ (v ∷ ts)))
      → Does pick_op ext m b (int (length us) ∷ (us ++ (v ∷ ts))) (v ∷ (us ++ (v ∷ ts)))
  unfolding pick_op
  pick_op_lem us v ts base small r =
      let s = us ++ (v ∷ ts) in
      let n = length us in
      let (m', run, r', f) = index_valid pick n s small r in
      let x = m'.slots (b + length ts) in
      let (h, run', owns) =
        clone_stack_value_lem ext m' _ s x v (decode_at m'.heap m'.slots b us v ts r'.decoded) r' in
      let deep : leb (b + length s - m'.base) n ≡ false =
        ground (arith, f.base, length_middle us v ts) in
      (
        record m' { slots = update m'.slots (b + length s) x; heap = h },
        rw (run, deep, place b us v ts, run', add_one) refl,
        rw (view_write1 m'.slots b (length s) x) owns,
        Frame-trans f (record { below = λ p q. ground arith; base = refl; error = refl }),
      )

  -- With the base of the stack set and an index below 2 ^ 63 on top that is at least the number of
  -- values under it, `pick_op` consumes the index, leaves the other values and sets the depth
  -- error.
  pub pick_op_deep :
      (n : ℕ) (s : List Value)
      → m.base ≡ b
      → n < i64_min
      → length s ≤ n
      → Represents ext m b (int n ∷ s)
      → Refuses pick_op ext m b (int n) s (exceeds_depth pick n (length s))
  unfolding pick_op
  pick_op_deep n s base small far r =
      let (m', run, r', f) = index_valid pick n s small r in
      let depth : b + length s - m'.base ≡ length s = omega (arith, f.base) in
      let shallow : leb (length s) n ≡ true = ground arith in
      (
        record m' { error = some (exceeds_depth pick n (length s)) },
        rw (run, depth, shallow) refl,
        r',
        refl,
        f.base,
        f.below,
      )

-- A value that is no index: an Int with the sign bit, or anything but an Int.
abbrev pub BadIndex : Value → Type 0
BadIndex (int i) = i64_min ≤ i
BadIndex v = Unit

abbrev pub index_error : OpName → Value → RuntimeError
index_error op (int i) = negative_index op i
index_error op v = expected_int op

validate_bad :
    (op : OpName) (sp : ℕ) (v : Value) (m : Machine)
    → BadIndex v
    → validate_index op sp v m ≡ ok (invalid sp) (record m { error = some (index_error op v) })
validate_bad op sp (int i) m h = let e : leb i64_min i ≡ true = ground arith in rw e refl
validate_bad op sp v m h = refl

module _ (ext : ℕ → ℕ) (m : Machine) (b : ℕ) (v : Value) (s : List Value) (bad : BadIndex v) where
  -- If the value on top is an Int below zero or no Int, `pick_op` and `roll_op` consume it, leave
  -- the other values and set the error that says so.
  pub bad_index :
      Represents ext m b (v ∷ s)
      → Refuses pick_op ext m b v s (index_error pick v)
        × Refuses roll_op ext m b v s (index_error roll v)
  unfolding pick_op roll_op
  bad_index r =
      let (m', run, r', f) = pop_lem ext m b v s r in
      (
        (
          record m' { error = some (index_error pick v) },
          rw (run, validate_bad pick (b + length s) v m' bad) refl,
          r',
          refl,
          f.base,
          f.below,
        ),
        (
          record m' { error = some (index_error roll v) },
          rw (run, validate_bad roll (b + length s) v m' bad) refl,
          r',
          refl,
          f.base,
          f.below,
        ),
      )
