-- ===== src/Stack/ByIndex/Roll.antt =====
-- `patch_seq_roll` of crates/core/src/stack.rs: how the slots move, and the errors.
use patch_seq.Base.{
  ℕ, zero, suc, ◌+◌, ◌-◌, ◌<◌, ◌≤◌, ◌≡◌, refl, ◌∙◌, ap, ap₂, true, false, List, [], ◌∷◌, ◌++◌,
  arith, length, count, if◌then◌else◌, ◌==◌, leb, ltb, some, length-append, ◌&&◌, fun_ext, ==_refl,
}
use patch_seq.Value.{Value, int}
use patch_seq.Word.{i64_min}
use patch_seq.Machine.{Heap, Machine, ok, update, roll, exceeds_depth}
use patch_seq.Machine.Owns.{decode, Decodes}
use patch_seq.Stack.{roll_op, roll_index, roll_deep, valid, copy_down, swap}
use patch_seq.Stack.Represents.{view, Represents, Does, view_write1, Frame-trans, Owns-same}
use patch_seq.Stack.Shuffle.{swap_lem, rot_lem}
use patch_seq.Stack.ByIndex.{Refuses, index_valid, length_middle, place, decode_at}

-- The slots after `copy_down`.
abbrev moved : (ℕ → ℕ) → ℕ → ℕ → ℕ → ℕ
moved slots src n q = if leb src q && ltb q (src + n) then slots (q + 1) else slots q

copy_down_lem :
    (n src : ℕ) (m : Machine) → copy_down src n m ≡ ok tt (record m { slots = moved m.slots src n })
unfolding copy_down
copy_down_lem zero src m = ap (λ s. ok tt (record m { slots = s })) (fun_ext λ q. ground arith)
copy_down_lem (suc n) src m =
    copy_down_lem n (src + 1) (record m { slots = update m.slots src (m.slots (src + 1)) })
    ∙ ap (λ s. ok tt (record m { slots = s })) (fun_ext λ q. ground arith)

module _ (h : Heap) (slots : ℕ → ℕ) (b : ℕ) (v : Value) (ts : List Value) (n : ℕ) where
  abbrev after : ℕ → ℕ
  after = moved slots (b + length ts) n

  abbrev from : ℕ
  from = b + length ts

  -- The slots below the source stay.
  view-after_below : (k : ℕ) → k ≤ length ts → view after b k ≡ view slots b k
  view-after_below zero p = refl
  view-after_below (suc k) p = ap₂ ◌∷◌ (ground arith) (view-after_below k (omega arith))

  -- A slot above the source holds the word that was one above it.
  after-shift :
      (us : List Value)
      → length us < n
      → after (b + length (us ++ ts)) ≡ slots (b + length (us ++ (v ∷ ts)))
  after-shift us p =
      let e = length-append us ts in
      let e' = length_middle us v ts in
      let q : b + length (us ++ (v ∷ ts)) ≡ b + length (us ++ ts) + 1 = omega arith in
      rw q (ground arith)

  Decodes-after :
      (us : List Value)
      → length us ≤ n
      → Decodes h (view slots b (length (us ++ (v ∷ ts)))) (us ++ (v ∷ ts))
      → Decodes h (view after b (length (us ++ ts))) (us ++ ts)
  Decodes-after [] p d = rw (view-after_below (length ts) (omega arith)) d.1
  Decodes-after (u ∷ us) p d = (rw (after-shift us p) d.0, Decodes-after us (omega arith) d.1)

  count-after :
      (a : ℕ) (us : List Value)
      → length us ≤ n
      → count a (slots from ∷ view after b (length (us ++ ts)))
        ≡ count a (view slots b (length (us ++ (v ∷ ts))))
  count-after a [] p = rw (view-after_below (length ts) (omega arith)) refl
  count-after a (u ∷ us) p = rw (after-shift us p) (omega (arith, count-after a us (omega arith)))

module _ (ext : ℕ → ℕ) (m : Machine) (b : ℕ) where
  -- The rotation of the slots.
  roll_deep_lem :
      (us : List Value) (v : Value) (ts : List Value)
      → 0 < length us
      → Represents ext m b (us ++ (v ∷ ts))
      → Does (λ sp. roll_deep sp (length us)) ext m b (us ++ (v ∷ ts)) (v ∷ (us ++ ts))
  unfolding roll_deep
  roll_deep_lem us v ts pos r =
      let src = b + length ts in
      let top = b + length (us ++ ts) in
      let x = m.slots src in
      let e : b + length (us ++ (v ∷ ts)) - 1 ≡ top =
        omega (arith, length_middle us v ts, length-append us ts) in
      let e' : b + length (us ++ (v ∷ ts)) ≡ b + suc (length (us ++ ts)) =
        omega (arith, length_middle us v ts, length-append us ts) in
      (
        record m { slots = update (moved m.slots src (length us)) top x },
        rw (place b us v ts, copy_down_lem, e, e') refl,
        rw (view_write1 (moved m.slots src (length us)) b (length (us ++ ts)) x) (
            Owns-same ext m.heap _ _ _ (v ∷ (us ++ ts)) r
              (λ a. count-after m.heap m.slots b v ts (length us) a us (omega arith))
              (
                decode_at m.heap m.slots b us v ts r.decoded,
                Decodes-after m.heap m.slots b v ts (length us) us (omega arith) r.decoded,
              )),
        record { below = λ p q. ground arith; base = refl; error = refl },
      )

  -- What `roll` does with a valid index, on a stack that is deep enough.
  roll_index_lem :
      (us : List Value) (v : Value) (ts : List Value)
      → m.base ≡ b
      → Represents ext m b (us ++ (v ∷ ts))
      → Does (λ sp. roll_index (valid sp (length us))) ext m b (us ++ (v ∷ ts)) (v ∷ (us ++ ts))
  unfolding roll_index
  roll_index_lem [] v ts base r =
      (m, refl, r, record { below = λ p q. refl; base = refl; error = refl })
  roll_index_lem (u ∷ []) v ts base r = swap_lem ext m b u v ts r
  roll_index_lem (u ∷ w ∷ []) v ts base r = rot_lem ext m b u w v ts r
  roll_index_lem (u ∷ w ∷ x ∷ us) v ts base r =
      let n = length (u ∷ w ∷ x ∷ us) in
      let s = u ∷ w ∷ x ∷ (us ++ (v ∷ ts)) in
      let (m', run, r', f) = roll_deep_lem (u ∷ w ∷ x ∷ us) v ts (omega arith) r in
      let zeroth : (n == 0) ≡ false = ground arith in
      let first : (n == 1) ≡ false = ground arith in
      let second : (n == 2) ≡ false = ground arith in
      let deep : leb (b + length s - m.base) n ≡ false =
        ground (arith, length_middle us v ts, base) in
      (m', rw (zeroth, first, second, deep) run, r', f)

-- With the base of the stack set and an index below 2 ^ 63 on top that is less than the number of
-- values under it, `roll_op` consumes the index and moves the value at that depth to the top, with
-- every reference count exact.
pub roll_op_lem :
    (ext : ℕ → ℕ) (m : Machine) (b : ℕ) (us : List Value) (v : Value) (ts : List Value)
    → m.base ≡ b
    → length us < i64_min
    → Represents ext m b (int (length us) ∷ (us ++ (v ∷ ts)))
    → Does roll_op ext m b (int (length us) ∷ (us ++ (v ∷ ts))) (v ∷ (us ++ ts))
unfolding roll_op
roll_op_lem ext m b us v ts base small r =
    let (m', run, r', f) = index_valid ext m b roll (length us) (us ++ (v ∷ ts)) small r in
    let (m'', run', r'', f') = roll_index_lem ext m' b us v ts (f.base ∙ base) r' in
    (m'', rw (run, run') refl, r'', Frame-trans f f')

-- With the base of the stack set and an index from 3 up to 2 ^ 63 - 1 on top that is at least the
-- number of values under it, `roll_op` consumes the index, leaves the other values and sets the
-- depth error.
pub roll_op_deep :
    (ext : ℕ → ℕ) (m : Machine) (b n : ℕ) (s : List Value)
    → m.base ≡ b
    → n < i64_min
    → 3 ≤ n
    → length s ≤ n
    → Represents ext m b (int n ∷ s)
    → Refuses roll_op ext m b (int n) s (exceeds_depth roll n (length s))
unfolding roll_op
roll_op_deep ext m b n s base small three far r =
    let (m', run, r', f) = index_valid ext m b roll n s small r in
    let zeroth : (n == 0) ≡ false = ground arith in
    let first : (n == 1) ≡ false = ground arith in
    let second : (n == 2) ≡ false = ground arith in
    let depth : b + length s - m'.base ≡ length s = omega (arith, f.base) in
    let shallow : leb (length s) n ≡ true = ground arith in
    (
      record m' { error = some (exceeds_depth roll n (length s)) },
      rw (run, zeroth, first, second, depth, shallow) refl,
      r',
      refl,
      f.base,
      f.below,
    )

-- With index 1 on a stack that holds one value below it, `roll` sets no error, although it needs
-- two: the value goes to the slot below the base of the stack, and the word of that slot, which is
-- not the stack's, takes its place.
pub roll_one_below_base :
    (ext : ℕ → ℕ) (m : Machine) (b : ℕ) (v : Value)
    → 0 < b
    → Represents ext m b (int 1 ∷ v ∷ [])
    → (m' : Machine) × (roll_op (b + 2) m ≡ ok (b + 1) m')
      × (decode m'.heap (m'.slots (b - 1)) ≡ some v)
      × (m'.slots b ≡ m.slots (b - 1))
      × (m'.error ≡ m.error)
unfolding roll_op swap
roll_one_below_base ext m b v pos r =
    let (m', run, r', f) = index_valid ext m b roll 1 (v ∷ []) (omega arith) r in
    let top : b + 1 - 1 ≡ b = omega arith in
    let second : b + 1 - 2 ≡ b - 1 = omega arith in
    let apart : (b - 1 == b) ≡ false = ground arith in
    let base : b + 0 ≡ b = omega arith in
    (
      record m' { slots = update (update m'.slots (b - 1) (m'.slots b)) b (m'.slots (b - 1)) },
      rw (run, top, second) refl,
      rw (apart, ==_refl (b - 1)) (rw base at r'.decoded.0),
      rw (==_refl b) (f.below (b - 1) (omega arith)),
      f.error,
    )
