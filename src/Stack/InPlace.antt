-- ===== src/Stack/InPlace.antt =====
-- `peek_heap_mut` of crates/core/src/stack.rs, and a write through the reference that it gives.
use native.Mathlib.Decide.{ℕ_discrete as dec_eq}
use patch_seq.Base.{
  ℕ, ◌+◌, ◌≡◌, refl, sym, true, false, Option, none, some, List, ◌∷◌, arith, ◌==◌, count, length,
  subst, Bool-cases, inl, inr, ==_refl, ==_ne,
}
use patch_seq.Word.{is_inline}
use patch_seq.Value.{Value}
use patch_seq.Machine.{Cell, Heap, Machine, ok, update}
use patch_seq.Machine.Owns.{Owns, decode, refs, decode_cong, cell_of_decode, Decodes-cong}
use patch_seq.Machine.Arc.{arc_get_mut, write_box}
use patch_seq.Stack.{heap_value_mut, peek_heap_mut}
use patch_seq.Stack.Represents.{view, Represents, sub_one}

module _ (ext : ℕ → ℕ) (h : Heap) (w : ℕ) (c : Cell) (ws : List ℕ) (v v' : Value) (vs : List Value)
    (i : is_inline w ≡ false) (e : h w ≡ some c) (one : c.strong ≡ 1)
    (o : Owns ext h (w ∷ ws) (v ∷ vs)) where
  abbrev pub written : Heap
  written = update h w (some (record c { value = v' }))

  alone : count w ws + ext w ≡ 0
  alone = let q = o.counted w i in let q' = rw (e, ==_refl w) at q in omega (arith, q', one)

  counted_at : refs (written w) ≡ count w (w ∷ ws) + ext w
  counted_at = rw (==_refl w) (omega (arith, alone, one))

  -- A box with one reference may be written to.
  written-Owns : Owns ext written (w ∷ ws) (v' ∷ vs)
  unfolding decode is_inline
  written-Owns = record {
    counted = λ a na. elim (dec_eq a w) [
      | yes p ↦ subst (λ (x : ℕ). refs (written x) ≡ count x (w ∷ ws) + ext x) (sym p) counted_at
      | no ne ↦ rw (==_ne a w ne) (o.counted a na)
    ];
    positive = λ a k q. elim (dec_eq a w) [
      | yes p ↦ ground (arith, one, rw (p, ==_refl w) at q)
      | no ne ↦ o.positive a k (rw (==_ne a w ne) at q)
    ];
    decoded = (
      ground arith,
      Decodes-cong h written ws vs
          (λ x p.
            decode_cong h written x
              (rw (==_ne x w (λ q. absurd (omega (arith, alone, rw q at p)))) refl))
          o.decoded.1,
    );
  }

get_sole :
    (m : Machine) (w : ℕ) (c : Cell)
    → m.heap w ≡ some c
    → (c.strong == 1) ≡ true
    → arc_get_mut w m ≡ ok (some w) m
unfolding arc_get_mut
get_sole m w c e sole = rw (e, sole, arc_get_mut) refl

get_shared :
    (m : Machine) (w : ℕ) (c : Cell)
    → m.heap w ≡ some c
    → (c.strong == 1) ≡ false
    → arc_get_mut w m ≡ ok none m
unfolding arc_get_mut
get_shared m w c e shared = rw (e, shared, arc_get_mut) refl

write_box_lem :
    (m : Machine) (w : ℕ) (c : Cell) (v : Value)
    → m.heap w ≡ some c
    → write_box w v m ≡ ok tt (record m { heap = update m.heap w (some (record c { value = v })) })
unfolding write_box
write_box_lem m w c v e = rw (e, write_box) refl

-- On a stack that represents at least one value, `peek_heap_mut` changes nothing, and where it gives a
-- reference a write of another value through it changes the top of the represented stack to that
-- value and no other value, and keeps every reference count exact.
pub peek_heap_mut-write_box :
    (ext : ℕ → ℕ) (m : Machine) (b : ℕ) (v : Value) (s : List Value)
    → Represents ext m b (v ∷ s)
    → (r : Option ℕ) × (peek_heap_mut (b + length (v ∷ s)) m ≡ ok r m)
      × ((a : ℕ) (v' : Value)
          → r ≡ some a
          → (h : Heap) × (write_box a v' m ≡ ok tt (record m { heap = h }))
            × Represents ext (record m { heap = h }) b (v' ∷ s))
unfolding peek_heap_mut heap_value_mut
peek_heap_mut-write_box ext m b v s r =
    let w = m.slots (b + length s) in
    elim (Bool-cases (is_inline w)) [
      | inl i ↦ (none, rw (sub_one, i) refl, λ a v' q. cc)
      | inr i ↦
          let (c, e, p) = cell_of_decode m.heap w v i r.decoded.0 in
          elim (Bool-cases (c.strong == 1)) [
            | inr shared ↦ (none, rw (sub_one, i) (get_shared m w c e shared), λ a v' q. cc)
            | inl sole ↦ (
              some w,
              rw (sub_one, i) (get_sole m w c e sole),
              λ a v' q.
                  let at_w : w ≡ a = cc in
                  subst
                    (λ (x : ℕ).
                      (h : Heap) × (write_box x v' m ≡ ok tt (record m { heap = h }))
                      × Represents ext (record m { heap = h }) b (v' ∷ s))
                    at_w
                    (
                      update m.heap w (some (record c { value = v' })),
                      write_box_lem m w c v' e,
                      written-Owns ext m.heap w c (view m.slots b (length s)) v v' s i e
                          (ground arith) r,
                    ),
            )
          ]
    ]
