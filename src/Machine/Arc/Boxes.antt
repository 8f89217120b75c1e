-- ===== src/Machine/Arc/Boxes.antt =====
-- One step on one box of the heap, for the functions of crates/core/src/stack.rs that clone, drop and
-- make boxes.
use patch_seq.Base.{
  ℕ, ◌+◌, ◌<◌, ◌≡◌, refl, sym, ◌∙◌, true, false, Option, none, some, List, ◌∷◌, arith, ◌==◌, count,
  ==_refl, ==_ne, ap, ◌≢◌, subst,
}
use native.Mathlib.Decide.{ℕ_discrete as dec_eq}
use patch_seq.Word.{is_inline}
use patch_seq.Value.{Value}
use patch_seq.Machine.{Cell, Heap, Machine, ok, update}
use patch_seq.Machine.Owns.{cell_value, decode, refs, Decodes, Owns, decode_cong, Decodes-cong}
use patch_seq.Machine.Arc.{released, stack_value_to_value}

-- The box of one pointer changes and its value stays, if a word still points to it.
update-Owns :
    (ext : ℕ → ℕ) (h : Heap) (w : ℕ) (k : Option Cell) (ws ws' : List ℕ) (vs vs' : List Value)
    → refs k ≡ count w ws' + ext w
    → ((a : ℕ) → a ≢ w → count a ws' ≡ count a ws)
    → ((c : Cell) → k ≡ some c → 0 < c.strong)
    → (0 < count w ws' → cell_value k ≡ cell_value (h w))
    → Decodes h ws' vs'
    → Owns ext h ws vs
    → Owns ext (update h w k) ws' vs'
update-Owns ext h w k ws ws' vs vs' new others live same d o = record {
  counted = λ a na. elim (dec_eq a w) [
    | yes e ↦ rw (e, ==_refl w) new
    | no ne ↦ rw (==_ne a w ne) (o.counted a na ∙ ap (λ n. n + ext a) (sym (others a ne)))
  ];
  positive = λ a c e'. elim (dec_eq a w) [
    | yes e ↦ live c (rw (e, ==_refl w) at e')
    | no ne ↦ o.positive a c (rw (==_ne a w ne) at e')
  ];
  decoded =
      Decodes-cong h (update h w k) ws' vs'
        (λ x p. decode_cong h (update h w k) x (kept x p (dec_eq x w))) d;
}
  where
    kept : (x : ℕ) → 0 < count x ws' → Dec (x ≡ w) → cell_value (update h w k x) ≡ cell_value (h x)
    kept x p (yes e) = rw (e, ==_refl w) (same (rw e at p))
    kept x p (no ne) = rw (==_ne x w ne) refl

inline_ne : (w a : ℕ) → is_inline w ≡ true → is_inline a ≡ false → (w == a) ≡ false
inline_ne w a i na = ==_ne w a (λ e. cc e)

-- An inline word points to no box.
pub cons_inline :
    (ext : ℕ → ℕ) (h : Heap) (ws : List ℕ) (vs : List Value) (w : ℕ) (v : Value)
    → is_inline w ≡ true
    → decode h w ≡ some v
    → Owns ext h ws vs
    → Owns ext h (w ∷ ws) (v ∷ vs)
cons_inline ext h ws vs w v i d o = record {
  counted = λ a na. rw (inline_ne w a i na) (omega (arith, o.counted a na));
  positive = o.positive;
  decoded = (d, o.decoded);
}

pub tail_inline :
    (ext : ℕ → ℕ) (h : Heap) (ws : List ℕ) (vs : List Value) (w : ℕ) (v : Value)
    → is_inline w ≡ true
    → Owns ext h (w ∷ ws) (v ∷ vs)
    → Owns ext h ws vs
tail_inline ext h ws vs w v i o = record {
  counted = λ a na. let e = o.counted a na in omega (arith, rw (inline_ne w a i na) at e);
  positive = o.positive;
  decoded = o.decoded.1;
}

-- A box has one more reference.
pub retain-Owns :
    (ext : ℕ → ℕ) (h : Heap) (w : ℕ) (c : Cell) (ws : List ℕ) (vs : List Value) (v : Value)
    → is_inline w ≡ false
    → h w ≡ some c
    → decode h w ≡ some v
    → Owns ext h ws vs
    → Owns ext (update h w (some (record c { strong = c.strong + 1 }))) (w ∷ ws) (v ∷ vs)
retain-Owns ext h w c ws vs v i e d o =
    update-Owns ext h w (some (record c { strong = c.strong + 1 })) ws (w ∷ ws) vs (v ∷ vs)
      (rw (==_refl w) (omega (arith, strong)))
      (λ a ne. rw (==_ne w a (λ p. ne (sym p))) (omega arith)) (λ c' q. ground arith)
      (λ _. rw e refl) (d, o.decoded) o
  where
    strong : c.strong ≡ count w ws + ext w
    strong = let q = o.counted w i in rw e at q

-- A reference to a box is given back.
pub release-Owns :
    (ext : ℕ → ℕ) (h : Heap) (w : ℕ) (c : Cell) (ws : List ℕ) (vs : List Value) (v : Value)
    → is_inline w ≡ false
    → h w ≡ some c
    → Owns ext h (w ∷ ws) (v ∷ vs)
    → Owns ext (update h w (released c)) ws vs
unfolding released
release-Owns ext h w c ws vs v i e o =
    update-Owns ext h w (released c) (w ∷ ws) ws (v ∷ vs) vs
      (ground (arith, strong, o.positive w c e))
      (λ a ne. rw (==_ne w a (λ p. ne (sym p))) (omega arith)) (ground (arith, o.positive w c e))
      (λ p. rw e (ground (arith, strong, o.positive w c e))) o.decoded.1 o
  where
    strong : c.strong ≡ 1 + count w ws + ext w
    strong = let q = o.counted w i in rw (e, ==_refl w) at q

pub stack_value_to_value_inline :
    (m : Machine) (w : ℕ) (v : Value)
    → is_inline w ≡ true
    → decode m.heap w ≡ some v
    → stack_value_to_value w m ≡ ok v m
unfolding stack_value_to_value is_inline decode
stack_value_to_value_inline m w v i d = ground arith

pub stack_value_to_value_heap :
    (m : Machine) (w : ℕ) (v : Value) (c : Cell)
    → is_inline w ≡ false
    → m.heap w ≡ some c
    → c.value ≡ v
    → stack_value_to_value w m ≡ ok v (record m { heap = update m.heap w (released c) })
unfolding stack_value_to_value is_inline
stack_value_to_value_heap m w v c i e q = ground arith

-- A new box has one reference, from the word that points to it.
pub new-Owns :
    (ext : ℕ → ℕ) (h : Heap) (ws : List ℕ) (vs : List Value) (a : ℕ) (v : Value)
    → h a ≡ none
    → is_inline a ≡ false
    → Owns ext h ws vs
    → Owns ext (update h a (some (record { value = v; strong = 1 }))) (a ∷ ws) (v ∷ vs)
unfolding decode is_inline
new-Owns ext h ws vs a v e i o = record {
  counted = λ b nb. elim (dec_eq b a) [
    | yes p ↦ subst (λ (x : ℕ). refs (update h a new x) ≡ count x (a ∷ ws) + ext x) (sym p) at_a
    | no ne ↦ rw (==_ne b a ne, ==_ne a b (λ p. ne (sym p))) (omega (arith, o.counted b nb))
  ];
  positive = λ b c q. elim (dec_eq b a) [
    | yes p ↦ ground (arith, rw (p, ==_refl a) at q)
    | no ne ↦ o.positive b c (rw (==_ne b a ne) at q)
  ];
  decoded = (
    ground arith,
    Decodes-cong h (update h a (some (record { value = v; strong = 1 }))) ws vs
        (λ x p.
          decode_cong h (update h a (some (record { value = v; strong = 1 }))) x
            (rw (==_ne x a (λ q. absurd (omega (arith, unused, rw q at p)))) refl))
        o.decoded,
  );
}
  where
    unused : 0 ≡ count a ws + ext a
    unused = let q = o.counted a i in rw e at q

    new : Option Cell
    new = some (record { value = v; strong = 1 })

    at_a : refs (update h a new a) ≡ count a (a ∷ ws) + ext a
    at_a = rw (==_refl a) (omega (arith, unused))
