-- ===== src/Arithmetic/Compare/Exact.antt =====
-- What the comparisons of compare.rs say of the integers behind their operands.
use patch_seq.Base.{ℕ, ◌+◌, ◌<◌, ◌≤◌, ◌≡◌, ◌≢◌, ◌↔◌, Bool, true, not, List, ◌∷◌, arith, ◌==◌}
use patch_seq.Base.Int.{ℤ, pos_part, neg_part, ltb_ℤ, leb_ℤ}
use patch_seq.Value.{Value, int, bool}
use patch_seq.Word.{u64_mod, to_ℤ}
use patch_seq.Machine.{Machine, M}
use patch_seq.Machine.Arc.{Allocator}
use patch_seq.Stack.Represents.{Represents, Does}
use patch_seq.Arithmetic.Shape.{int_binary_lem}
use patch_seq.Arithmetic.Compare.{eq, lt, gt, lte, gte, neq}

infix 50 ◌<ℤ◌ ◌≤ℤ◌
abbrev pub ◌<ℤ◌ : ℤ → ℤ → Type 0
a <ℤ b = pos_part a + neg_part b < pos_part b + neg_part a

abbrev pub ◌≤ℤ◌ : ℤ → ℤ → Type 0
a ≤ℤ b = pos_part a + neg_part b ≤ pos_part b + neg_part a

-- The operation leaves a Bool that is true exactly if `P` holds.
abbrev pub Tells : (ℕ → M ℕ) → (ℕ → ℕ) → Machine → ℕ → (x y : ℕ) → List Value → Type 0 → Type 0
Tells op ext m b x y s P =
    (c : Bool) × ((c ≡ true) ↔ P) × Does op ext m b (int y ∷ int x ∷ s) (bool c ∷ s)

eq_iff_to_ℤ : (x y : ℕ) → x < u64_mod → y < u64_mod → ((x == y) ≡ true) ↔ (to_ℤ x ≡ to_ℤ y)
unfolding to_ℤ
eq_iff_to_ℤ x y hx hy = ground arith

ne_iff_to_ℤ : (x y : ℕ) → x < u64_mod → y < u64_mod → (not (x == y) ≡ true) ↔ (to_ℤ x ≢ to_ℤ y)
unfolding to_ℤ
ne_iff_to_ℤ x y hx hy = ground arith

ltb_ℤ_iff : (a b : ℤ) → (ltb_ℤ a b ≡ true) ↔ (a <ℤ b)
ltb_ℤ_iff a b = ground arith

leb_ℤ_iff : (a b : ℤ) → (leb_ℤ a b ≡ true) ↔ (a ≤ℤ b)
leb_ℤ_iff a b = ground arith

-- On two `i64`s, the lower value of the stack on the left, the six comparisons leave whether the
-- integers are equal, different, smaller, greater, at most or at least.
pub compare_exact :
    (alloc : Allocator) (ext : ℕ → ℕ) (m : Machine) (b x y : ℕ) (s : List Value)
    → x < u64_mod
    → y < u64_mod
    → Represents ext m b (int y ∷ int x ∷ s)
    → Tells (eq alloc) ext m b x y s (to_ℤ x ≡ to_ℤ y)
      × Tells (neq alloc) ext m b x y s (to_ℤ x ≢ to_ℤ y)
      × Tells (lt alloc) ext m b x y s (to_ℤ x <ℤ to_ℤ y)
      × Tells (gt alloc) ext m b x y s (to_ℤ y <ℤ to_ℤ x)
      × Tells (lte alloc) ext m b x y s (to_ℤ x ≤ℤ to_ℤ y)
      × Tells (gte alloc) ext m b x y s (to_ℤ y ≤ℤ to_ℤ x)
unfolding eq neq lt gt lte gte
compare_exact alloc ext m b x y s hx hy r =
    let run =
      λ (f : ℕ → ℕ → Bool). int_binary_lem alloc ext m b s (λ u v. bool (f u v)) x y (λ h. tt) r in
    (
      (_, eq_iff_to_ℤ x y hx hy, run (λ u v. u == v)),
      (_, ne_iff_to_ℤ x y hx hy, run (λ u v. not (u == v))),
      (_, ltb_ℤ_iff (to_ℤ x) (to_ℤ y), run (λ u v. ltb_ℤ (to_ℤ u) (to_ℤ v))),
      (_, ltb_ℤ_iff (to_ℤ y) (to_ℤ x), run (λ u v. ltb_ℤ (to_ℤ v) (to_ℤ u))),
      (_, leb_ℤ_iff (to_ℤ x) (to_ℤ y), run (λ u v. leb_ℤ (to_ℤ u) (to_ℤ v))),
      (_, leb_ℤ_iff (to_ℤ y) (to_ℤ x), run (λ u v. leb_ℤ (to_ℤ v) (to_ℤ u))),
    )
