-- ===== src/Freshen/Copies.antt =====
-- What the freshening of an effect gives.
use Prim.Native.String.{String}
use patch_seq.Base.{ℕ, ◌≤◌, ◌<◌, ◌≡◌, ◌⊎◌, inl, inr, sym, ◌∙◌, some, arith}
use patch_seq.Types.{Effect, effect}
use patch_seq.Freshen.{Names, freshen_stack, start, freshen_effect}
use patch_seq.Freshen.Renames.{RenamesEffect, Extends-trans, more_stack}
use patch_seq.Freshen.Laws.{Valid, freshen_stack_lem, freshen_side_effects_lem}

-- A copy of an effect with fresh names, made from a counter.
pub record Copy (format : String → ℕ → String) (counter : ℕ) (e : Effect) (out : Effect × Names)
    : Type 0 where
  pub renamed : RenamesEffect out.1 e out.0
  pub grows : counter ≤ out.1.counter
  pub type_number :
      (a b : String)
      → out.1.types a ≡ some b
      → (k : ℕ) × (counter ≤ k) × (k < out.1.counter) × (b ≡ format a k)
  pub row_number :
      (a b : String)
      → out.1.rows a ≡ some b
      → (k : ℕ) × (counter ≤ k) × (k < out.1.counter) × (b ≡ format a k)
  pub types_apart : (a c b : String) → out.1.types a ≡ some b → out.1.types c ≡ some b → a ≡ c
  pub rows_apart : (a c b : String) → out.1.rows a ≡ some b → out.1.rows c ≡ some b → a ≡ c

start-Valid :
    (format : String → ℕ → String)
    (numbered : (p q : String) (n m : ℕ) → format p n ≡ format q m → n ≡ m) (counter : ℕ)
    → Valid format numbered counter (start counter)
start-Valid format numbered counter = record {
  least = omega arith;
  types = record { number = λ a b h. cc; apart = λ a c b h g. cc };
  rows = record { number = λ a b h. cc; apart = λ a c b h g. cc };
}

-- If `format` gives different names for different numbers: `freshen_effect` renames the variables of
-- the effect, each type variable and each row variable to one name wherever it stands and no two of
-- a kind to the same name, keeps everything else but the side effects of quotations and closures,
-- and takes the numbers of the names from the counter that it was given up to the one it leaves.
pub freshen_effect-Copy :
    (format : String → ℕ → String)
    → ((p q : String) (n m : ℕ) → format p n ≡ format q m → n ≡ m)
    → (e : Effect) (counter : ℕ) → Copy format counter e (freshen_effect format e counter)
unfolding freshen_effect
freshen_effect-Copy format numbered (effect inputs outputs effects) counter =
    let i =
      freshen_stack_lem format numbered counter inputs (start counter)
        (start-Valid format numbered counter) in
    let s = (freshen_stack format inputs (start counter)).1 in
    let o = freshen_stack_lem format numbered counter outputs s i.valid in
    let s' = (freshen_stack format outputs s).1 in
    let x = freshen_side_effects_lem format numbered counter effects s' o.valid in
    record {
      renamed =
          RenamesEffect.effect (more_stack (Extends-trans o.extends x.extends) i.related)
            (more_stack x.extends o.related) x.related;
      grows = x.valid.least;
      type_number = x.valid.types.number;
      row_number = x.valid.rows.number;
      types_apart = x.valid.types.apart;
      rows_apart = x.valid.rows.apart;
    }

-- A name given in a copy.
abbrev pub Given : Names → String → Type 0
Given s b = ((a : String) × (s.types a ≡ some b)) ⊎ ((a : String) × (s.rows a ≡ some b))

Given-number :
    (format : String → ℕ → String) (counter : ℕ) (e : Effect) (out : Effect × Names) (b : String)
    → Copy format counter e out
    → Given out.1 b
    → (a : String) × (k : ℕ) × (counter ≤ k) × (k < out.1.counter) × (b ≡ format a k)
Given-number format counter e out b c (inl (a, h)) =
    let (k, l, u, g) = c.type_number a b h in (a, k, l, u, g)
Given-number format counter e out b c (inr (a, h)) =
    let (k, l, u, g) = c.row_number a b h in (a, k, l, u, g)

-- If `format` gives different names for different numbers: two effects freshened one after the other
-- have no fresh name in common, whether of a type variable or of a row variable.
pub freshen_effect_apart :
    (format : String → ℕ → String)
    → ((p q : String) (n m : ℕ) → format p n ≡ format q m → n ≡ m)
    → (first second : Effect) (counter : ℕ) (x y : String)
    → Given (freshen_effect format first counter).1 x
    → Given (freshen_effect format second (freshen_effect format first counter).1.counter).1 y
    → ¬ (x ≡ y)
freshen_effect_apart format numbered first second counter x y g h same =
    let out = freshen_effect format first counter in
    let (a, k, l, u, e) =
      Given-number format counter first out x (freshen_effect-Copy format numbered first counter)
        g in
    let (b, m, l', u', f) =
      Given-number format out.1.counter second (freshen_effect format second out.1.counter) y
        (freshen_effect-Copy format numbered second out.1.counter) h in
    let number : k ≡ m = numbered a b k m (sym e ∙ same ∙ f) in omega (arith, u, l', number)
