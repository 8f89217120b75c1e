-- ===== src/History/Search.antt =====
-- The indices that `search` of crates/vim-line/src/history.rs returns.
use Prim.Native.String.{String}
use text.Mathlib.Text.{◌==◌}
use mathlib.Core.List.{append-nil}
use patch_seq.Base.{
  ℕ, zero, suc, ◌+◌, ◌<◌, ◌≡◌, ◌↔◌, refl, Bool, true, false, some, List, [], ◌∷◌, ◌++◌,
  if◌then◌else◌, get_elem?, arith, ◌⊎◌, inl, inr, Bool-cases, sym, ap, ◌∙◌,
}
use patch_seq.History.{Store, search, hits_from}

-- Membership, as a type with the place.
abbrev pub In : ℕ → List ℕ → Type 0
In i [] = ⊥
In i (x ∷ xs) = (x ≡ i) ⊎ In i xs

-- From above, strictly.
abbrev pub Falling : List ℕ → Type 0
Falling [] = Unit
Falling (x ∷ []) = Unit
Falling (x ∷ y ∷ xs) = (y < x) × Falling (y ∷ xs)

In-append : (i : ℕ) (xs ys : List ℕ) → In i (xs ++ ys) ↔ (In i xs ⊎ In i ys)
In-append i [] ys = (inr, λ h. elim h [ inl a ↦ absurd a | inr b ↦ b ])
In-append i (x ∷ xs) ys =
    let e = In-append i xs ys in
    (
      λ h. elim h [
        | inl p ↦ inl (inl p)
        | inr q ↦ elim (e.0 q) [ inl a ↦ inl (inr a) | inr b ↦ inr b ]
      ],
      λ h. elim h [
        | inl p ↦ elim p [ inl a ↦ inl a | inr b ↦ inr (e.1 (inl b)) ]
        | inr q ↦ inr (e.1 (inr q))
      ],
    )

-- The index `j + k` is a hit from `j` on exactly if the entry `k` matches.
abbrev pub Hit : (String → Bool) → ℕ → List String → ℕ → Type 0
Hit matches j xs i =
    (k : ℕ) × (e : String) × (i ≡ j + k) × (get_elem? xs k ≡ some e) × (matches e ≡ true)

-- The entry in front of those that are searched later.
first_hit : (b : Bool) (j i : ℕ) → In i (if b then j ∷ [] else []) ↔ ((b ≡ true) × (i ≡ j))
first_hit true j i =
    (λ h. elim h [ inl e ↦ (refl, sym e) | inr f ↦ absurd f ], λ (e, p). inl (sym p))
first_hit false j i = (λ h. absurd h, λ (e, p). cc)

Hit-cases :
    (matches : String → Bool) (j : ℕ) (x : String) (xs : List String) (i : ℕ)
    → Hit matches j (x ∷ xs) i
    → Hit matches (j + 1) xs i ⊎ ((matches x ≡ true) × (i ≡ j))
Hit-cases matches j x xs i (zero, e, p, q, t) =
    let same : x ≡ e = cc in inr (ap matches same ∙ t, omega arith)
Hit-cases matches j x xs i (suc k, e, p, q, t) = inl (k, e, omega arith, q, t)

hits_iff :
    (matches : String → Bool) (j : ℕ) (xs : List String) (i : ℕ)
    → In i (hits_from matches j xs) ↔ Hit matches j xs i
unfolding hits_from
hits_iff matches j [] i = (λ h. absurd h, λ (k, e, p, q, t). cc)
hits_iff matches j (x ∷ xs) i =
    let later = hits_iff matches (j + 1) xs i in
    let split = In-append i (hits_from matches (j + 1) xs) (if matches x then j ∷ [] else []) in
    let first = first_hit (matches x) j i in
    (
      λ h. elim (split.0 h) [
        | inl a ↦ let (k, e, p, q, t) = later.0 a in (suc k, e, omega arith, q, t)
        | inr b ↦ let (t, p) = first.0 b in (zero, x, omega arith, refl, t)
      ],
      λ h. elim (Hit-cases matches j x xs i h) [
        | inl a ↦ split.1 (inl (later.1 a))
        | inr b ↦ split.1 (inr (first.1 b))
      ],
    )

-- A falling list of numbers above `j`, followed by `j`.
abbrev Above : ℕ → List ℕ → Type 0
Above j [] = Unit
Above j (x ∷ xs) = (j < x) × Above j xs

Falling-append : (j : ℕ) (xs : List ℕ) → Falling xs → Above j xs → Falling (xs ++ (j ∷ []))
Falling-append j [] f a = tt
Falling-append j (x ∷ []) f a = (a.0, tt)
Falling-append j (x ∷ y ∷ xs) f a = (f.0, Falling-append j (y ∷ xs) f.1 a.1)

Above-append : (j : ℕ) (xs ys : List ℕ) → Above j xs → Above j ys → Above j (xs ++ ys)
Above-append j [] ys a b = b
Above-append j (x ∷ xs) ys a b = (a.0, Above-append j xs ys a.1 b)

Above-hits :
    (matches : String → Bool) (i j : ℕ) (xs : List String)
    → i < j
    → Above i (hits_from matches j xs)
unfolding hits_from
Above-hits matches i j [] h = tt
Above-hits matches i j (x ∷ xs) h =
    Above-append i (hits_from matches (j + 1) xs) _ (Above-hits matches i (j + 1) xs (omega arith))
      (last (matches x))
  where
    last : (b : Bool) → Above i (if b then j ∷ [] else [])
    last true = (h, tt)
    last false = tt

Falling-hits :
    (matches : String → Bool) (j : ℕ) (xs : List String) → Falling (hits_from matches j xs)
unfolding hits_from
Falling-hits matches j [] = tt
Falling-hits matches j (x ∷ xs) = elim (Bool-cases (matches x)) [
  | inl e ↦ rw e (
      Falling-append j (hits_from matches (j + 1) xs) (Falling-hits matches (j + 1) xs)
        (Above-hits matches j (j + 1) xs (omega arith)))
  | inr e ↦ rw (e, append-nil) (Falling-hits matches (j + 1) xs)
]

-- For a query that is not empty, `search` returns the index of an entry exactly if the entry in lower
-- case contains the query in lower case, and the indices fall strictly; for the empty query it
-- returns none.
pub search_lem :
    (to_lowercase : String → String) (contains : String → String → Bool) (query : String)
    (s : Store)
    → (query == "") ≡ false
    → ((i : ℕ)
        → In i (search to_lowercase contains query s)
          ↔ Hit (λ e. contains (to_lowercase e) (to_lowercase query)) 0 s.entries i)
      × Falling (search to_lowercase contains query s)
      × (search to_lowercase contains "" s ≡ [])
unfolding search
search_lem to_lowercase contains query s h =
    let matches = λ (e : String). contains (to_lowercase e) (to_lowercase query) in
    rw h ((λ i. hits_iff matches 0 s.entries i), Falling-hits matches 0 s.entries, refl)
