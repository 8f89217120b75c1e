-- ===== src/History/Valid.antt =====
-- The invariant of the history store of crates/vim-line/src/history.rs under each operation.
use Prim.Native.String.{String}
use text.Mathlib.Text.{◌==◌}
use patch_seq.Base.{
  ℕ, zero, suc, ◌+◌, ◌-◌, ◌<◌, ◌≤◌, ◌≡◌, refl, Bool, true, false, Option, none, some, List, [], ◌∷◌,
  ◌++◌, ltb, length, get_elem?, arith, Bool-cases, inl, inr, ◌⊎◌, ◌∙◌,
}
use patch_seq.History
use patch_seq.History.{
  Store, Recall, entry, with_max_size, is_last, evict, push_raw, push_each, recall_at, prev_from,
  next_from, is_empty,
}

-- Entries are not empty, and no two neighbours are equal.
abbrev pub Tidy : List String → Type 0
Tidy [] = Unit
Tidy (x ∷ []) = (x == "") ≡ false
Tidy (x ∷ y ∷ xs) = ((x == "") ≡ false) × ((x == y) ≡ false) × Tidy (y ∷ xs)

abbrev pub Within : Option ℕ → ℕ → Type 0
Within none n = Unit
Within (some i) n = i < n

pub record IsValid (s : Store) : Type 0 where
  pub bounded : 0 < s.max_size → length s.entries ≤ s.max_size
  pub placed : Within s.cursor (length s.entries)
  pub tidy : Tidy s.entries

Tidy-tail : (x : String) (xs : List String) → Tidy (x ∷ xs) → Tidy xs
Tidy-tail x [] t = tt
Tidy-tail x (y ∷ xs) t = t.2

Tidy-evict : (max : ℕ) (xs : List String) → Tidy xs → Tidy (evict max xs)
unfolding evict
Tidy-evict max [] t = tt
Tidy-evict max (x ∷ xs) t = elim (Bool-cases (ltb max (length (x ∷ xs)))) [
  | inl e ↦ rw e (Tidy-evict max xs (Tidy-tail x xs t))
  | inr e ↦ rw e t
]

pub length-evict : (max : ℕ) (xs : List String) → length (evict max xs) ≤ max
unfolding evict
length-evict max [] = omega arith
length-evict max (x ∷ xs) = ground (arith, length-evict max xs)

Tidy-push :
    (e : String) (xs : List String)
    → (e == "") ≡ false
    → is_last e xs ≡ false
    → Tidy xs
    → Tidy (xs ++ (e ∷ []))
unfolding is_last
Tidy-push e [] h l t = h
Tidy-push e (x ∷ []) h l t = (t, l, h)
Tidy-push e (x ∷ y ∷ xs) h l t = (t.0, t.1, Tidy-push e (y ∷ xs) h l t.2)

-- The entries after `push_raw` satisfy the invariant whatever the cursor.
record IsStored (s : Store) : Type 0 where
  bounded : 0 < s.max_size → length s.entries ≤ s.max_size
  tidy : Tidy s.entries

push_raw-IsStored : (e : String) (s : Store) → IsStored s → IsStored (push_raw e s)
unfolding push_raw
push_raw-IsStored e s v = elim (Bool-cases (e == "")) [
  | inl q ↦ rw q v
  | inr q ↦ elim (Bool-cases (is_last e s.entries)) [
    | inl l ↦ rw (q, l) v
    | inr l ↦ elim (Bool-cases (ltb 0 s.max_size)) [
      | inl m ↦
          rw (q, l, m)
            (record {
              bounded = λ _. length-evict s.max_size (s.entries ++ (e ∷ []));
              tidy = Tidy-evict s.max_size _ (Tidy-push e s.entries q l v.tidy);
            })
      | inr m ↦
          rw (q, l, m)
            (record { bounded = λ p. ground arith; tidy = Tidy-push e s.entries q l v.tidy })
    ]
  ]
]

pub get_elem?-lt :
    (xs : List String) (i : ℕ) → i < length xs → (x : String) × (get_elem? xs i ≡ some x)
get_elem?-lt [] i h = absurd (omega arith)
get_elem?-lt (x ∷ xs) zero h = (x, refl)
get_elem?-lt (x ∷ xs) (suc i) h = get_elem?-lt xs i (omega arith)

stored : {s : Store} → IsValid s → IsStored s
stored v = record { bounded = v.bounded; tidy = v.tidy }

push_each-IsStored : (es : List String) (s : Store) → IsStored s → IsStored (push_each es s)
unfolding push_each
push_each-IsStored [] s v = v
push_each-IsStored (e ∷ es) s v = push_each-IsStored es (push_raw e s) (push_raw-IsStored e s v)

push_raw-cursor : (e : String) (s : Store) → (push_raw e s).cursor ≡ s.cursor
unfolding push_raw
push_raw-cursor e s = ground arith

push_each-cursor : (es : List String) (s : Store) → (push_each es s).cursor ≡ s.cursor
unfolding push_each
push_each-cursor [] s = refl
push_each-cursor (e ∷ es) s = push_each-cursor es (push_raw e s) ∙ push_raw-cursor e s

-- A result of `prev` or `next` that is no panic, with a valid store.
abbrev pub Succeeds : Option (Option Recall × Store) → Type 0
Succeeds o = (r : Option Recall) × (s : Store) × (o ≡ some (r, s)) × IsValid s

recall_at-Succeeds :
    (i : ℕ) (s : Store)
    → i < length s.entries
    → IsValid (record s { cursor = some i })
    → Succeeds (recall_at i (record s { cursor = some i }))
recall_at-Succeeds i s h v =
    let (x, e) = get_elem?-lt s.entries i h in
    (some (entry x), record s { cursor = some i }, rw (e, recall_at) refl, v)

module _ (s : Store) (v : IsValid s) where
  pub push-IsValid : (e : String) → IsValid (History.push e s)
  unfolding History.push
  push-IsValid e =
      let w = push_raw-IsStored e s (stored v) in
      record { bounded = w.bounded; placed = tt; tidy = w.tidy }

  pub load-IsValid : (es : List String) → IsValid (History.load es s)
  unfolding History.load
  load-IsValid es =
      let s' = record s { entries = []; cursor = none; draft = "" } in
      let w = push_each-IsStored es s' (record { bounded = λ _. omega arith; tidy = tt }) in
      record { bounded = w.bounded; placed = rw (push_each-cursor es s') tt; tidy = w.tidy }

  pub cancel_recall-IsValid : IsValid (History.cancel_recall s).1
  unfolding History.cancel_recall
  cancel_recall-IsValid = record { bounded = v.bounded; placed = tt; tidy = v.tidy }

placed_at :
    (s : Store) (i : ℕ) (d : String)
    → IsValid s
    → i < length s.entries
    → IsValid (record s { cursor = some i; draft = d })
placed_at s i d v h = record { bounded = v.bounded; placed = h; tidy = v.tidy }

next_from-Succeeds :
    (s : Store) (c : Option ℕ) → IsValid s → Within c (length s.entries) → Succeeds (next_from c s)
next_from-Succeeds s none v h = (none, s, refl, v)
next_from-Succeeds s (some i) v h = elim (Bool-cases (ltb i (length s.entries - 1))) [
  | inl e ↦
      let lt : i + 1 < length s.entries = ground arith in
      rw e (recall_at-Succeeds (i + 1) s lt (placed_at s (i + 1) s.draft v lt))
  | inr e ↦ rw e (
    some (Recall.draft s.draft),
    record s { cursor = none },
    refl,
    record { bounded = v.bounded; placed = tt; tidy = v.tidy },
  )
]

pub next-Succeeds : (s : Store) → IsValid s → Succeeds (History.next s)
unfolding History.next
next-Succeeds s v = next_from-Succeeds s s.cursor v v.placed

prev_from-Succeeds :
    (s : Store) (c : Option ℕ) (current : String)
    → 0 < length s.entries
    → IsValid s
    → Within c (length s.entries)
    → Succeeds (prev_from c current s)
prev_from-Succeeds s none current h v w =
    let s' = record s { draft = current } in
    let lt : length s.entries - 1 < length s.entries = omega arith in
    recall_at-Succeeds (length s.entries - 1) s' lt (placed_at s _ current v lt)
prev_from-Succeeds s (some zero) current h v w = (none, s, refl, v)
prev_from-Succeeds s (some (suc i)) current h v w =
    recall_at-Succeeds i s (omega arith) (placed_at s i s.draft v (omega arith))

empty_or_not : (xs : List String) → (xs ≡ []) ⊎ (0 < length xs)
empty_or_not [] = inl refl
empty_or_not (x ∷ xs) = inr (omega arith)

pub not_empty : (s : Store) → 0 < length s.entries → is_empty s ≡ false
not_empty s h = go s.entries h
  where
    go :
        (xs : List String)
        → 0 < length xs
        → elim xs as (λ _. Bool) [ [] ↦ true | _ ↦ false ] ≡ false
    go [] h = absurd (omega arith)
    go (x ∷ xs) h = refl

pub prev-Succeeds : (s : Store) (current : String) → IsValid s → Succeeds (History.prev current s)
unfolding History.prev
prev-Succeeds s current v = elim (empty_or_not s.entries) [
  | inl e ↦ (none, s, rw e refl, v)
  | inr h ↦ rw (not_empty s h) (prev_from-Succeeds s s.cursor current h v v.placed)
]
