-- ===== src/ResourceLint/Joins.antt =====
-- What `merge` and `join` of the resource lint report and keep.
use patch_seq.Base.{
  ℕ, ◌≡◌, refl, ◌∙◌, ap, Bool, true, false, ◌&&◌, ◌||◌, not, List, [], ◌∷◌, ◌++◌, ◌==◌, arith,
  Bool-cases, inl, inr,
}
use patch_seq.ResourceLint.{
  TrackedResource, StackValue, resource, unknown, StackState, InconsistentResource, resources,
  contains_id, insert_entry, collect_from, collect, consumed_elsewhere, merge, consumed_in_both,
  fill, add_missing, join,
}

-- Whether a resource with the id is on the stack.
abbrev pub is_tracked : List StackValue → ℕ → Bool
is_tracked values i = contains_id (resources values) i

insert_entry_ids :
    (entries : List TrackedResource) (r : TrackedResource) (i : ℕ)
    → contains_id (insert_entry entries r) i ≡ (contains_id entries i || (r.id == i))
unfolding contains_id insert_entry
insert_entry_ids [] r i = ground arith
insert_entry_ids (q ∷ entries) r i = ground (arith, insert_entry_ids entries r i)

collect_from_ids :
    (entries rs : List TrackedResource) (i : ℕ)
    → contains_id (collect_from entries rs) i ≡ (contains_id entries i || contains_id rs i)
unfolding contains_id collect_from
collect_from_ids entries [] i = ground arith
collect_from_ids entries (r ∷ rs) i =
    ground (arith, collect_from_ids (insert_entry entries r) rs i, insert_entry_ids entries r i)

collect_ids :
    (values : List StackValue) (i : ℕ) → contains_id (collect values) i ≡ is_tracked values i
unfolding contains_id
collect_ids values i = collect_from_ids [] (resources values) i

append_ids :
    (values more : List StackValue) (i : ℕ)
    → is_tracked (values ++ more) i ≡ (is_tracked values i || is_tracked more i)
unfolding contains_id resources
append_ids [] more i = refl
append_ids (resource r ∷ values) more i = ground (arith, append_ids values more i)
append_ids (unknown ∷ values) more i = append_ids values more i

fill_keeps :
    (values other : List StackValue) (i : ℕ)
    → is_tracked values i ≡ true
    → is_tracked (fill values other) i ≡ true
unfolding contains_id resources fill
fill_keeps [] other i h = h
fill_keeps (v ∷ values) [] i h = h
fill_keeps (unknown ∷ values) (resource r ∷ other) i h = ground (arith, fill_keeps values other i h)
fill_keeps (unknown ∷ values) (unknown ∷ other) i h = fill_keeps values other i h
fill_keeps (resource q ∷ values) (w ∷ other) i h = ground (arith, fill_keeps values other i)

consumed_in_both_ids :
    (rs other : List TrackedResource) (i : ℕ)
    → contains_id (consumed_in_both rs other) i ≡ (contains_id rs i && contains_id other i)
unfolding contains_id consumed_in_both
consumed_in_both_ids [] other i = refl
consumed_in_both_ids (r ∷ rs) other i = elim (Bool-cases (r.id == i)) [
  | inl t ↦
      let e : r.id ≡ i = ground arith in
      let same : contains_id other r.id ≡ contains_id other i = ap (contains_id other) e in
      ground (arith, consumed_in_both_ids rs other i, same)
  | inr f ↦ ground (arith, consumed_in_both_ids rs other i)
]

add_missing_keeps :
    (ids done entries : List TrackedResource) (values : List StackValue) (i : ℕ)
    → is_tracked values i ≡ true
    → is_tracked (add_missing ids done entries values) i ≡ true
unfolding add_missing
add_missing_keeps ids done [] values i h = h
add_missing_keeps ids done (r ∷ entries) values i h =
    elim (Bool-cases (not (contains_id ids r.id) && not (contains_id done r.id))) [
      | inl t ↦ rw t (
          add_missing_keeps ids done entries (values ++ resource r ∷ []) i
            (append_ids values (resource r ∷ []) i ∙ rw h refl))
      | inr f ↦ rw f (add_missing_keeps ids done entries values i h)
    ]

last_tracked :
    (r : TrackedResource) (i : ℕ) (values : List StackValue)
    → (r.id == i) ≡ true
    → (is_tracked values i || is_tracked (resource r ∷ []) i) ≡ true
unfolding contains_id resources
last_tracked r i values t = ground arith

one_tracked : (r : TrackedResource) (i : ℕ) → is_tracked (resource r ∷ []) i ≡ (r.id == i)
unfolding contains_id resources
one_tracked r i = ground arith

add_missing_adds :
    (ids done entries : List TrackedResource) (values : List StackValue) (i : ℕ)
    → contains_id entries i ≡ true
    → contains_id ids i ≡ false
    → contains_id done i ≡ false
    → is_tracked (add_missing ids done entries values) i ≡ true
unfolding add_missing contains_id
add_missing_adds ids done [] values i h free open_ = cc
add_missing_adds ids done (r ∷ entries) values i h free open_ = elim (Bool-cases (r.id == i)) [
  | inl t ↦
      let e : r.id ≡ i = ground arith in
      let f : contains_id ids r.id ≡ false = ap (contains_id ids) e ∙ free in
      let g : contains_id done r.id ≡ false = ap (contains_id done) e ∙ open_ in
      rw (f, g)
        (add_missing_keeps ids done entries (values ++ resource r ∷ []) i
          (append_ids values (resource r ∷ []) i ∙ last_tracked r i values t))
  | inr f ↦ add_missing_adds ids done entries _ i (rw f at h) free open_
]

fill_only :
    (values other : List StackValue) (i : ℕ)
    → is_tracked (fill values other) i ≡ true
    → (is_tracked values i || is_tracked other i) ≡ true
unfolding contains_id resources fill
fill_only [] other i h = cc
fill_only (v ∷ values) [] i h = ground (arith, h)
fill_only (unknown ∷ values) (resource r ∷ other) i h = ground (arith, fill_only values other i)
fill_only (unknown ∷ values) (unknown ∷ other) i h = fill_only values other i h
fill_only (resource q ∷ values) (unknown ∷ other) i h = ground (arith, fill_only values other i)
fill_only (resource q ∷ values) (resource r ∷ other) i h = ground (arith, fill_only values other i)

add_missing_only :
    (ids done entries : List TrackedResource) (values : List StackValue) (i : ℕ)
    → is_tracked (add_missing ids done entries values) i ≡ true
    → (is_tracked values i || contains_id entries i) ≡ true
unfolding add_missing contains_id
add_missing_only ids done [] values i h = ground (arith, h)
add_missing_only ids done (r ∷ entries) values i h =
    elim (Bool-cases (not (contains_id ids r.id) && not (contains_id done r.id))) [
      | inl t ↦
          let rest = add_missing_only ids done entries (values ++ resource r ∷ []) i (rw t at h) in
          let split = append_ids values (resource r ∷ []) i in
          let one : is_tracked (resource r ∷ []) i ≡ (r.id == i) = one_tracked r i in
          ground (arith, rest, split, one)
      | inr f ↦ ground (arith, add_missing_only ids done entries values i (rw f at h))
    ]

module _ (order : List TrackedResource → List TrackedResource)
    (keeps : (rs : List TrackedResource) (i : ℕ) → contains_id (order rs) i ≡ contains_id rs i)
    (s other : StackState) (i : ℕ) where
  abbrev filled : List StackValue
  filled = fill s.stack other.stack

  tracked_in_other :
      is_tracked other.stack i ≡ true → contains_id (order (collect other.stack)) i ≡ true
  tracked_in_other h = keeps (collect other.stack) i ∙ collect_ids other.stack i ∙ h

  join_tracks :
      (contains_id s.consumed i && contains_id other.consumed i) ≡ false
      → (is_tracked s.stack i || is_tracked other.stack i) ≡ true
      → is_tracked (join order s other).stack i ≡ true
  unfolding join
  join_tracks live tracked =
      let ids = resources filled in
      let done = consumed_in_both s.consumed other.consumed in
      let entries = order (collect other.stack) in
      elim (Bool-cases (is_tracked filled i)) [
        | inl t ↦ add_missing_keeps ids done entries filled i t
        | inr f ↦ elim (Bool-cases (is_tracked s.stack i)) [
          | inl mine ↦ absurd (cc (fill_keeps s.stack other.stack i mine, f))
          | inr not_mine ↦
              let theirs : is_tracked other.stack i ≡ true = rw not_mine at tracked in
              add_missing_adds ids done entries filled i (tracked_in_other theirs) f
                (consumed_in_both_ids s.consumed other.consumed i ∙ live)
        ]
      ]

  join_only :
      is_tracked (join order s other).stack i ≡ true
      → (is_tracked s.stack i || is_tracked other.stack i) ≡ true
  unfolding join
  join_only h =
      let done = consumed_in_both s.consumed other.consumed in
      let entries = order (collect other.stack) in
      let found = add_missing_only (resources filled) done entries filled i h in
      let theirs = keeps (collect other.stack) i ∙ collect_ids other.stack i in
      ground (arith, found, theirs, fill_only s.stack other.stack i)

  join_keeps : is_tracked s.stack i ≡ true → is_tracked (join order s other).stack i ≡ true
  unfolding join
  join_keeps h =
      add_missing_keeps (resources filled) (consumed_in_both s.consumed other.consumed)
        (order (collect other.stack)) filled i (fill_keeps s.stack other.stack i h)

-- For the joined state, however the map of the other branch is gone through: a resource is consumed
-- exactly if both branches have consumed it; a resource that is on the stack of a branch is on the
-- joined stack or has been consumed by both, and no other is on the joined stack; and a resource on
-- the stack of the first branch is on the joined stack.
pub join_lem :
    (order : List TrackedResource → List TrackedResource)
    → ((rs : List TrackedResource) (i : ℕ) → contains_id (order rs) i ≡ contains_id rs i)
    → (s other : StackState) (i : ℕ)
    → (contains_id (join order s other).consumed i
        ≡ (contains_id s.consumed i && contains_id other.consumed i))
      × ((is_tracked s.stack i || is_tracked other.stack i) ≡ (
          is_tracked (join order s other).stack i
          || ((is_tracked s.stack i || is_tracked other.stack i)
              && contains_id (join order s other).consumed i)))
      × ((is_tracked s.stack i && not (is_tracked (join order s other).stack i)) ≡ false)
unfolding join
join_lem order keeps s other i =
    let both = consumed_in_both_ids s.consumed other.consumed i in
    (
      both,
      ground (arith, both, join_tracks order keeps s other i, join_only order keeps s other i),
      ground (arith, join_keeps order keeps s other i),
    )

-- The ids that `merge` reports.
unfoldable pub reports : List InconsistentResource → ℕ → Bool
reports [] i = false
reports (r ∷ rs) i = (r.resource.id == i) || reports rs i

append_reports :
    (rs more : List InconsistentResource) (i : ℕ)
    → reports (rs ++ more) i ≡ (reports rs i || reports more i)
unfolding reports
append_reports [] more i = refl
append_reports (r ∷ rs) more i = ground (arith, append_reports rs more i)

consumed_elsewhere_ids :
    (flag : Bool) (entries there here : List TrackedResource) (i : ℕ)
    → reports (consumed_elsewhere flag entries there here) i
      ≡ (contains_id entries i && (contains_id there i && not (contains_id here i)))
unfolding reports consumed_elsewhere contains_id
consumed_elsewhere_ids flag [] there here i = refl
consumed_elsewhere_ids flag (r ∷ entries) there here i = elim (Bool-cases (r.id == i)) [
  | inl t ↦
      let e : r.id ≡ i = ground arith in
      ground (
        arith,
        consumed_elsewhere_ids flag entries there here i,
        ap (contains_id there) e,
        ap (contains_id here) e,
      )
  | inr f ↦ ground (arith, consumed_elsewhere_ids flag entries there here i)
]

-- However the maps are gone through: `merge` reports exactly the resources that are on the stack of
-- one branch, which has not consumed them, and that the other branch has consumed.
pub merge_lem :
    (order : List TrackedResource → List TrackedResource)
    → ((rs : List TrackedResource) (i : ℕ) → contains_id (order rs) i ≡ contains_id rs i)
    → (s other : StackState) (i : ℕ)
    → reports (merge order s other) i ≡ (
        (is_tracked s.stack i && (contains_id other.consumed i && not (contains_id s.consumed i)))
        || (is_tracked other.stack i
            && (contains_id s.consumed i && not (contains_id other.consumed i))))
unfolding merge
merge_lem order keeps s other i =
    let mine = order (collect s.stack) in
    let theirs = order (collect other.stack) in
    let in_mine : contains_id mine i ≡ is_tracked s.stack i =
      keeps (collect s.stack) i ∙ collect_ids s.stack i in
    let in_theirs : contains_id theirs i ≡ is_tracked other.stack i =
      keeps (collect other.stack) i ∙ collect_ids other.stack i in
    append_reports (consumed_elsewhere true mine other.consumed s.consumed) _ i
    ∙ rw
        (
          consumed_elsewhere_ids true mine other.consumed s.consumed i,
          consumed_elsewhere_ids false theirs s.consumed other.consumed i,
          in_mine,
          in_theirs,
        )
        refl
