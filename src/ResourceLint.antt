-- ===== src/ResourceLint.antt =====
-- The abstract stacks of the resource lint (crates/compiler/src/resource_lint/state.rs). A vector is a
-- list with its end last, and a `HashMap` from ids an association list with one entry for an id;
-- `order` is the order in which it is gone through.
pub mod Joins
mod Tests
use Prim.Native.String.{String}
use patch_seq.Base.{
  ℕ, ◌+◌, Bool, true, false, ◌&&◌, ◌||◌, not, Option, none, some, List, [], ◌∷◌, ◌++◌, leb, ◌==◌,
  if◌then◌else◌, length, max,
}

pub data ResourceKind : Type 0 where
  weave_handle channel : ResourceKind

unfoldable pub name : ResourceKind → String
name weave_handle = "WeaveHandle"
name channel = "Channel"

unfoldable pub cleanup_suggestion : ResourceKind → String
cleanup_suggestion weave_handle = "use `strand.weave-cancel` or resume to completion"
cleanup_suggestion channel = "use `chan.close` when done"

pub record TrackedResource : Type 0 where
  pub kind : ResourceKind
  pub id : ℕ
  pub created_line : ℕ
  pub created_by : String

pub data StackValue : Type 0 where
  resource : TrackedResource → StackValue
  unknown : StackValue

pub record StackState : Type 0 where
  pub stack : List StackValue
  pub aux_stack : List StackValue
  pub consumed : List TrackedResource
  pub next_id : ℕ

abbrev pub new : StackState
new = record { stack = []; aux_stack = []; consumed = []; next_id = 0 }

abbrev pub push_unknown : StackState → StackState
push_unknown s = record s { stack = s.stack ++ unknown ∷ [] }

unfoldable pub push_resource : StackState → ResourceKind → (line : ℕ) → (word : String) → StackState
push_resource s kind line word =
    let r : TrackedResource = record {
      kind = kind;
      id = s.next_id;
      created_line = line;
      created_by = word;
    } in
    record s { next_id = s.next_id + 1; stack = s.stack ++ resource r ∷ [] }

-- `Vec::pop`: the rest and the last value.
unfoldable pub pop_last {ℓ} : {A : Type ℓ} → List A → Option (List A × A)
pop_last [] = none
pop_last (x ∷ xs) = elim (pop_last xs) [ none ↦ some ([], x) | some (rest, y) ↦ some (x ∷ rest, y) ]

unfoldable pub pop : StackState → Option (StackState × StackValue)
unfolding pop_last
pop s = elim (pop_last s.stack) [
  | none ↦ none
  | some (rest, v) ↦ some (record s { stack = rest }, v)
]

unfoldable pub peek : StackState → Option StackValue
unfolding pop_last
peek s = elim (pop_last s.stack) [ none ↦ none | some (rest, v) ↦ some v ]

abbrev pub depth : StackState → ℕ
depth s = length s.stack

unfoldable pub consume_resource : StackState → TrackedResource → StackState
consume_resource s r = record s { consumed = s.consumed ++ r ∷ [] }

unfoldable pub resources : List StackValue → List TrackedResource
resources [] = []
resources (resource r ∷ values) = r ∷ resources values
resources (unknown ∷ values) = resources values

abbrev pub remaining_resources : StackState → List TrackedResource
remaining_resources s = resources s.stack

-- Whether one of the resources has the id.
unfoldable pub contains_id : List TrackedResource → ℕ → Bool
contains_id [] i = false
contains_id (r ∷ rs) i = (r.id == i) || contains_id rs i

-- `HashMap::insert` under the id of the resource.
unfoldable pub insert_entry : List TrackedResource → TrackedResource → List TrackedResource
insert_entry [] r = r ∷ []
insert_entry (q ∷ entries) r =
    let rest = insert_entry entries r in if q.id == r.id then r ∷ entries else q ∷ rest

unfoldable pub collect_from : List TrackedResource → List TrackedResource → List TrackedResource
unfolding insert_entry
collect_from entries [] = entries
collect_from entries (r ∷ rs) = collect_from (insert_entry entries r) rs

abbrev pub collect : List StackValue → List TrackedResource
collect values = collect_from [] (resources values)

pub record InconsistentResource : Type 0 where
  pub resource : TrackedResource
  pub consumed_in_else : Bool

-- The loops of `merge`: resources of one branch that the other has consumed and it has not.
unfoldable pub consumed_elsewhere :
    (consumed_in_else : Bool)
    → (entries there here : List TrackedResource) → List InconsistentResource
unfolding contains_id
consumed_elsewhere flag [] there here = []
consumed_elsewhere flag (r ∷ entries) there here =
    let rest = consumed_elsewhere flag entries there here in
    if contains_id there r.id && not (contains_id here r.id)
    then record { resource = r; consumed_in_else = flag } ∷ rest
    else rest

unfoldable pub merge :
    (order : List TrackedResource → List TrackedResource)
    → StackState
    → StackState
    → List InconsistentResource
unfolding consumed_elsewhere collect_from
merge order s other =
    consumed_elsewhere true (order (collect s.stack)) other.consumed s.consumed
    ++ consumed_elsewhere false (order (collect other.stack)) s.consumed other.consumed

unfoldable pub consumed_in_both : List TrackedResource → List TrackedResource → List TrackedResource
unfolding contains_id
consumed_in_both [] other = []
consumed_in_both (r ∷ rs) other =
    let rest = consumed_in_both rs other in if contains_id other r.id then r ∷ rest else rest

-- The loop of `join` over the positions.
unfoldable pub fill : List StackValue → List StackValue → List StackValue
fill [] other = []
fill (v ∷ values) [] = v ∷ values
fill (unknown ∷ values) (resource r ∷ other) = resource r ∷ fill values other
fill (v ∷ values) (w ∷ other) = v ∷ fill values other

-- The loop of `join` over the resources of the other branch.
unfoldable pub add_missing :
    (ids definitely_consumed entries : List TrackedResource) → List StackValue → List StackValue
unfolding contains_id
add_missing ids done [] values = values
add_missing ids done (r ∷ entries) values = add_missing ids done entries (
    if not (contains_id ids r.id) && not (contains_id done r.id)
    then values ++ resource r ∷ []
    else values)

unfoldable pub join :
    (order : List TrackedResource → List TrackedResource) → StackState → StackState → StackState
unfolding consumed_in_both fill add_missing resources collect_from
join order s other =
    let definitely_consumed = consumed_in_both s.consumed other.consumed in
    let filled = fill s.stack other.stack in
    record {
      stack =
          add_missing (resources filled) definitely_consumed (order (collect other.stack)) filled;
      aux_stack =
          if leb (length other.aux_stack) (length s.aux_stack)
          then s.aux_stack
          else other.aux_stack;
      consumed = definitely_consumed;
      next_id = max s.next_id other.next_id;
    }
