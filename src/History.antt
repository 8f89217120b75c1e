-- ===== src/History.antt =====
-- The command-history store of the line editor (crates/vim-line/src/history.rs). The lower-casing
-- and the substring test of `search` are those of Rust's text library, which are parameters here.
pub mod Valid
pub mod Calls
pub mod Browse
pub mod Search
mod Tests
use Prim.Native.String.{String}
use text.Mathlib.Text.{◌==◌}
use patch_seq.Base.{
  ℕ, zero, suc, ◌+◌, ◌-◌, Bool, true, false, Option, none, some, List, [], ◌∷◌, ◌++◌, ltb, leb,
  if◌then◌else◌, length, get_elem?, ◌≡◌,
}

pub data Recall : Type 0 where
  entry : String → Recall
  draft : String → Recall

pub record Store : Type 0 where
  pub entries : List String
  pub max_size : ℕ
  pub cursor : Option ℕ
  pub draft : String

abbrev pub default_max_size : ℕ
default_max_size = 1000

unfoldable pub with_max_size : ℕ → Store
with_max_size max_size = record { entries = []; max_size = max_size; cursor = none; draft = "" }

unfoldable pub new : Store
unfolding with_max_size
new = with_max_size default_max_size

-- `entries.back() == Some(&entry)`
unfoldable pub is_last : String → List String → Bool
is_last e [] = false
is_last e (x ∷ []) = x == e
is_last e (x ∷ y ∷ xs) = is_last e (y ∷ xs)

-- `while entries.len() > max_size { entries.pop_front(); }`
unfoldable pub evict : ℕ → List String → List String
evict max [] = []
evict max (x ∷ xs) = if ltb max (length (x ∷ xs)) then evict max xs else x ∷ xs

unfoldable pub push_raw : String → Store → Store
unfolding is_last evict
push_raw e s =
    if e == ""
    then s
    else if is_last e s.entries
    then s
    else let all = s.entries ++ (e ∷ []) in
      record s { entries = if ltb 0 s.max_size then evict s.max_size all else all }

unfoldable pub push : String → Store → Store
unfolding push_raw
push e s = record (push_raw e s) { cursor = none; draft = "" }

unfoldable pub push_each : List String → Store → Store
unfolding push_raw
push_each [] s = s
push_each (e ∷ es) s = push_each es (push_raw e s)

unfoldable pub load : List String → Store → Store
unfolding push_each
load es s = push_each es (record s { entries = []; cursor = none; draft = "" })

abbrev pub is_empty : Store → Bool
is_empty s = elim s.entries [ [] ↦ true | _ ↦ false ]

-- `&self.entries[idx]`; out of bounds it panics, which `none` stands for.
abbrev pub recall_at : ℕ → Store → Option (Option Recall × Store)
recall_at i s = elim (get_elem? s.entries i) [ none ↦ none | some e ↦ some (some (entry e), s) ]

abbrev pub prev_from : Option ℕ → String → Store → Option (Option Recall × Store)
prev_from none current s =
    let idx = length s.entries - 1 in
    recall_at idx (record s { draft = current; cursor = some idx })
prev_from (some zero) current s = some (none, s)
prev_from (some (suc idx)) current s = recall_at idx (record s { cursor = some idx })

unfoldable pub prev : String → Store → Option (Option Recall × Store)
prev current s = if is_empty s then some (none, s) else prev_from s.cursor current s

abbrev pub next_from : Option ℕ → Store → Option (Option Recall × Store)
next_from none s = some (none, s)
next_from (some idx) s =
    let last = length s.entries - 1 in
    if ltb idx last
    then recall_at (idx + 1) (record s { cursor = some (idx + 1) })
    else some (some (Recall.draft s.draft), record s { cursor = none })

unfoldable pub next : Store → Option (Option Recall × Store)
next s = next_from s.cursor s

unfoldable pub cancel_recall : Store → String × Store
cancel_recall s = (s.draft, record s { cursor = none; draft = "" })

-- The matching indices among the entries from index `i` on, the highest first.
unfoldable pub hits_from : (String → Bool) → ℕ → List String → List ℕ
hits_from matches i [] = []
hits_from matches i (x ∷ xs) = hits_from matches (i + 1) xs ++ (if matches x then i ∷ [] else [])

unfoldable pub search :
    (to_lowercase : String → String) → (contains : String → String → Bool) → String → Store → List ℕ
unfolding hits_from
search to_lowercase contains query s =
    if query == ""
    then []
    else hits_from (λ e. contains (to_lowercase e) (to_lowercase query)) 0 s.entries
