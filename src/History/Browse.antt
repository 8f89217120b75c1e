-- ===== src/History/Browse.antt =====
-- Browsing back and forward with `prev` and `next` of crates/vim-line/src/history.rs.
use Prim.Native.String.{String}
use patch_seq.Base.{
  ℕ, zero, suc, ◌+◌, ◌-◌, ◌<◌, ◌≡◌, refl, true, false, Option, none, some, ltb, length, get_elem?,
  arith, ◌∙◌,
}
use patch_seq.History.{Store, Recall, entry, prev, next, recall_at}
use patch_seq.History.Valid.{get_elem?-lt, not_empty}

abbrev pub after :
    (Store → Option (Option Recall × Store))
    → Option (Option Recall × Store)
    → Option (Option Recall × Store)
after k none = none
after k (some (r, s)) = k s

-- `k + 1` calls of `prev`, or of `next`, and what the last one returns.
abbrev pub prev_times : ℕ → String → Store → Option (Option Recall × Store)
prev_times zero current s = prev current s
prev_times (suc k) current s = after (prev current) (prev_times k current s)

abbrev pub next_times : ℕ → Store → Option (Option Recall × Store)
next_times zero s = next s
next_times (suc k) s = after (next_times k) (next s)

abbrev pub at : ℕ → String → Store → Store
at i current s = record s { cursor = some i; draft = current }

prev_first :
    (s : Store) (current : String)
    → s.cursor ≡ none
    → 0 < length s.entries
    → prev current s ≡ recall_at (length s.entries - 1) (at (length s.entries - 1) current s)
unfolding prev
prev_first s current c h = rw (not_empty s h, c) refl

prev_again :
    (s : Store) (i : ℕ) (d current : String)
    → 0 < length s.entries
    → prev current (at (suc i) d s) ≡ recall_at i (at i d s)
unfolding prev
prev_again s i d current h = rw (not_empty (at (suc i) d s) h) refl

recalled :
    (s : Store) (i : ℕ) (d : String) (e : String)
    → get_elem? s.entries i ≡ some e
    → recall_at i (at i d s) ≡ some (some (entry e), at i d s)
recalled s i d e h = rw (recall_at, h) refl

-- After `k + 1` calls of `prev` the cursor is `k` below the newest entry.
prev_times_lem :
    (s : Store) (current : String) (k i : ℕ)
    → s.cursor ≡ none
    → i + suc k ≡ length s.entries
    → (e : String) × (get_elem? s.entries i ≡ some e)
      × (prev_times k current s ≡ some (some (entry e), at i current s))
prev_times_lem s current zero i c h =
    let (e, q) = get_elem?-lt s.entries i (omega arith) in
    let p : length s.entries - 1 ≡ i = omega arith in
    (e, q, prev_first s current c (omega arith) ∙ rw p (recalled s i current e q))
prev_times_lem s current (suc k) i c h =
    let (e, q) = get_elem?-lt s.entries i (omega arith) in
    let (e', q', run) = prev_times_lem s current k (suc i) c (omega arith) in
    (e, q, rw run (prev_again s i current current (omega arith) ∙ recalled s i current e q))

next_last :
    (s : Store) (i : ℕ) (d : String)
    → suc i ≡ length s.entries
    → next (at i d s) ≡ some (some (Recall.draft d), record s { cursor = none; draft = d })
unfolding next
next_last s i d h = let e : ltb i (length s.entries - 1) ≡ false = ground arith in rw e refl

next_again :
    (s : Store) (i : ℕ) (d : String) (e : String)
    → i + 1 < length s.entries
    → get_elem? s.entries (i + 1) ≡ some e
    → next (at i d s) ≡ some (some (entry e), at (i + 1) d s)
unfolding next
next_again s i d e h q =
    let p : ltb i (length s.entries - 1) ≡ true = ground arith in rw p (recalled s (i + 1) d e q)

next_times_lem :
    (s : Store) (d : String) (k i : ℕ)
    → i + suc k ≡ length s.entries
    → next_times k (at i d s) ≡ some (some (Recall.draft d), record s { cursor = none; draft = d })
next_times_lem s d zero i h = next_last s i d (omega arith)
next_times_lem s d (suc k) i h =
    let (e, q) = get_elem?-lt s.entries (i + 1) (omega arith) in
    rw (next_again s i d e (omega arith) q) (next_times_lem s d k (i + 1) (omega arith))

-- In a store that is not browsing, `k + 1` calls of `prev`, `k` less than the number of entries,
-- show the entry `k` places before the newest; as many calls of `next` after them end with the draft
-- that the first `prev` was given, and leave the store not browsing, its entries as they were.
pub browse_round_trip :
    (s : Store) (current : String) (k : ℕ)
    → s.cursor ≡ none
    → k < length s.entries
    → (e : String) × (s' : Store) × (get_elem? s.entries (length s.entries - suc k) ≡ some e)
      × (prev_times k current s ≡ some (some (entry e), s'))
      × (next_times k s'
          ≡ some (some (Recall.draft current), record s { cursor = none; draft = current }))
browse_round_trip s current k c h =
    let i = length s.entries - suc k in
    let (e, q, run) = prev_times_lem s current k i c (omega arith) in
    (e, at i current s, q, run, next_times_lem s current k i (omega arith))
