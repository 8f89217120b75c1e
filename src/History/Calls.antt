-- ===== src/History/Calls.antt =====
-- Any sequence of calls of a host, from an empty store on.
use Prim.Native.String.{String}
use patch_seq.Base.{ℕ, ◌≡◌, refl, Option, none, some, List, [], ◌∷◌, arith}
use patch_seq.History
use patch_seq.History.{
  Store, Recall, entry, with_max_size, is_last, evict, push_raw, push_each, recall_at, prev_from,
  next_from, is_empty,
}
use patch_seq.History.Valid.{
  IsValid, push-IsValid, load-IsValid, cancel_recall-IsValid, next-Succeeds, prev-Succeeds,
}

-- The calls that a host makes.
pub data Call : Type 0 where
  push : String → Call
  load : List String → Call
  prev : String → Call
  next cancel_recall : Call

abbrev pub store_of : Option (Option Recall × Store) → Option Store
store_of none = none
store_of (some (r, s)) = some s

-- The store after a call; `none` stands for a panic.
abbrev pub serve : Call → Store → Option Store
serve (Call.push e) s = some (History.push e s)
serve (Call.load es) s = some (History.load es s)
serve (Call.prev current) s = store_of (History.prev current s)
serve Call.next s = store_of (History.next s)
serve Call.cancel_recall s = some (History.cancel_recall s).1

abbrev pub serve_then : (Store → Option Store) → Option Store → Option Store
serve_then k none = none
serve_then k (some s) = k s

abbrev pub serve_all : List Call → Store → Option Store
serve_all [] s = some s
serve_all (c ∷ cs) s = serve_then (serve_all cs) (serve c s)

serve-IsValid :
    (c : Call) (s : Store) → IsValid s → (s' : Store) × (serve c s ≡ some s') × IsValid s'
serve-IsValid (Call.push e) s v = (_, refl, push-IsValid s v e)
serve-IsValid (Call.load es) s v = (_, refl, load-IsValid s v es)
serve-IsValid (Call.prev current) s v =
    let (r, s', e, w) = prev-Succeeds s current v in (s', rw e refl, w)
serve-IsValid Call.next s v = let (r, s', e, w) = next-Succeeds s v in (s', rw e refl, w)
serve-IsValid Call.cancel_recall s v = (_, refl, cancel_recall-IsValid s v)

serve_all-IsValid :
    (cs : List Call) (s : Store)
    → IsValid s
    → (s' : Store) × (serve_all cs s ≡ some s') × IsValid s'
serve_all-IsValid [] s v = (s, refl, v)
serve_all-IsValid (c ∷ cs) s v =
    let (s', e, w) = serve-IsValid c s v in
    let (s'', e', w') = serve_all-IsValid cs s' w in (s'', rw (e, e') refl, w')

-- From an empty store of any capacity, no sequence of calls panics; after it the store holds at most
-- the capacity, if that is not 0, its cursor is at an entry, and no entry is empty or equal to the
-- one after it.
pub calls-IsValid :
    (max : ℕ) (cs : List Call)
    → (s : Store) × (serve_all cs (with_max_size max) ≡ some s) × IsValid s
unfolding with_max_size
calls-IsValid max cs =
    serve_all-IsValid cs (with_max_size max)
      (record { bounded = λ _. omega arith; placed = tt; tidy = tt })
