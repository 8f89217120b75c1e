-- ===== src/History/Tests.antt =====
-- The theorems on the history store, at concrete stores.
use Prim.Native.String.{String}
use text.Mathlib.Text.{◌==◌}
use patch_seq.Base.{◌≡◌, Bool, none, some, List, [], ◌∷◌}
use patch_seq.History.{Store, with_max_size}
use patch_seq.History.Valid.{IsValid}
use patch_seq.History.Calls.{Call, serve_all, calls-IsValid}

abbrev session : List Call
session =
    Call.push "1 2 add"
    ∷ Call.push "dup"
    ∷ Call.push "dup"
    ∷ Call.push ""
    ∷ Call.push "swap"
    ∷ Call.prev "dr"
    ∷ Call.next
    ∷ Call.cancel_recall
    ∷ []

calls-IsValid_example : (s : Store) × (serve_all session (with_max_size 2) ≡ some s) × IsValid s
calls-IsValid_example = calls-IsValid 2 session

abbrev two_lines : Store
two_lines = record { entries = "1 2 add" ∷ "dup" ∷ []; max_size = 1000; cursor = none; draft = "" }

-- Text without upper case, and the substring test as equality.
abbrev same_text : String → String → Bool
same_text a b = a == b
