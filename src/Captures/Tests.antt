-- ===== src/Captures/Tests.antt =====
-- The theorem on captures, at a concrete closure.
use patch_seq.Base.{[], ◌∷◌, ◌≡◌, ◌↔◌}
use patch_seq.Types.{Effect, effect, pure, int, bool, cons, row_var}
use patch_seq.Captures.{calculate_captures, captured}
use patch_seq.Captures.Laws.{Captures, calculate_captures_iff}

-- `( ..a Bool Int -- ..a Int )`, called as `( ..a Int -- ..a Int )`
abbrev body : Effect
body = effect (cons (cons (row_var "a") bool) int) (cons (row_var "a") int) pure

abbrev callee : Effect
callee = effect (cons (row_var "a") int) (cons (row_var "a") int) pure

calculate_captures_iff_example :
    (calculate_captures body callee ≡ captured (bool ∷ [])) ↔ Captures body callee (bool ∷ [])
calculate_captures_iff_example = calculate_captures_iff body callee (bool ∷ [])
