-- ===== src/Captures.antt =====
-- Which values a closure captures (crates/compiler/src/capture_analysis.rs). Lists of types are from
-- the bottom of the stack up. An error message is kept as its kind.
pub mod Laws
mod Tests
use patch_seq.Base.{
  ℕ, suc, ◌-◌, ◌+◌, Bool, true, false, ◌||◌, Option, none, some, List, [], ◌∷◌, ◌++◌, length, ltb,
  if◌then◌else◌, drop, take,
}
use patch_seq.Types.{Ty, StackType, Effect, effect, var, empty, cons, row_var}
use patch_seq.Types.Equality.{same_type}

unfoldable pub collect : StackType → (result : List Ty) → List Ty
collect (cons rest top) result = collect rest result ++ (top ∷ [])
collect empty result = result
collect (row_var name) result = result

unfoldable pub extract_concrete_types : StackType → List Ty
unfolding collect
extract_concrete_types stack = collect stack []

abbrev pub inputs : Effect → StackType
inputs (effect i o s) = i

unfoldable pub is_type_var : Ty → Bool
is_type_var (var name) = true
is_type_var t = false

pub data Outcome : Type 0 where
  captured : (captures : List Ty) → Outcome
  too_many : (provided needed : ℕ) → Outcome
  mismatch : (position : ℕ) → (body_type call_type : Ty) → Outcome

-- The loop over the inputs that are not captured, next to those that the call provides.
unfoldable pub check_provided :
    (i : ℕ) → (body_provided call_inputs : List Ty) → Option (ℕ × Ty × Ty)
unfolding same_type is_type_var
check_provided i (b ∷ bs) (c ∷ cs) =
    if same_type b c || (is_type_var b || is_type_var c)
    then check_provided (i + 1) bs cs
    else some (i, b, c)
check_provided i _ _ = none

unfoldable pub calculate_captures : (body_effect call_effect : Effect) → Outcome
unfolding extract_concrete_types check_provided
calculate_captures body_effect call_effect =
    let body = extract_concrete_types (inputs body_effect) in
    let call = extract_concrete_types (inputs call_effect) in
    if ltb (length body) (length call)
    then too_many (length call) (length body)
    else (let capture_count = length body - length call in
        elim (check_provided 0 (drop capture_count body) call) [
          | some (i, b, c) ↦ mismatch i b c
          | none ↦ captured (take capture_count body)
        ])
