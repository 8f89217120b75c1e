-- ===== src/Captures/Laws.antt =====
-- When the capture analysis of crates/compiler/src/capture_analysis.rs succeeds, and with what.
use patch_seq.Base.{
  ℕ, suc, ◌-◌, ◌+◌, ◌≡◌, ◌↔◌, ◌⊎◌, inl, inr, refl, sym, ap, true, false, ◌||◌, none, List, [], ◌∷◌,
  ◌++◌, length, ltb, drop, take, arith, Bool-cases, Option-cases, take-drop, length-drop,
  take_length-append, drop_length-append, length-append,
}
use patch_seq.Types.{Ty, Effect}
use patch_seq.Types.Equality.{same_type, same_type_iff}
use patch_seq.Captures.{
  extract_concrete_types, inputs, is_type_var, captured, check_provided, calculate_captures,
}

-- An input of the body that the call provides: of the same type, or one of the two is a variable.
abbrev pub Fits : Ty → Ty → Type 0
Fits b c = (b ≡ c) ⊎ ((is_type_var b || is_type_var c) ≡ true)

abbrev pub AllFit : List Ty → List Ty → Type 0
AllFit [] [] = Unit
AllFit (b ∷ bs) (c ∷ cs) = Fits b c × AllFit bs cs
AllFit _ _ = ⊥

AllFit-length : (bs cs : List Ty) → AllFit bs cs → length bs ≡ length cs
AllFit-length [] [] h = refl
AllFit-length (b ∷ bs) (c ∷ cs) h = ap suc (AllFit-length bs cs h.1)
AllFit-length [] (c ∷ cs) h = absurd h
AllFit-length (b ∷ bs) [] h = absurd h

check-AllFit :
    (i : ℕ) (bs cs : List Ty) → length bs ≡ length cs → check_provided i bs cs ≡ none → AllFit bs cs
unfolding check_provided
check-AllFit i [] [] l e = tt
check-AllFit i (b ∷ bs) (c ∷ cs) l e = elim (Bool-cases (same_type b c)) [
  | inl y ↦
      (inl ((same_type_iff b c).0 y), check-AllFit (i + 1) bs cs (omega (arith, l)) (rw y at e))
  | inr n ↦ elim (Bool-cases (is_type_var b || is_type_var c)) [
    | inl v ↦ (inr v, check-AllFit (i + 1) bs cs (omega (arith, l)) (rw (n, v) at e))
    | inr w ↦ absurd (cc (rw (n, w) at e))
  ]
]
check-AllFit i [] (c ∷ cs) l e = absurd (omega (arith, l))
check-AllFit i (b ∷ bs) [] l e = absurd (omega (arith, l))

AllFit-check : (i : ℕ) (bs cs : List Ty) → AllFit bs cs → check_provided i bs cs ≡ none
unfolding check_provided
AllFit-check i [] [] h = refl
AllFit-check i (b ∷ bs) (c ∷ cs) (inl e, h) =
    rw ((same_type_iff b c).1 e) (AllFit-check (i + 1) bs cs h)
AllFit-check i (b ∷ bs) (c ∷ cs) (inr v, h) = elim (Bool-cases (same_type b c)) [
  | inl y ↦ rw y (AllFit-check (i + 1) bs cs h)
  | inr n ↦ rw (n, v) (AllFit-check (i + 1) bs cs h)
]
AllFit-check i [] (c ∷ cs) h = absurd h
AllFit-check i (b ∷ bs) [] h = absurd h

inputs_of : Effect → List Ty
inputs_of e = extract_concrete_types (inputs e)

-- The captured types, and the others, which fit what the call provides.
abbrev pub Captures : (body call : Effect) → List Ty → Type 0
Captures body call cs =
    (provided : List Ty) × (extract_concrete_types (inputs body) ≡ cs ++ provided)
    × AllFit provided (extract_concrete_types (inputs call))

captured_injective : {cs ds : List Ty} → captured cs ≡ captured ds → cs ≡ ds
captured_injective e = cc e

calculate-Captures :
    (body call : Effect) (cs : List Ty)
    → calculate_captures body call ≡ captured cs
    → Captures body call cs
unfolding calculate_captures
calculate-Captures body call cs e =
    let b = extract_concrete_types (inputs body) in
    let c = extract_concrete_types (inputs call) in
    let n = length b - length c in
    elim (Bool-cases (ltb (length b) (length c))) [
      | inl y ↦ absurd (cc (rw y at e))
      | inr f ↦ elim (Option-cases (check_provided 0 (drop n b) c)) [
        | inr (k, w) ↦ absurd (cc (rw (f, w) at e))
        | inl w ↦
            let same : take n b ≡ cs = cc (rw (f, w) at e) in
            let l : length (drop n b) ≡ length c = ground (arith, length-drop n b) in
            (drop n b, rw (sym same) (sym (take-drop n b)), check-AllFit 0 (drop n b) c l w)
      ]
    ]

Captures-calculate :
    (body call : Effect) (cs : List Ty)
    → Captures body call cs
    → calculate_captures body call ≡ captured cs
unfolding calculate_captures
Captures-calculate body call cs (provided, e, fit) =
    let c = extract_concrete_types (inputs call) in
    let l = AllFit-length provided c fit in
    let n : length (cs ++ provided) - length c ≡ length cs =
      omega (arith, length-append cs provided, l) in
    let enough : ltb (length (cs ++ provided)) (length c) ≡ false =
      ground (arith, length-append cs provided, l) in
    rw
      (
        e,
        enough,
        n,
        drop_length-append cs provided,
        AllFit-check 0 provided c fit,
        e,
        n,
        take_length-append cs provided,
      )
      refl

-- `calculate_captures` returns some types exactly if the concrete inputs of the body are these types,
-- from the bottom up, and above them one input for each that the call provides, of the same type or
-- with a type variable on one side.
pub calculate_captures_iff :
    (body call : Effect) (cs : List Ty)
    → (calculate_captures body call ≡ captured cs) ↔ Captures body call cs
calculate_captures_iff body call cs =
    (calculate-Captures body call cs, Captures-calculate body call cs)
