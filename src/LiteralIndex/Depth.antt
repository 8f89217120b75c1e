-- ===== src/LiteralIndex/Depth.antt =====
-- How many concrete items the type of `roll` with a literal index has
-- (crates/compiler/src/typechecker/stack_utils.rs).
use patch_seq.Base.{
  ℕ, suc, ◌+◌, ◌<◌, ◌≤◌, ◌≡◌, refl, false, List, [], ◌∷◌, length, ◌==◌, leb, arith,
}
use patch_seq.Word.{i64_min}
use patch_seq.Types.{Ty, StackType, var, empty, cons, row_var, push, push_all}
use patch_seq.LiteralIndex.{
  ok, FreshName, stack_depth, rotate, rotate_type_to_top, handle_literal_roll,
}

-- The stack type has a row variable at its bottom.
abbrev pub EndsInRow : StackType → Type 0
EndsInRow empty = ⊥
EndsInRow (row_var name) = Unit
EndsInRow (cons rest top) = EndsInRow rest

stack_depth-push_all :
    (s : StackType) (above : List Ty)
    → stack_depth (push_all s above) ≡ stack_depth s + length above
unfolding push_all push stack_depth
stack_depth-push_all s [] = omega arith
stack_depth-push_all s (t ∷ above) = omega (arith, stack_depth-push_all (cons s t) above)

rotate_past_row :
    (fresh : FreshName) (s : StackType) (n pos k : ℕ) (above : List Ty)
    → EndsInRow s
    → pos + stack_depth s ≤ n
    → (st' : StackType) × (rotate fresh s n pos above k ≡ ok st' (k + 1))
      × (stack_depth st' ≡ suc (stack_depth s + length above))
unfolding rotate stack_depth push
rotate_past_row fresh (row_var name) n pos k above h l = (
  push (push_all (row_var name) above) (var (fresh "roll" name k)),
  refl,
  omega (arith, stack_depth-push_all (row_var name) above),
)
rotate_past_row fresh (cons rest top) n pos k above h l =
    let (st', run, d) =
      rotate_past_row fresh rest n (pos + 1) k (top ∷ above) h (omega (arith, l)) in
    let e : (pos == n) ≡ false = ground (arith, l) in (st', rw e run, omega (arith, d))
rotate_past_row fresh empty n pos k above h l = absurd h

-- For a stack type with a row variable at its bottom and at most as many concrete items as the literal
-- index, which is not 0, the type checker types `roll` with that index by a fresh variable on top of
-- all the items and the row variable that were there: by one item more than there were.
pub roll_past_row_adds :
    (fresh : FreshName) (n k : ℕ) (st : StackType)
    → 0 < n
    → n < i64_min
    → EndsInRow st
    → stack_depth st ≤ n
    → (st' : StackType) × (handle_literal_roll fresh n st k ≡ ok st' (k + 1))
      × (stack_depth st' ≡ suc (stack_depth st))
unfolding handle_literal_roll rotate_type_to_top
roll_past_row_adds fresh n k st up small h l =
    let (st', run, d) = rotate_past_row fresh st n 0 k [] h (omega (arith, l)) in
    let e : (n == 0) ≡ false = ground arith in
    let e' : leb i64_min n ≡ false = ground arith in (st', rw (e', e) run, omega (arith, d))
