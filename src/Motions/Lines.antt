-- ===== src/Motions/Lines.antt =====
-- The motions between lines of crates/vim-line/src/vim/motions.rs.
pub mod UpDown
use patch_seq.Base.{
  ℕ, zero, suc, ◌+◌, ◌-◌, Bool, true, false, not, Option, none, some, List, ltb, leb, ◌==◌,
  if◌then◌else◌, length, min,
}
use patch_seq.Motions.{
  byte, is_char_boundary, slice, rfind_newline, find_newline, after, or_end, line_start_of,
  line_end_of,
}

unfoldable pub is_on_first_line : (cursor : ℕ) → List ℕ → Option Bool
unfolding rfind_newline
is_on_first_line cursor text =
    let end = min cursor (length text) in
    slice text end (some (elim (rfind_newline text end) [ none ↦ true | some _ ↦ false ]))

unfoldable pub is_on_last_line : (cursor : ℕ) → List ℕ → Option Bool
unfolding find_newline
is_on_last_line cursor text =
    let start = min cursor (length text) in
    slice text start
      (some (elim (find_newline text (length text - start) start) [ none ↦ true | some _ ↦ false ]))

unfoldable pub move_up : (cursor : ℕ) → List ℕ → Option ℕ
unfolding rfind_newline
move_up cursor text = slice text cursor (
    let line_start = line_start_of text cursor in
    if line_start == 0
    then some cursor
    else let col = cursor - line_start in
      let prev_line_end = line_start - 1 in
      slice text prev_line_end (
        let prev_line_start = line_start_of text prev_line_end in
        some (prev_line_start + min col (prev_line_end - prev_line_start))))

-- The rest of `move_down`, below the newline at `newline`.
unfoldable pub down_from : (col : ℕ) → (newline : ℕ) → List ℕ → Option ℕ
unfolding find_newline
down_from col newline text =
    let next_line_start = newline + 1 in
    if leb (length text) next_line_start
    then some (length text)
    else slice text next_line_start
        (some (next_line_start + min col (line_end_of text next_line_start - next_line_start)))

unfoldable pub move_down : (cursor : ℕ) → List ℕ → Option ℕ
unfolding rfind_newline find_newline down_from
move_down cursor text = slice text cursor (
    let col = cursor - line_start_of text cursor in
    elim (find_newline text (length text - cursor) cursor) [
      | none ↦ some cursor
      | some newline ↦ down_from col newline text
    ])
