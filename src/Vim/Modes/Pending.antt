-- ===== src/Vim/Modes/Pending.antt =====
-- The mode of crates/vim-line/src/vim.rs in which an operator waits for a motion.
use patch_seq.Base.{
  ℕ, ◌+◌, Bool, false, none, some, List, [], ◌∷◌, ltb, ◌==◌, if◌then◌else◌, length,
}
use patch_seq.Motions.{
  move_left, move_right, move_line_start, move_line_end, move_word_forward, move_word_backward,
  move_word_end, move_word_forward_word, move_word_backward_word, move_word_end_word,
}
use patch_seq.Motions.Blank.{move_first_non_blank}
use patch_seq.Motions.Lines.{move_up, move_down}
use patch_seq.Vim.{
  KeyCode, char, left, right, home, Key, unchanged, Operator, change, yank, normal, VimLineEditor,
  Handled,
}
use patch_seq.Base.Returns.{◌>>=◌}
use patch_seq.Vim.Moves.{Motion, total, lookup}
use patch_seq.Vim.Edits.{apply_operator, apply_operator_line}
use patch_seq.Vim.Modes.{to_mode, is_escape}

-- A motion that takes the byte at its end as well.
abbrev pub including : (ℕ → List ℕ → ℕ) → Motion
including motion cursor text =
    let c = motion cursor text in some (if ltb c (length text) then c + 1 else c)

-- `w` and `W`: `cw` goes to the end of the word.
abbrev pub word_motion : Operator → (next end_of : ℕ → List ℕ → ℕ) → Motion
word_motion change next end_of = including end_of
word_motion _ next end_of = total next

abbrev pub operator_motions : Operator → List (KeyCode × Motion)
operator_motions op =
    (char b'w', word_motion op move_word_forward move_word_end)
    ∷ (char b'b', total move_word_backward)
    ∷ (char b'e', including move_word_end)
    ∷ (char b'W', word_motion op move_word_forward_word move_word_end_word)
    ∷ (char b'B', total move_word_backward_word)
    ∷ (char b'E', including move_word_end_word)
    ∷ (char b'0', move_line_start)
    ∷ (home, move_line_start)
    ∷ (char b'$', move_line_end)
    ∷ (KeyCode.end, move_line_end)
    ∷ (char b'^', move_first_non_blank)
    ∷ (char b'h', total move_left)
    ∷ (left, total move_left)
    ∷ (char b'l', total move_right)
    ∷ (right, total move_right)
    ∷ (char b'j', move_down)
    ∷ (char b'k', move_up)
    ∷ []

abbrev pub is_line_op : Operator → KeyCode → Bool
is_line_op Operator.delete (char c) = c == b'd'
is_line_op change (char c) = c == b'c'
is_line_op yank (char c) = c == b'y'
is_line_op _ _ = false

-- The operator on the text between the cursor and the end of the motion.
unfoldable pub operate_to : VimLineEditor → Operator → (end : ℕ) → List ℕ → Handled
unfolding apply_operator
operate_to ed op end text =
    let start = ed.cursor in
    let moved = record ed { cursor = end; mode = normal } in
    if start == end
    then some (moved, unchanged)
    else if ltb start end
    then apply_operator moved op start end text
    else apply_operator moved op end start text

unfoldable pub handle_operator_pending : VimLineEditor → Operator → Key → List ℕ → Handled
unfolding lookup apply_operator_line operate_to
handle_operator_pending ed op key text =
    if is_escape key.code
    then some (to_mode normal ed, unchanged)
    else if is_line_op op key.code
    then apply_operator_line (to_mode normal ed) op text
    else elim (lookup key.code (operator_motions op)) [
      | none ↦ some (to_mode normal ed, unchanged)
      | some motion ↦ motion ed.cursor text >>= λ end. operate_to ed op end text
    ]
