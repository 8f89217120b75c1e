-- ===== src/Vim/Modes/Visual.antt =====
-- Visual mode of crates/vim-line/src/vim.rs, and the mode that replaces a character.
use patch_seq.Base.{
  ℕ, ◌+◌, ◌&&◌, not, Option, none, some, List, [], ◌∷◌, ltb, leb, if◌then◌else◌, length,
}
use patch_seq.Motions.{
  is_char_boundary, forward, move_left, move_right, move_line_start, move_line_end,
  move_word_forward, move_word_backward, move_word_end, move_word_forward_word,
  move_word_backward_word, move_word_end_word,
}
use patch_seq.Motions.Lines.{move_up, move_down}
use patch_seq.Vim.{
  KeyCode, char, left, right, home, Key, TextEdit, EditResult, unchanged, Operator, change, yank,
  normal, VimLineEditor, Handled,
}
use patch_seq.Vim.Text.{encode}
use patch_seq.Vim.Moves.{Motion, total, lookup}
use patch_seq.Vim.Edits.{char_end, apply_operator}
use patch_seq.Vim.Modes.{to_mode, moved_by, is_escape}

abbrev pub or_cursor : Option ℕ → ℕ → ℕ
or_cursor none cursor = cursor
or_cursor (some anchor) cursor = anchor

unfoldable pub selection_range : VimLineEditor → ℕ × ℕ
selection_range ed =
    let anchor = or_cursor ed.visual_anchor ed.cursor in
    if ltb ed.cursor anchor then (ed.cursor, anchor) else (anchor, ed.cursor + 1)

abbrev pub visual_motions : List (KeyCode × Motion)
visual_motions =
    (char b'h', total move_left)
    ∷ (left, total move_left)
    ∷ (char b'l', total move_right)
    ∷ (right, total move_right)
    ∷ (char b'j', move_down)
    ∷ (char b'k', move_up)
    ∷ (char b'w', total move_word_forward)
    ∷ (char b'b', total move_word_backward)
    ∷ (char b'e', total move_word_end)
    ∷ (char b'W', total move_word_forward_word)
    ∷ (char b'B', total move_word_backward_word)
    ∷ (char b'E', total move_word_end_word)
    ∷ (char b'0', move_line_start)
    ∷ (home, move_line_start)
    ∷ (char b'$', move_line_end)
    ∷ (KeyCode.end, move_line_end)
    ∷ []

unfoldable pub operate_on_selection : VimLineEditor → Operator → List ℕ → Handled
unfolding selection_range apply_operator
operate_on_selection ed op text =
    let (start, end) = selection_range ed in
    apply_operator (record ed { mode = normal; visual_anchor = none }) op start end text

abbrev pub selection_operators : List (KeyCode × Operator)
selection_operators =
    (char b'd', Operator.delete)
    ∷ (char b'x', Operator.delete)
    ∷ (char b'c', change)
    ∷ (char b'y', yank)
    ∷ []

unfoldable pub handle_visual : VimLineEditor → Key → List ℕ → Handled
unfolding lookup operate_on_selection
handle_visual ed key text =
    if is_escape key.code
    then some (record ed { mode = normal; visual_anchor = none }, unchanged)
    else elim (lookup key.code visual_motions) [
      | some motion ↦ moved_by motion ed text
      | none ↦ elim (lookup key.code selection_operators) [
        | some op ↦ operate_on_selection ed op text
        | none ↦ some (ed, unchanged)
      ]
    ]

-- The edits are applied in reverse.
abbrev pub replaced : ℕ → (end : ℕ) → List ℕ → EditResult
replaced cursor end new_text = record unchanged {
  edits = TextEdit.insert cursor new_text ∷ TextEdit.delete cursor end ∷ [];
}

unfoldable pub handle_replace_char : VimLineEditor → Key → List ℕ → Handled
unfolding encode forward is_char_boundary
handle_replace_char ed key text = elim key.code [
  | char c ↦
      if not key.ctrl && not key.alt
      then if leb (length text) ed.cursor
        then some (to_mode normal ed, unchanged)
        else some (to_mode normal ed, replaced ed.cursor (char_end text ed.cursor) (encode c))
      else some (to_mode normal ed, unchanged)
  | _ ↦ some (to_mode normal ed, unchanged)
]
