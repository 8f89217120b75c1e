-- ===== src/Vim/Modes/Insert.antt =====
-- Insert mode of crates/vim-line/src/vim.rs.
use patch_seq.Base.{
  ℕ, ◌+◌, ◌-◌, Bool, ◌&&◌, not, none, some, List, [], ◌∷◌, ltb, ◌==◌, if◌then◌else◌,
}
use patch_seq.Motions.{
  is_char_boundary, backward, move_left, move_right, move_line_start, move_line_end_insert,
}
use patch_seq.Motions.Lines.{move_up, move_down}
use patch_seq.Vim.{
  KeyCode, char, escape, backspace, left, right, up, down, home, enter, Key, TextEdit, unchanged,
  edited, normal, VimLineEditor, Handled,
}
use patch_seq.Vim.Text.{encode, len_utf8}
use patch_seq.Vim.Moves.{Motion, total, lookup, boundary_at}
use patch_seq.Vim.Edits.{delete_char}
use patch_seq.Vim.Modes.{to_mode, moved_by}

abbrev pub insert_motions : List (KeyCode × Motion)
insert_motions =
    (left, total move_left)
    ∷ (right, total move_right)
    ∷ (up, move_up)
    ∷ (down, move_down)
    ∷ (home, move_line_start)
    ∷ (KeyCode.end, move_line_end_insert)
    ∷ []

unfoldable pub insert_char : VimLineEditor → (ctrl alt : Bool) → ℕ → Handled
unfolding encode len_utf8
insert_char ed ctrl alt c =
    if (c == b'c') && ctrl
    then some (to_mode normal ed, unchanged)
    else if not ctrl && not alt
    then some (
      record ed { cursor = ed.cursor + len_utf8 c },
      edited (TextEdit.insert ed.cursor (encode c)),
    )
    else some (ed, unchanged)

unfoldable pub insert_backspace : VimLineEditor → List ℕ → Handled
unfolding backward is_char_boundary
insert_backspace ed text =
    let start = boundary_at text (ed.cursor - 1) in
    if ed.cursor == 0
    then some (ed, unchanged)
    else some (record ed { cursor = start }, edited (TextEdit.delete start ed.cursor))

unfoldable pub handle_insert : VimLineEditor → Key → List ℕ → Handled
unfolding lookup insert_char insert_backspace delete_char
handle_insert ed key text = elim (lookup key.code insert_motions) [
  | some motion ↦ moved_by motion ed text
  | none ↦ elim key.code [
    | escape ↦
        let c = if ltb 0 ed.cursor then move_left ed.cursor text else ed.cursor in
        some (record ed { mode = normal; cursor = c }, unchanged)
    | char c ↦ insert_char ed key.ctrl key.alt c
    | backspace ↦ insert_backspace ed text
    | KeyCode.delete ↦ delete_char ed text
    | enter ↦
        some (record ed { cursor = ed.cursor + 1 }, edited (TextEdit.insert ed.cursor (b'\n' ∷ [])))
    | _ ↦ some (ed, unchanged)
  ]
]
