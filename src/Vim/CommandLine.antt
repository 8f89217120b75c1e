-- ===== src/Vim/CommandLine.antt =====
-- The command line of crates/vim-line/src/vim/command_line.rs, and its accessors in vim.rs.
use patch_seq.Base.{
  ℕ, ◌+◌, ◌-◌, Bool, ◌&&◌, not, Option, none, some, List, [], ltb, leb, ◌==◌, if◌then◌else◌, length,
  min,
}
use patch_seq.Motions.{is_char_boundary, forward, backward}
use patch_seq.Vim.{
  KeyCode, char, escape, backspace, left, right, home, enter, Key, submit_command, unchanged,
  requested, normal, command_line, VimLineEditor, Handled,
}
use patch_seq.Base.Returns.{◌>>=◌}
use patch_seq.Vim.Text.{remove_range, insert_str, encode, len_utf8}
use patch_seq.Vim.Moves.{boundary_at}
use patch_seq.Vim.Edits.{char_end}

unfoldable pub command_line_buffer : VimLineEditor → Option (List ℕ)
command_line_buffer ed = elim ed.mode [ command_line ↦ some ed.command_buf | _ ↦ none ]

unfoldable pub set_command_line : VimLineEditor → List ℕ → ℕ → VimLineEditor
unfolding backward is_char_boundary
set_command_line ed buf cursor = elim ed.mode [
  | command_line ↦ record ed {
    command_buf = buf;
    command_cursor = boundary_at buf (min cursor (length buf));
  }
  | _ ↦ ed
]

unfoldable pub exit_command_line : VimLineEditor → VimLineEditor
exit_command_line ed = record ed { command_buf = []; command_cursor = 0; mode = normal }

-- A key that edits the buffer or moves in it: the new buffer and cursor.
abbrev pub Buffer : Type 0
Buffer = List ℕ × ℕ

unfoldable pub delete_before : List ℕ → ℕ → Option Buffer
unfolding backward is_char_boundary remove_range
delete_before buf cursor =
    let start = boundary_at buf (cursor - 1) in
    if cursor == 0
    then some (buf, cursor)
    else remove_range buf start cursor >>= λ rest. some (rest, start)

unfoldable pub delete_at : List ℕ → ℕ → Option Buffer
unfolding forward is_char_boundary remove_range
delete_at buf cursor =
    if leb (length buf) cursor
    then some (buf, cursor)
    else remove_range buf cursor (char_end buf cursor) >>= λ rest. some (rest, cursor)

unfoldable pub put_char : List ℕ → ℕ → (c : ℕ) → Option Buffer
unfolding insert_str encode len_utf8
put_char buf cursor c =
    insert_str buf cursor (encode c) >>= λ longer. some (longer, cursor + len_utf8 c)

abbrev pub step_left : List ℕ → ℕ → ℕ
step_left buf cursor = if ltb 0 cursor then boundary_at buf (cursor - 1) else cursor

abbrev pub step_right : List ℕ → ℕ → ℕ
step_right buf cursor = if ltb cursor (length buf) then char_end buf cursor else cursor

abbrev pub with_buffer : VimLineEditor → Option Buffer → Handled
with_buffer ed buffer = buffer >>= λ (buf, cursor).
    some (record ed { command_buf = buf; command_cursor = cursor }, unchanged)

unfoldable pub handle_command_char : VimLineEditor → (ctrl alt : Bool) → ℕ → Handled
unfolding exit_command_line put_char
handle_command_char ed ctrl alt c =
    if (c == b'c') && ctrl
    then some (exit_command_line ed, unchanged)
    else if not ctrl && not alt
    then with_buffer ed (put_char ed.command_buf ed.command_cursor c)
    else some (ed, unchanged)

unfoldable pub handle_command_line : VimLineEditor → Key → Handled
unfolding exit_command_line handle_command_char delete_before delete_at forward backward
    is_char_boundary
handle_command_line ed key = elim key.code [
  | escape ↦ some (exit_command_line ed, unchanged)
  | enter ↦ some (exit_command_line ed, requested (submit_command ed.command_buf))
  | backspace ↦ with_buffer ed (delete_before ed.command_buf ed.command_cursor)
  | KeyCode.delete ↦ with_buffer ed (delete_at ed.command_buf ed.command_cursor)
  | left ↦ with_buffer ed (some (ed.command_buf, step_left ed.command_buf ed.command_cursor))
  | right ↦ with_buffer ed (some (ed.command_buf, step_right ed.command_buf ed.command_cursor))
  | home ↦ with_buffer ed (some (ed.command_buf, 0))
  | KeyCode.end ↦ with_buffer ed (some (ed.command_buf, length ed.command_buf))
  | char c ↦ handle_command_char ed key.ctrl key.alt c
  | _ ↦ some (ed, unchanged)
]
