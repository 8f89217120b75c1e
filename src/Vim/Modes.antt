-- ===== src/Vim/Modes.antt =====
-- The handlers of the modes of crates/vim-line/src/vim.rs. A character key goes through the arms of
-- the source's match in their order. Normal mode is here.
pub mod Insert
pub mod Pending
pub mod Visual
use patch_seq.Base.{
  ℕ, ◌+◌, ◌-◌, Bool, true, false, ◌&&◌, not, Option, none, some, List, [], ◌∷◌, ltb, leb, ◌==◌,
  if◌then◌else◌, length,
}
use patch_seq.Motions.{
  is_char_boundary, forward, backward, move_left, move_right, move_line_start, move_line_end,
  move_line_end_insert, move_word_forward, move_word_backward, move_word_end,
  move_word_forward_word, move_word_backward_word, move_word_end_word,
}
use patch_seq.Motions.Blank.{move_first_non_blank}
use patch_seq.Motions.Lines.{move_up, move_down, is_on_first_line, is_on_last_line}
use patch_seq.Vim.{
  KeyCode, char, escape, backspace, left, right, up, down, home, enter, Key, Action, submit,
  history_prev, history_next, cancel, TextEdit, EditResult, unchanged, cursor_only, requested,
  edited, Operator, change, yank, Mode, normal, insert, visual, replace_char, command_line,
  operator_pending, VimLineEditor, Handled,
}
use patch_seq.Base.Returns.{◌>>=◌}
use patch_seq.Vim.Text.{encode, len_utf8}
use patch_seq.Vim.Moves.{Motion, total, lookup, boundary_at, clamp_to_last_char, dispatch_motion}
use patch_seq.Vim.Edits.{
  char_end, delete_char, delete_to_end, paste_after, paste_before, apply_operator,
  apply_operator_line,
}

-- The first arm whose test holds.
abbrev pub match_arms {ℓ} : {A : Type ℓ} → List (Bool × A) → A → A
match_arms [] other = other
match_arms ((test, a) ∷ arms) other = if test then a else match_arms arms other

abbrev pub to_mode : Mode → VimLineEditor → VimLineEditor
to_mode mode ed = record ed { mode = mode }

-- Moves in Insert mode, without an edit.
abbrev pub insert_after : Motion → VimLineEditor → List ℕ → Handled
insert_after motion ed text =
    motion ed.cursor text >>= λ c. some (record ed { mode = insert; cursor = c }, unchanged)

abbrev pub insert_newline : VimLineEditor → Handled
insert_newline ed = some (
  record ed { mode = insert; cursor = ed.cursor + 1 },
  edited (TextEdit.insert ed.cursor (b'\n' ∷ [])),
)

-- `o` and `O`
unfoldable pub open_below : VimLineEditor → List ℕ → Handled
unfolding move_line_end
open_below ed text =
    move_line_end ed.cursor text >>= λ pos. insert_newline (record ed { cursor = pos })

unfoldable pub open_above : VimLineEditor → List ℕ → Handled
unfolding move_line_start
open_above ed text = move_line_start ed.cursor text >>= λ pos.
    some (record ed { mode = insert; cursor = pos }, edited (TextEdit.insert pos (b'\n' ∷ [])))

-- The arms of the match on a character.
unfoldable pub normal_arms : VimLineEditor → (ctrl : Bool) → ℕ → List ℕ → List (Bool × Handled)
unfolding open_below open_above delete_char delete_to_end paste_after paste_before
normal_arms ed ctrl c text =
    (c == b'i', some (to_mode insert ed, unchanged))
    ∷ (c == b'a', insert_after (total move_right) ed text)
    ∷ (c == b'A', insert_after move_line_end_insert ed text)
    ∷ (c == b'I', insert_after move_first_non_blank ed text)
    ∷ (c == b'o', open_below ed text)
    ∷ (c == b'O', open_above ed text)
    ∷ (c == b'v', some (record ed { mode = visual; visual_anchor = some ed.cursor }, unchanged))
    ∷ ((c == b'c') && ctrl, some (ed, requested cancel))
    ∷ (c == b'd', some (to_mode (operator_pending Operator.delete) ed, unchanged))
    ∷ (c == b'c', some (to_mode (operator_pending change) ed, unchanged))
    ∷ (c == b'y', some (to_mode (operator_pending yank) ed, unchanged))
    ∷ (c == b'x', delete_char ed text)
    ∷ (c == b'D', delete_to_end ed text)
    ∷ (c == b'C', delete_to_end (to_mode insert ed) text)
    ∷ (c == b'r', some (to_mode replace_char ed, unchanged))
    ∷ (
      (c == b':') && ed.command_mode_enabled,
      some (record ed { mode = command_line; command_buf = []; command_cursor = 0 }, unchanged),
    )
    ∷ (c == b'p', some (paste_after ed text))
    ∷ (c == b'P', some (paste_before ed text))
    ∷ []

unfoldable pub normal_char : VimLineEditor → (ctrl : Bool) → ℕ → List ℕ → Handled
unfolding normal_arms
normal_char ed ctrl c text = match_arms (normal_arms ed ctrl c text) (some (ed, unchanged))

unfoldable pub normal_command : VimLineEditor → Key → List ℕ → Handled
unfolding normal_char
normal_command ed key text = elim key.code [
  | char c ↦ normal_char ed key.ctrl c text
  | up ↦ some (ed, requested history_prev)
  | down ↦ some (ed, requested history_next)
  | enter ↦ if not key.shift then some (ed, requested submit) else insert_newline ed
  | _ ↦ some (ed, unchanged)
]

-- `k` on the first line and `j` on the last one.
unfoldable pub history_at_edge : ℕ → KeyCode → List ℕ → Option (Option Action)
unfolding is_on_first_line is_on_last_line
history_at_edge cursor code text = elim code [
  | char c ↦
      if c == b'k'
      then (is_on_first_line cursor text >>= λ edge.
          some (if edge then some history_prev else none))
      else if c == b'j'
      then (is_on_last_line cursor text >>= λ edge. some (if edge then some history_next else none))
      else some none
  | _ ↦ some none
]

unfoldable pub handle_normal : VimLineEditor → Key → List ℕ → Handled
unfolding history_at_edge dispatch_motion clamp_to_last_char normal_command
handle_normal ed key text = history_at_edge ed.cursor key.code text >>= λ history. elim history [
  | some action ↦ some (ed, requested action)
  | none ↦ dispatch_motion ed key.code text >>= λ (ed', moved).
      if moved then some (clamp_to_last_char ed' text, cursor_only) else normal_command ed' key text
]

abbrev pub moved_by : Motion → VimLineEditor → List ℕ → Handled
moved_by motion ed text =
    motion ed.cursor text >>= λ c. some (record ed { cursor = c }, cursor_only)

abbrev pub is_escape : KeyCode → Bool
is_escape escape = true
is_escape _ = false
