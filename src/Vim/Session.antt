-- ===== src/Vim/Session.antt =====
-- `LineEditor` for `VimLineEditor` (crates/vim-line/src/vim.rs), and the host that applies the edits
-- (`dispatch_to_editor` in crates/repl/src/app.rs, `TextEdit::apply` in crates/vim-line/src/lib.rs).
use Prim.Native.String.{String}
use patch_seq.Base.{ℕ, Option, none, some, List, [], ◌∷◌}
use patch_seq.Vim.{
  Key, TextEdit, delete, insert, change, yank, normal, visual, replace_char, command_line,
  operator_pending, Operator, Mode, VimLineEditor, Handled,
}
use patch_seq.Base.Returns.{◌>>=◌}
use patch_seq.Vim.Text.{remove_range, insert_str}
use patch_seq.Vim.Moves.{clamp_cursor}
use patch_seq.Vim.CommandLine.{handle_command_line}
use patch_seq.Vim.Modes.{handle_normal}
use patch_seq.Vim.Modes.Insert.{handle_insert}
use patch_seq.Vim.Modes.Pending.{handle_operator_pending}
use patch_seq.Vim.Modes.Visual.{handle_visual, handle_replace_char, selection_range}

unfoldable pub by_mode : VimLineEditor → Key → List ℕ → Handled
unfolding handle_normal handle_insert handle_operator_pending handle_visual handle_replace_char
    handle_command_line
by_mode ed key text = elim ed.mode [
  | normal ↦ handle_normal ed key text
  | Mode.insert ↦ handle_insert ed key text
  | operator_pending op ↦ handle_operator_pending ed op key text
  | visual ↦ handle_visual ed key text
  | replace_char ↦ handle_replace_char ed key text
  | command_line ↦ handle_command_line ed key
]

abbrev pub store_yanked : VimLineEditor → Option (List ℕ) → VimLineEditor
store_yanked ed none = ed
store_yanked ed (some yanked) = record ed { yank_buffer = yanked }

unfoldable pub handle_key : VimLineEditor → Key → List ℕ → Handled
unfolding clamp_cursor by_mode
handle_key ed key text = by_mode (clamp_cursor ed text) key text >>= λ (ed', result).
    some (store_yanked ed' result.yanked, result)

unfoldable pub status : VimLineEditor → String
status ed = elim ed.mode [
  | normal ↦ "NORMAL"
  | Mode.insert ↦ "INSERT"
  | operator_pending Operator.delete ↦ "d..."
  | operator_pending change ↦ "c..."
  | operator_pending yank ↦ "y..."
  | visual ↦ "VISUAL"
  | replace_char ↦ "r..."
  | command_line ↦ "COMMAND"
]

unfoldable pub selection : VimLineEditor → Option (ℕ × ℕ)
unfolding selection_range
selection ed = elim ed.mode [ visual ↦ some (selection_range ed) | _ ↦ none ]

unfoldable pub reset : VimLineEditor → VimLineEditor
reset ed = record ed {
  cursor = 0;
  mode = normal;
  visual_anchor = none;
  command_buf = [];
  command_cursor = 0;
}

unfoldable pub apply : TextEdit → List ℕ → Option (List ℕ)
unfolding remove_range insert_str
apply (delete start end) text = remove_range text start end
apply (insert pos inserted) text = insert_str text pos inserted

-- `for edit in edits.into_iter().rev()`
unfoldable pub apply_all : List TextEdit → List ℕ → Option (List ℕ)
unfolding apply
apply_all [] text = some text
apply_all (e ∷ edits) text = apply_all edits text >>= apply e

-- One key: the editor and the host's text afterwards, or a panic of either.
unfoldable pub press : VimLineEditor → List ℕ → Key → Option (VimLineEditor × List ℕ)
unfolding handle_key apply_all
press ed text key = handle_key ed key text >>= λ (ed', result).
    apply_all result.edits text >>= λ text'. some (ed', text')

unfoldable pub press_all : VimLineEditor → List ℕ → List Key → Option (VimLineEditor × List ℕ)
unfolding press
press_all ed text [] = some (ed, text)
press_all ed text (key ∷ keys) = press ed text key >>= λ (ed', text'). press_all ed' text' keys
