-- ===== src/Vim/Edits.antt =====
-- The edits of crates/vim-line/src/vim/edits.rs.
use patch_seq.Base.{
  ℕ, ◌+◌, ◌-◌, Bool, ◌&&◌, not, Option, none, some, List, ltb, leb, ◌==◌, if◌then◌else◌, length,
  min,
}
use patch_seq.Motions.{
  is_char_boundary, forward, move_left, find_newline, rfind_newline, slice, line_start_of,
  line_end_of,
}
use patch_seq.Vim.{
  TextEdit, EditResult, unchanged, edited, edit_and_yank, Operator, change, yank, insert,
  VimLineEditor, Handled,
}
use patch_seq.Base.Returns.{◌>>=◌}
use patch_seq.Vim.Text.{range}

-- The end of the character at the cursor.
abbrev pub char_end : List ℕ → ℕ → ℕ
char_end text cursor =
    forward (λ i. not (is_char_boundary text i)) (length text - (cursor + 1)) (cursor + 1)

unfoldable pub delete_char : VimLineEditor → List ℕ → Handled
unfolding forward is_char_boundary
delete_char ed text =
    let start = ed.cursor in
    let end = char_end text start in
    if leb (length text) start
    then some (ed, unchanged)
    else range text start end >>= λ deleted.
        let c = if leb (length text) end && ltb 0 start then move_left start text else start in
        some (record ed { cursor = c }, edit_and_yank (TextEdit.delete start end) deleted)

unfoldable pub delete_to_end : VimLineEditor → List ℕ → Handled
unfolding find_newline
delete_to_end ed text = slice text ed.cursor (
    let end = line_end_of text ed.cursor in
    if leb end ed.cursor
    then some (ed, unchanged)
    else range text ed.cursor end >>= λ deleted.
        some (ed, edit_and_yank (TextEdit.delete ed.cursor end) deleted))

-- `.map(|i| self.cursor + i + 1).unwrap_or(text.len())`: past the newline.
abbrev pub past_newline : List ℕ → Option ℕ → ℕ
past_newline text none = length text
past_newline text (some i) = i + 1

abbrev pub next_line_of : List ℕ → ℕ → ℕ
next_line_of text cursor = past_newline text (find_newline text (length text - cursor) cursor)

abbrev pub line_range : List ℕ → (line_start line_end : ℕ) → ℕ × ℕ
line_range text line_start line_end =
    if (line_start == 0) && (line_end == length text)
    then (0, length text)
    else if (line_end == length text) && ltb 0 line_start
    then (line_start - 1, length text)
    else (line_start, line_end)

unfoldable pub delete_line : VimLineEditor → List ℕ → Handled
unfolding find_newline rfind_newline
delete_line ed text = slice text ed.cursor (
    let (start, end) =
      line_range text (line_start_of text ed.cursor) (next_line_of text ed.cursor) in
    range text start end >>= λ deleted.
    some (record ed { cursor = start }, edit_and_yank (TextEdit.delete start end) deleted))

abbrev pub is_empty : List ℕ → Bool
is_empty text = length text == 0

unfoldable pub paste_after : VimLineEditor → List ℕ → VimLineEditor × EditResult
paste_after ed text =
    let pos = min (ed.cursor + 1) (length text) in
    let size = length ed.yank_buffer in
    if is_empty ed.yank_buffer then (ed, unchanged) else (
      record ed { cursor = min (pos + size - 1) (length text + size) },
      edited (TextEdit.insert pos ed.yank_buffer),
    )

unfoldable pub paste_before : VimLineEditor → List ℕ → VimLineEditor × EditResult
paste_before ed text =
    let pos = min ed.cursor (length text) in
    let size = length ed.yank_buffer in
    if is_empty ed.yank_buffer then (ed, unchanged) else (
      record ed { cursor = min (pos + size) (length text + size) },
      edited (TextEdit.insert pos ed.yank_buffer),
    )

-- `apply_operator` after it has read the text.
abbrev pub operate :
    Operator → (start end : ℕ) → (affected : List ℕ) → VimLineEditor → VimLineEditor × EditResult
operate Operator.delete start end affected ed =
    (ed, edit_and_yank (TextEdit.delete start end) affected)
operate change start end affected ed =
    (record ed { mode = insert }, edit_and_yank (TextEdit.delete start end) affected)
operate yank start end affected ed = (ed, record unchanged { yanked = some affected })

unfoldable pub apply_operator : VimLineEditor → Operator → (start end : ℕ) → List ℕ → Handled
apply_operator ed op start end text = range text start end >>= λ affected.
    some (operate op start end affected (record ed { yank_buffer = affected; cursor = start }))

unfoldable pub apply_operator_line : VimLineEditor → Operator → List ℕ → Handled
unfolding delete_line find_newline rfind_newline
apply_operator_line ed Operator.delete text = delete_line ed text
apply_operator_line ed change text =
    delete_line ed text >>= λ (ed', result). some (record ed' { mode = insert }, result)
apply_operator_line ed yank text = slice text ed.cursor (
    range text (line_start_of text ed.cursor) (next_line_of text ed.cursor) >>= λ line.
    some (record ed { yank_buffer = line }, record unchanged { yanked = some line }))
