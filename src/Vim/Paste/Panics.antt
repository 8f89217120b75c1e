-- ===== src/Vim/Paste/Panics.antt =====
-- Keys at which the editor of crates/vim-line or its host panics.
use patch_seq.Base.{
  ℕ, ◌+◌, ◌<◌, ◌≤◌, ◌≡◌, refl, false, none, some, List, length, arith, min, ltb, ◌==◌,
}
use patch_seq.Motions.{is_char_boundary}
use patch_seq.Vim.{VimLineEditor, normal, visual, Operator, change, yank, plain}
use patch_seq.Vim.Text.{is_range, range, insert_str}
use patch_seq.Vim.Moves.{lookup, same_code, dispatch_motion, clamp_cursor}
use patch_seq.Vim.Edits.{apply_operator, paste_after}
use patch_seq.Vim.Modes.{history_at_edge, handle_normal, normal_command, normal_char, normal_arms}
use patch_seq.Vim.Modes.Visual.{selection_range, operate_on_selection, handle_visual}
use patch_seq.Vim.Session.{apply, apply_all, by_mode, handle_key, press}

range_past_end :
    (text : List ℕ) (start stop : ℕ) → length text < stop → range text start stop ≡ none
unfolding range is_range is_char_boundary
range_past_end text start stop h = ground arith

module _ (ed : VimLineEditor) (text : List ℕ) (anchor : ℕ) (past : length text ≤ ed.cursor)
    (before : anchor ≤ length text) where
  -- The selection from the anchor to the end of the text.
  abbrev selecting : VimLineEditor
  selecting = record ed {
    cursor = min ed.cursor (length text);
    mode = visual;
    visual_anchor = some anchor;
  }

  selection_panics : (op : Operator) → operate_on_selection selecting op text ≡ none
  unfolding operate_on_selection selection_range apply_operator
  selection_panics op =
      let f : ltb (min ed.cursor (length text)) anchor ≡ false = ground arith in
      rw (f, range_past_end text anchor (min ed.cursor (length text) + 1) (omega arith)) refl

  -- In Visual mode, with the anchor within the text and the cursor at its end (or past it), the keys
  -- `d`, `x`, `c` and `y` panic: the selection takes one byte more than the text has.
  pub visual_at_end_panics :
      (press (record ed { mode = visual; visual_anchor = some anchor }) text (plain b'd') ≡ none)
      × (press (record ed { mode = visual; visual_anchor = some anchor }) text (plain b'x') ≡ none)
      × (press (record ed { mode = visual; visual_anchor = some anchor }) text (plain b'c') ≡ none)
      × (press (record ed { mode = visual; visual_anchor = some anchor }) text (plain b'y') ≡ none)
  unfolding press handle_key by_mode handle_visual clamp_cursor lookup same_code
  visual_at_end_panics = (
    rw (selection_panics Operator.delete) refl,
    rw (selection_panics Operator.delete) refl,
    rw (selection_panics change) refl,
    rw (selection_panics yank) refl,
  )

-- In Normal mode, with something to paste and the cursor at the first byte of a character of more
-- than one byte, `p` panics: the host is told to insert inside that character.
pub paste_inside_panics :
    (ed : VimLineEditor) (text : List ℕ)
    → 0 < length ed.yank_buffer
    → ed.cursor < length text
    → is_char_boundary text (ed.cursor + 1) ≡ false
    → press (record ed { mode = normal }) text (plain b'p') ≡ none
unfolding press handle_key by_mode handle_normal history_at_edge dispatch_motion lookup same_code
    normal_command normal_char normal_arms clamp_cursor paste_after apply_all apply insert_str
paste_inside_panics ed text something inside f =
    let clamped : min ed.cursor (length text) ≡ ed.cursor = omega arith in
    let next : min (ed.cursor + 1) (length text) ≡ ed.cursor + 1 = omega arith in
    let some_text : (length ed.yank_buffer == 0) ≡ false = ground arith in
    rw (clamped, some_text, next, f) refl
