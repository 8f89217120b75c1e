-- ===== src/Vim/Ready/Edits.antt =====
-- The edits of crates/vim-line/src/vim/edits.rs on an ASCII text.
use patch_seq.Base.{
  ℕ, zero, suc, ◌+◌, ◌-◌, ◌<◌, ◌≤◌, ◌≡◌, refl, not, some, List, leb, length, arith, min, Bool-cases,
  inl, inr,
}
use patch_seq.Base.Returns.{Returns, returns, Returns-bind, Returns-if}
use patch_seq.Motions.{is_char_boundary, find_newline, line_start_of, line_end_of, move_left}
use patch_seq.Motions.Scan.{forward_lem, backward_lem}
use patch_seq.Motions.Lines.UpDown.{line_start_lem}
use patch_seq.Vim.{VimLineEditor, Operator, change, yank, insert}
use patch_seq.Vim.Text.{part}
use patch_seq.Vim.Text.Ascii.{IsAscii, ascii_slice, ascii_range, IsAscii-part}
use patch_seq.Vim.Edits.{
  char_end, delete_char, delete_to_end, past_newline, next_line_of, line_range, delete_line,
  paste_after, paste_before, operate, apply_operator, apply_operator_line, is_empty,
}
use patch_seq.Vim.Within.{line_end_within}
use patch_seq.Vim.Ready.{IsReady, Safe, still-Safe, insert-Safe, delete-Safe}

pub move_left_le : (text : List ℕ) (c : ℕ) → move_left c text ≤ c
unfolding move_left
move_left_le text c =
    ground (arith, (backward_lem (λ i. not (is_char_boundary text i)) (c - 1)).most)

next_line_within :
    (text : List ℕ) (n p : ℕ)
    → p + n ≡ length text
    → (p ≤ past_newline text (find_newline text n p))
      × (past_newline text (find_newline text n p) ≤ length text)
unfolding find_newline
next_line_within text zero p e = (omega arith, omega arith)
next_line_within text (suc n) p e = ground (arith, next_line_within text n (suc p))

pub char_end_within :
    (text : List ℕ) (c : ℕ)
    → c < length text
    → (c < char_end text c) × (char_end text c ≤ length text)
char_end_within text c h =
    let f = forward_lem (λ i. not (is_char_boundary text i)) (length text - (c + 1)) (c + 1) in
    (omega (arith, f.least), omega (arith, f.most))

line_range_within :
    (text : List ℕ) (s e : ℕ)
    → s ≤ e
    → e ≤ length text
    → ((line_range text s e).0 ≤ (line_range text s e).1) × ((line_range text s e).1 ≤ length text)
line_range_within text s e le h = ground arith

module _ (text : List ℕ) (ed : VimLineEditor) (a : IsAscii text) (r : IsReady ed)
    (h : ed.cursor ≤ length text) where
  pub delete_char-Safe : Returns (Safe text) (delete_char ed text)
  unfolding delete_char
  delete_char-Safe =
      Returns-if (leb (length text) ed.cursor) (λ e. returns (still-Safe text ed a r _ h refl tt))
        (λ ne.
          let w = char_end_within text ed.cursor (ground arith) in
          let le : ed.cursor ≤ char_end text ed.cursor = omega (arith, w) in
          rw (ascii_range text ed.cursor (char_end text ed.cursor) a le w.1) (
            returns (
              delete-Safe text _ a r ed.cursor (char_end text ed.cursor) _ le w.1
                (IsAscii-part text ed.cursor (char_end text ed.cursor) a le w.1)
                (ground (arith, move_left_le text ed.cursor)))))

  pub delete_to_end-Safe : Returns (Safe text) (delete_to_end ed text)
  unfolding delete_to_end
  delete_to_end-Safe =
      let stop = line_end_of text ed.cursor in
      let w = line_end_within text ed.cursor h in
      rw (ascii_slice text ed.cursor _ a h) (
        Returns-if (leb stop ed.cursor) (λ e. returns (still-Safe text ed a r _ h refl tt))
          (λ ne. rw (ascii_range text ed.cursor stop a w.0 w.1) (
            returns (
              delete-Safe text _ a r ed.cursor stop _ w.0 w.1
                (IsAscii-part text ed.cursor stop a w.0 w.1) (omega arith)))))

  pub delete_line-Safe : Returns (Safe text) (delete_line ed text)
  unfolding delete_line
  delete_line-Safe =
      let line = line_range text (line_start_of text ed.cursor) (next_line_of text ed.cursor) in
      let next = next_line_within text (length text - ed.cursor) ed.cursor (omega arith) in
      let w =
        line_range_within text (line_start_of text ed.cursor) (next_line_of text ed.cursor)
          (omega (arith, next.0, (line_start_lem text ed.cursor).most)) next.1 in
      rw (ascii_slice text ed.cursor _ a h, ascii_range text line.0 line.1 a w.0 w.1)
        (returns (
          delete-Safe text _ a r line.0 line.1 _ w.0 w.1 (IsAscii-part text line.0 line.1 a w.0 w.1)
            (omega arith)))

  pub paste_after-Safe : Safe text (paste_after ed text)
  unfolding paste_after
  paste_after-Safe = elim (Bool-cases (is_empty ed.yank_buffer)) [
    | inl e ↦ rw e (still-Safe text ed a r _ h refl tt)
    | inr ne ↦ rw ne (
        insert-Safe text _ a r (min (ed.cursor + 1) (length text)) ed.yank_buffer (omega arith) r.0
          (omega arith))
  ]

  pub paste_before-Safe : Safe text (paste_before ed text)
  unfolding paste_before
  paste_before-Safe = elim (Bool-cases (is_empty ed.yank_buffer)) [
    | inl e ↦ rw e (still-Safe text ed a r _ h refl tt)
    | inr ne ↦ rw ne (
        insert-Safe text _ a r (min ed.cursor (length text)) ed.yank_buffer (omega arith) r.0
          (omega arith))
  ]

  operate-Safe :
      (op : Operator) (start stop : ℕ) (affected : List ℕ)
      → start ≤ stop
      → stop ≤ length text
      → IsAscii affected
      → ed.cursor ≤ start
      → Safe text (operate op start stop affected ed)
  operate-Safe Operator.delete start stop affected le w i s =
      delete-Safe text ed a r start stop (some affected) le w i s
  operate-Safe change start stop affected le w i s =
      delete-Safe text (record ed { mode = insert }) a r start stop (some affected) le w i s
  operate-Safe yank start stop affected le w i s = still-Safe text ed a r _ h refl i

module _ (text : List ℕ) (ed : VimLineEditor) (a : IsAscii text) (r : IsReady ed) where
  pub apply_operator-Safe :
      (op : Operator) (start stop : ℕ)
      → start ≤ stop
      → stop ≤ length text
      → Returns (Safe text) (apply_operator ed op start stop text)
  unfolding apply_operator
  apply_operator-Safe op start stop le w =
      let i = IsAscii-part text start stop a le w in
      rw (ascii_range text start stop a le w) (
        returns (
          operate-Safe text (record ed { yank_buffer = part text start stop; cursor = start }) a
            (i, r.1, r.2) (omega arith) op start stop (part text start stop) le w i (omega arith)))

  pub apply_operator_line-Safe :
      (op : Operator)
      → ed.cursor ≤ length text
      → Returns (Safe text) (apply_operator_line ed op text)
  unfolding apply_operator_line
  apply_operator_line-Safe Operator.delete h = delete_line-Safe text ed a r h
  apply_operator_line-Safe change h = Returns-bind (delete_line-Safe text ed a r h) (λ handled s.
      returns (record {
        text' = s.text';
        applied = s.applied;
        ascii = s.ascii;
        within = s.within;
        ready = s.ready;
        yanks = s.yanks;
      }))
  apply_operator_line-Safe yank h =
      let next = next_line_within text (length text - ed.cursor) ed.cursor (omega arith) in
      let le : line_start_of text ed.cursor ≤ next_line_of text ed.cursor =
        omega (arith, next.0, (line_start_lem text ed.cursor).most) in
      let i = IsAscii-part text (line_start_of text ed.cursor) _ a le next.1 in
      rw
        (
          ascii_slice text ed.cursor _ a h,
          ascii_range text (line_start_of text ed.cursor) _ a le next.1,
        )
        (returns (still-Safe text _ a (i, r.1, r.2) _ h refl i))
