-- ===== src/Vim/Ready/Editing.antt =====
-- Insert, operator-pending, visual and replace mode of crates/vim-line/src/vim.rs on an ASCII text.
use patch_seq.Base.{
  ℕ, ◌-◌, ◌<◌, ◌≤◌, ◌≡◌, refl, Bool, not, none, List, [], ◌∷◌, ltb, ◌==◌, ◌&&◌, length, arith,
  Option-cases, inl, inr,
}
use patch_seq.Base.Returns.{Returns, returns, Returns-bind, Returns-if}
use patch_seq.Motions.{is_char_boundary}
use patch_seq.Motions.Scan.{backward_lem}
use patch_seq.Vim.{
  VimLineEditor, KeyCode, char, escape, backspace, tab, enter, Key, Operator, normal,
}
use patch_seq.Vim.Text.Ascii.{IsAscii, ascii_encode, ascii_len}
use patch_seq.Vim.Moves.{lookup, boundary_at}
use patch_seq.Vim.Modes.{is_escape}
use patch_seq.Vim.Modes.Insert.{insert_motions, insert_char, insert_backspace, handle_insert}
use patch_seq.Vim.Modes.Pending.{operator_motions, is_line_op, operate_to, handle_operator_pending}
use patch_seq.Vim.Modes.Visual.{
  visual_motions, handle_visual, operate_on_selection, selection_operators, selection_range,
}
use patch_seq.Vim.Ready.{
  IsReady, IsAsciiCode, Safe, still-Safe, insert-Safe, delete-Safe, lookup_within,
}
use patch_seq.Vim.Ready.Edits.{
  delete_char-Safe, apply_operator-Safe, apply_operator_line-Safe, move_left_le,
}
use patch_seq.Vim.Ready.Modes.{
  insert_motions_within, operator_motions_within, visual_motions_within,
}
use patch_seq.Vim.Ready.Normal.{moved-Safe}

module _ (text : List ℕ) (ed : VimLineEditor) (a : IsAscii text) (r : IsReady ed)
    (h : ed.cursor ≤ length text) where
  insert_char-Safe :
      (ctrl alt : Bool) (c : ℕ) → c < 128 → Returns (Safe text) (insert_char ed ctrl alt c)
  unfolding insert_char
  insert_char-Safe ctrl alt c small =
      Returns-if ((c == b'c') && ctrl) (λ e. returns (still-Safe text _ a r _ h refl tt))
        (λ ne.
          Returns-if (not ctrl && not alt)
            (λ e.
              rw (ascii_encode c small, ascii_len c small)
                (returns (insert-Safe text _ a r ed.cursor (c ∷ []) h (small, tt) (omega arith))))
            (λ ne. returns (still-Safe text ed a r _ h refl tt)))

  backspace-Safe : Returns (Safe text) (insert_backspace ed text)
  unfolding insert_backspace
  backspace-Safe =
      let start = boundary_at text (ed.cursor - 1) in
      let back = (backward_lem (λ i. not (is_char_boundary text i)) (ed.cursor - 1)).most in
      Returns-if (ed.cursor == 0) (λ e. returns (still-Safe text ed a r _ h refl tt))
        (λ ne.
          returns
            (delete-Safe text _ a r start ed.cursor none (omega (arith, back)) h tt (omega arith)))

  insert_code-Safe :
      (code : KeyCode) (ctrl alt shift : Bool)
      → IsAsciiCode code
      → lookup code insert_motions ≡ none
      → Returns
          (Safe text)
          (handle_insert ed (record { code = code; ctrl = ctrl; alt = alt; shift = shift }) text)
  unfolding handle_insert
  insert_code-Safe (char c) ctrl alt shift i e = insert_char-Safe ctrl alt c i
  insert_code-Safe escape ctrl alt shift i e =
      returns (still-Safe text _ a r _ (ground (arith, move_left_le text ed.cursor)) refl tt)
  insert_code-Safe backspace ctrl alt shift i e = backspace-Safe
  insert_code-Safe KeyCode.delete ctrl alt shift i e = delete_char-Safe text ed a r h
  insert_code-Safe enter ctrl alt shift i e =
      returns (insert-Safe text _ a r ed.cursor (b'\n' ∷ []) h (omega arith, tt) (omega arith))
  insert_code-Safe tab ctrl alt shift i e = returns (still-Safe text ed a r _ h refl tt)
  insert_code-Safe _ ctrl alt shift i e = cc

  pub handle_insert-Safe :
      (key : Key) → IsAsciiCode key.code → Returns (Safe text) (handle_insert ed key text)
  unfolding handle_insert
  handle_insert-Safe key i = elim (Option-cases (lookup key.code insert_motions)) [
    | inl e ↦ insert_code-Safe key.code key.ctrl key.alt key.shift i e
    | inr (motion, e) ↦
        rw (handle_insert, e)
          (moved-Safe text ed a r h motion
            (lookup_within text key.code insert_motions motion (insert_motions_within text a) e))
  ]

  operate_to-Safe :
      (op : Operator) (goal : ℕ)
      → goal ≤ length text
      → Returns (Safe text) (operate_to ed op goal text)
  unfolding operate_to
  operate_to-Safe op goal le =
      Returns-if (ed.cursor == goal) (λ e. returns (still-Safe text _ a r _ le refl tt))
        (λ ne.
          Returns-if (ltb ed.cursor goal)
            (λ e.
              apply_operator-Safe text (record ed { cursor = goal; mode = normal }) a r op ed.cursor
                goal (ground arith) le)
            (λ f.
              apply_operator-Safe text (record ed { cursor = goal; mode = normal }) a r op goal
                ed.cursor (ground arith) h))

  pub operator_pending-Safe :
      (op : Operator) (key : Key) → Returns (Safe text) (handle_operator_pending ed op key text)
  unfolding handle_operator_pending
  operator_pending-Safe op key =
      Returns-if (is_escape key.code) (λ e. returns (still-Safe text _ a r _ h refl tt))
        (λ ne.
          Returns-if (is_line_op op key.code)
            (λ e. apply_operator_line-Safe text (record ed { mode = normal }) a r op h)
            (λ f. elim (Option-cases (lookup key.code (operator_motions op))) [
              | inl e ↦ rw e (returns (still-Safe text _ a r _ h refl tt))
              | inr (motion, e) ↦ rw e (
                  Returns-bind
                    (lookup_within text key.code (operator_motions op) motion
                      (operator_motions_within text a op) e ed.cursor h)
                    (λ goal le. operate_to-Safe op goal le))
            ]))

  selection-Safe :
      (op : Operator)
      → (selection_range ed).1 ≤ length text
      → Returns (Safe text) (operate_on_selection ed op text)
  unfolding operate_on_selection selection_range
  selection-Safe op le =
      apply_operator-Safe text (record ed { mode = normal; visual_anchor = none }) a r op _ _
        (ground arith) le

  pub visual-Safe :
      (key : Key)
      → (selection_range ed).1 ≤ length text
      → Returns (Safe text) (handle_visual ed key text)
  unfolding handle_visual
  visual-Safe key le =
      Returns-if (is_escape key.code) (λ e. returns (still-Safe text _ a r _ h refl tt))
        (λ ne. elim (Option-cases (lookup key.code visual_motions)) [
          | inr (motion, e) ↦ rw e (
              moved-Safe text ed a r h motion (
                lookup_within text key.code visual_motions motion (visual_motions_within text a) e))
          | inl e ↦ elim (Option-cases (lookup key.code selection_operators)) [
            | inl f ↦ rw (e, f) (returns (still-Safe text ed a r _ h refl tt))
            | inr (op, f) ↦ rw (e, f) (selection-Safe op le)
          ]
        ])
