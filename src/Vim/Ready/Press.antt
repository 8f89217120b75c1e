-- ===== src/Vim/Ready/Press.antt =====
-- A key in any mode, and the host that applies its edits.
use patch_seq.Base.{
  ℕ, ◌<◌, ◌≤◌, ◌≡◌, refl, Bool, not, Option, none, some, List, [], ◌∷◌, ◌++◌, leb, ◌&&◌, length,
  arith, min, take, drop, length-append, length-take,
}
use patch_seq.Base.Returns.{Returns, returns, Returns-bind, Returns-if}
use patch_seq.Vim.{
  VimLineEditor, KeyCode, char, Key, EditResult, Mode, normal, insert, visual, replace_char,
  command_line, operator_pending,
}
use patch_seq.Vim.Text.Ascii.{
  IsAscii, IsAscii-append, IsAscii-take, IsAscii-drop, ascii_encode, ascii_remove, ascii_insert,
}
use patch_seq.Vim.Moves.{clamp_cursor}
use patch_seq.Vim.Edits.{char_end}
use patch_seq.Vim.Modes.Visual.{handle_replace_char, selection_range, replaced}
use patch_seq.Vim.Session.{apply, apply_all, by_mode, store_yanked, handle_key, press}
use patch_seq.Vim.Ready.{IsReady, IsAsciiCode, YanksAscii, Safe, still-Safe}
use patch_seq.Vim.Ready.Edits.{char_end_within}
use patch_seq.Vim.Ready.CommandLine.{command_line-Safe}
use patch_seq.Vim.Ready.Normal.{normal-Safe}
use patch_seq.Vim.Ready.Editing.{handle_insert-Safe, operator_pending-Safe, visual-Safe}

module _ (text : List ℕ) (ed : VimLineEditor) (a : IsAscii text) (r : IsReady ed)
    (h : ed.cursor ≤ length text) where
  replaced-Safe :
      (c : ℕ)
      → c < 128
      → ed.cursor < length text
      → Safe text
          (record ed { mode = normal }, replaced ed.cursor (char_end text ed.cursor) (c ∷ []))
  unfolding apply_all apply
  replaced-Safe c small inside =
      let stop = char_end text ed.cursor in
      let w = char_end_within text ed.cursor inside in
      let le : ed.cursor ≤ stop = omega (arith, w) in
      let before = take ed.cursor text in
      let rest = before ++ drop stop text in
      let rest_ascii : IsAscii rest =
        IsAscii-append before (drop stop text) (IsAscii-take ed.cursor text a)
          (IsAscii-drop stop text a) in
      let fits : ed.cursor ≤ length rest =
        omega (arith, length-append before (drop stop text), length-take ed.cursor text, h) in
      record {
        text' = take ed.cursor rest ++ c ∷ [] ++ drop ed.cursor rest;
        applied =
            rw (ascii_remove text ed.cursor stop a le w.1)
              (ascii_insert rest ed.cursor (c ∷ []) rest_ascii fits);
        ascii =
            IsAscii-append (take ed.cursor rest ++ c ∷ []) (drop ed.cursor rest)
              (IsAscii-append _ (c ∷ []) (IsAscii-take ed.cursor rest rest_ascii) (small, tt))
              (IsAscii-drop ed.cursor rest rest_ascii);
        within = omega (
          arith,
          fits,
          length-append (take ed.cursor rest ++ c ∷ []) (drop ed.cursor rest),
          length-append (take ed.cursor rest) (c ∷ []),
          length-take ed.cursor rest,
        );
        ready = r;
        yanks = tt;
      }

  replace_code-Safe :
      (code : KeyCode) (ctrl alt shift : Bool)
      → IsAsciiCode code
      → Returns (Safe text) (
          handle_replace_char ed
            (record { code = code; ctrl = ctrl; alt = alt; shift = shift })
            text)
  unfolding handle_replace_char
  replace_code-Safe (char c) ctrl alt shift i =
      Returns-if (not ctrl && not alt)
        (λ e.
          Returns-if (leb (length text) ed.cursor)
            (λ e. returns (still-Safe text _ a r _ h refl tt))
            (λ ne. rw (ascii_encode c i) (returns (replaced-Safe c i (ground arith)))))
        (λ ne. returns (still-Safe text _ a r _ h refl tt))
  replace_code-Safe _ ctrl alt shift i = returns (still-Safe text _ a r _ h refl tt)

by_mode-Safe :
    (text : List ℕ) (ed : VimLineEditor) (mode : Mode) (key : Key)
    → IsAscii text
    → IsReady ed
    → ed.cursor ≤ length text
    → IsAsciiCode key.code
    → (mode ≡ visual → (selection_range (record ed { mode = mode })).1 ≤ length text)
    → Returns (Safe text) (by_mode (record ed { mode = mode }) key text)
unfolding by_mode
by_mode-Safe text ed normal key a r h i fits =
    normal-Safe text (record ed { mode = normal }) a r h key
by_mode-Safe text ed insert key a r h i fits =
    handle_insert-Safe text (record ed { mode = insert }) a r h key i
by_mode-Safe text ed (operator_pending op) key a r h i fits =
    operator_pending-Safe text (record ed { mode = operator_pending op }) a r h op key
by_mode-Safe text ed visual key a r h i fits =
    visual-Safe text (record ed { mode = visual }) a r h key (fits refl)
by_mode-Safe text ed replace_char key a r h i fits =
    replace_code-Safe text (record ed { mode = replace_char }) a r h key.code key.ctrl key.alt
      key.shift i
by_mode-Safe text ed command_line key a r h i fits =
    command_line-Safe text (record ed { mode = command_line }) a r h key i

-- An ASCII text with an editor whose buffers are ASCII and whose cursor is within the text.
pub record Settled (state : VimLineEditor × List ℕ) : Type 0 where
  pub ascii : IsAscii state.1
  pub within : state.0.cursor ≤ length state.1
  pub ready : IsReady state.0

-- The host applies the edits of a handled key, and the state is settled.
abbrev Applied : List ℕ → VimLineEditor × EditResult → Type 0
Applied text (ed, result) =
    (text' : List ℕ) × (apply_all result.edits text ≡ some text') × Settled (ed, text')

stored :
    (text : List ℕ) (handled : VimLineEditor × EditResult)
    → Safe text handled
    → (yanked : Option (List ℕ)) → YanksAscii yanked
    → Applied text (store_yanked handled.0 yanked, handled.1)
stored text handled s none y =
    (s.text', s.applied, record { ascii = s.ascii; within = s.within; ready = s.ready })
stored text handled s (some yanked) y = (
  s.text',
  s.applied,
  record { ascii = s.ascii; within = s.within; ready = (y, s.ready.1, s.ready.2) },
)

-- On an ASCII text, with ASCII buffers, a cursor of the command line within its buffer and, in Visual
-- mode, a selection that ends within the text, no key panics, whatever the mode and the cursor: the
-- handler returns, the host can apply its edits in reverse, and afterwards text and buffers are ASCII
-- again and both cursors are within their texts. A character key types an ASCII character.
pub press-Settled :
    (ed : VimLineEditor) (text : List ℕ) (key : Key)
    → IsAscii text
    → IsReady ed
    → IsAsciiCode key.code
    → (ed.mode ≡ visual → (selection_range (clamp_cursor ed text)).1 ≤ length text)
    → Returns Settled (press ed text key)
unfolding press handle_key clamp_cursor
press-Settled ed text key a r i fits =
    let clamped = record ed { cursor = min ed.cursor (length text) } in
    let handled =
      Returns-bind {Next = Applied text}
        (by_mode-Safe text clamped ed.mode key a r (omega arith) i fits)
        (λ handled s. returns (stored text handled s handled.1.yanked s.yanks)) in
    Returns-bind handled (λ handled applied. rw applied.1 (returns applied.2))
