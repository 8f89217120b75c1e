-- ===== src/Vim/Ready/Normal.antt =====
-- Normal mode of crates/vim-line/src/vim.rs on an ASCII text.
use patch_seq.Base.{
  ℕ, ◌-◌, ◌≤◌, ◌≡◌, refl, Bool, true, false, not, Option, none, some, List, [], ◌∷◌, leb, ◌==◌,
  if◌then◌else◌, length, arith, min, Option-cases, Bool-cases, inl, inr,
}
use patch_seq.Base.Returns.{Returns, returns, Returns-bind, Returns-if, ◌>>=◌}
use patch_seq.Motions.{is_char_boundary, move_right, move_line_end_insert}
use patch_seq.Motions.Scan.{backward_lem}
use patch_seq.Motions.Blank.{move_first_non_blank}
use patch_seq.Motions.Lines.{is_on_first_line, is_on_last_line}
use patch_seq.Vim.{
  VimLineEditor, KeyCode, char, enter, Key, Handled, Action, unchanged, EditResult, insert,
  command_line, requested, cursor_only,
}
use patch_seq.Vim.Text.Ascii.{IsAscii, ascii_slice}
use patch_seq.Vim.Moves.{Motion, total, lookup, clamp_to_last_char, dispatch_motion, shared_motions}
use patch_seq.Vim.Modes.{
  match_arms, insert_after, insert_newline, open_below, open_above, normal_arms, normal_char,
  normal_command, history_at_edge, handle_normal, moved_by,
}
use patch_seq.Vim.Within.{
  StaysWithin, move_right_within, move_line_start_within, move_line_end_within,
  move_line_end_insert_within, move_first_non_blank_within,
}
use patch_seq.Vim.Ready.{IsReady, Safe, still-Safe, insert-Safe, lookup_within}
use patch_seq.Vim.Ready.Edits.{
  delete_char-Safe, delete_to_end-Safe, paste_after-Safe, paste_before-Safe,
}
use patch_seq.Vim.Ready.Modes.{shared_motions_within}

infixr 5 ◌also◌
data AllSafe (text : List ℕ) : List (Bool × Handled) → Type 0 where
  done : AllSafe text []
  ◌also◌ :
      {test : Bool} {handled : Handled} {arms : List (Bool × Handled)}
      → Returns (Safe text) handled
      → AllSafe text arms
      → AllSafe text ((test, handled) ∷ arms)

match_arms-Safe :
    {text : List ℕ} {arms : List (Bool × Handled)} {other : Handled}
    → AllSafe text arms
    → Returns (Safe text) other
    → Returns (Safe text) (match_arms arms other)
match_arms-Safe done o = o
match_arms-Safe (s also all) o = Returns-if _ (λ e. s) (λ ne. match_arms-Safe all o)

module _ (text : List ℕ) (ed : VimLineEditor) (a : IsAscii text) (r : IsReady ed)
    (h : ed.cursor ≤ length text) where
  pub stays :
      (result : EditResult) → result.edits ≡ [] → result.yanked ≡ none → Safe text (ed, result)
  stays result e y = still-Safe text ed a r result h e (rw y tt)

  pub moved-Safe :
      (motion : Motion) → StaysWithin text motion → Returns (Safe text) (moved_by motion ed text)
  moved-Safe motion w =
      Returns-bind (w ed.cursor h) (λ c le. returns (still-Safe text _ a r _ le refl tt))

  insert_after-Safe :
      (motion : Motion)
      → StaysWithin text motion
      → Returns (Safe text) (insert_after motion ed text)
  insert_after-Safe motion w =
      Returns-bind (w ed.cursor h) (λ c le. returns (still-Safe text _ a r _ le refl tt))

  newline-Safe : Returns (Safe text) (insert_newline ed)
  newline-Safe =
      returns (insert-Safe text _ a r ed.cursor (b'\n' ∷ []) h (omega arith, tt) (omega arith))

  open_below-Safe : Returns (Safe text) (open_below ed text)
  unfolding open_below
  open_below-Safe = Returns-bind (move_line_end_within text a ed.cursor h) (λ pos le.
      returns (insert-Safe text _ a r pos (b'\n' ∷ []) le (omega arith, tt) (omega arith)))

  open_above-Safe : Returns (Safe text) (open_above ed text)
  unfolding open_above
  open_above-Safe = Returns-bind (move_line_start_within text a ed.cursor h) (λ pos le.
      returns (insert-Safe text _ a r pos (b'\n' ∷ []) le (omega arith, tt) (omega arith)))

  normal_arms-Safe : (ctrl : Bool) (c : ℕ) → AllSafe text (normal_arms ed ctrl c text)
  unfolding normal_arms
  normal_arms-Safe ctrl c =
      let cleared = record ed { mode = command_line; command_buf = []; command_cursor = 0 } in
      returns (still-Safe text _ a r _ h refl tt)
      also insert_after-Safe (total move_right) (move_right_within text)
      also insert_after-Safe move_line_end_insert (move_line_end_insert_within text a)
      also insert_after-Safe move_first_non_blank (move_first_non_blank_within text a)
      also open_below-Safe
      also open_above-Safe
      also returns (still-Safe text _ a r _ h refl tt)
      also returns (still-Safe text _ a r _ h refl tt)
      also returns (still-Safe text _ a r _ h refl tt)
      also returns (still-Safe text _ a r _ h refl tt)
      also returns (still-Safe text _ a r _ h refl tt)
      also delete_char-Safe text ed a r h
      also delete_to_end-Safe text ed a r h
      also delete_to_end-Safe text (record ed { mode = insert }) a r h
      also returns (still-Safe text _ a r _ h refl tt)
      also returns (still-Safe text cleared a (r.0, tt, omega arith) _ h refl tt)
      also returns (paste_after-Safe text ed a r h)
      also returns (paste_before-Safe text ed a r h)
      also done

  normal_char-Safe : (ctrl : Bool) (c : ℕ) → Returns (Safe text) (normal_char ed ctrl c text)
  unfolding normal_char
  normal_char-Safe ctrl c =
      match_arms-Safe {arms = normal_arms ed ctrl c text} (normal_arms-Safe ctrl c)
        (returns (still-Safe text ed a r unchanged h refl tt))

  normal_code-Safe :
      (code : KeyCode) (ctrl alt shift : Bool)
      → Returns
          (Safe text)
          (normal_command ed (record { code = code; ctrl = ctrl; alt = alt; shift = shift }) text)
  unfolding normal_command
  normal_code-Safe (char c) ctrl alt shift = normal_char-Safe ctrl c
  normal_code-Safe enter ctrl alt shift =
      Returns-if (not shift) (λ e. returns (still-Safe text ed a r _ h refl tt))
        (λ ne. newline-Safe)
  normal_code-Safe _ ctrl alt shift = returns (still-Safe text ed a r _ h refl tt)

  history_at_edge-Returns :
      (code : KeyCode)
      → Returns (λ (o : Option Action). Unit {0}) (history_at_edge ed.cursor code text)
  unfolding history_at_edge is_on_first_line is_on_last_line
  history_at_edge-Returns (char c) =
      let inside : min ed.cursor (length text) ≤ length text = omega arith in
      Returns-if (c == b'k')
        (λ e. rw (ascii_slice text (min ed.cursor (length text)) _ a inside) (returns tt))
        (λ ne.
          Returns-if (c == b'j')
            (λ e. rw (ascii_slice text (min ed.cursor (length text)) _ a inside) (returns tt))
            (λ ne. returns tt))
  history_at_edge-Returns _ = returns tt

clamp_to_last_char_within :
    (text : List ℕ) (ed : VimLineEditor)
    → ed.cursor ≤ length text
    → (clamp_to_last_char ed text).cursor ≤ length text
unfolding clamp_to_last_char
clamp_to_last_char_within text ed h =
    ground (arith, (backward_lem (λ i. not (is_char_boundary text i)) (length text - 1)).most)

clamp_to_last_char-IsReady :
    (text : List ℕ) (ed : VimLineEditor) → IsReady ed → IsReady (clamp_to_last_char ed text)
unfolding clamp_to_last_char
clamp_to_last_char-IsReady text ed r = elim (Bool-cases (length text == 0)) [
  | inl e ↦ rw e r
  | inr ne ↦ elim (Bool-cases (leb (length text) ed.cursor)) [
    | inl e ↦ rw (ne, e) r
    | inr f ↦ rw (ne, f) r
  ]
]

-- What the code between the match on the history and the commands returns.
abbrev Dispatched : List ℕ → VimLineEditor → VimLineEditor × Bool → Type 0
Dispatched text ed (ed', moved) = (ed'.cursor ≤ length text) × IsReady ed'

dispatch_motion_within :
    (text : List ℕ) (ed : VimLineEditor) (code : KeyCode)
    → IsAscii text
    → IsReady ed
    → ed.cursor ≤ length text
    → Returns (Dispatched text ed) (dispatch_motion ed code text)
unfolding dispatch_motion
dispatch_motion_within text ed code a r h = elim (Option-cases (lookup code shared_motions)) [
  | inl e ↦ rw (dispatch_motion, e) (returns (h, r))
  | inr (motion, e) ↦
      rw (dispatch_motion, e)
        (Returns-bind
          (lookup_within text code shared_motions motion (shared_motions_within text a) e ed.cursor
            h)
          (λ c le. returns (le, r)))
]

module _ (text : List ℕ) (ed : VimLineEditor) (a : IsAscii text) (r : IsReady ed)
    (h : ed.cursor ≤ length text) where
  pub normal-Safe : (key : Key) → Returns (Safe text) (handle_normal ed key text)
  unfolding handle_normal
  normal-Safe key =
      Returns-bind (history_at_edge-Returns text ed a r h key.code) (λ history u. from history)
    where
      after :
          (dispatched : VimLineEditor × Bool)
          → Dispatched text ed dispatched
          → Returns (Safe text) (
              if dispatched.1
              then some (clamp_to_last_char dispatched.0 text, unchanged)
              else normal_command dispatched.0 key text)
      after (ed', true) d = returns (
          still-Safe text _ a (clamp_to_last_char-IsReady text ed' d.1) _
            (clamp_to_last_char_within text ed' d.0) refl tt)
      after (ed', false) d = normal_code-Safe text ed' a d.1 d.0 key.code key.ctrl key.alt key.shift

      from :
          (history : Option Action)
          → Returns (Safe text) (elim history [
            | some action ↦ some (ed, requested action)
            | none ↦ dispatch_motion ed key.code text >>= λ (ed', moved).
                if moved
                then some (clamp_to_last_char ed' text, cursor_only)
                else normal_command ed' key text
          ])
      from (some action) = returns (still-Safe text ed a r _ h refl tt)
      from none = Returns-bind (dispatch_motion_within text ed key.code a r h) after
