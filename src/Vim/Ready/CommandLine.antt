-- ===== src/Vim/Ready/CommandLine.antt =====
-- The command line of crates/vim-line/src/vim/command_line.rs, with an ASCII buffer.
use patch_seq.Base.{
  ℕ, ◌-◌, ◌<◌, ◌≤◌, refl, Bool, not, Option, List, [], ◌∷◌, ◌++◌, leb, ◌==◌, ◌&&◌, length, arith,
  take, drop, length-append, length-take, length-drop,
}
use patch_seq.Base.Returns.{Returns, returns, Returns-bind, Returns-if}
use patch_seq.Motions.{is_char_boundary}
use patch_seq.Motions.Scan.{backward_lem}
use patch_seq.Vim.{
  VimLineEditor, KeyCode, char, escape, backspace, left, right, up, down, home, tab, enter, Key,
  unchanged,
}
use patch_seq.Vim.Text.Ascii.{
  IsAscii, IsAscii-append, IsAscii-take, IsAscii-drop, ascii_remove, ascii_insert, ascii_encode,
  ascii_len,
}
use patch_seq.Vim.Moves.{boundary_at}
use patch_seq.Vim.Edits.{char_end}
use patch_seq.Vim.CommandLine.{
  Buffer, delete_before, delete_at, put_char, step_left, step_right, with_buffer, exit_command_line,
  handle_command_char, handle_command_line,
}
use patch_seq.Vim.Ready.{IsReady, IsAsciiCode, Safe, still-Safe}
use patch_seq.Vim.Ready.Edits.{char_end_within}

abbrev IsBuffer : Buffer → Type 0
IsBuffer (buf, cursor) = IsAscii buf × (cursor ≤ length buf)

boundary_at_le : (text : List ℕ) (p : ℕ) → boundary_at text p ≤ p
boundary_at_le text p = (backward_lem (λ i. not (is_char_boundary text i)) p).most

module _ (buf : List ℕ) (cursor : ℕ) (a : IsAscii buf) (h : cursor ≤ length buf) where
  removed :
      (start stop : ℕ)
      → start ≤ stop
      → stop ≤ length buf
      → IsBuffer (take start buf ++ drop stop buf, start)
  removed start stop le w = (
    IsAscii-append (take start buf) (drop stop buf) (IsAscii-take start buf a)
        (IsAscii-drop stop buf a),
    omega (arith, le, w, length-append (take start buf) (drop stop buf), length-take start buf),
  )

  delete_before_within : Returns IsBuffer (delete_before buf cursor)
  unfolding delete_before
  delete_before_within =
      let start = boundary_at buf (cursor - 1) in
      let le : start ≤ cursor = omega (arith, boundary_at_le buf (cursor - 1)) in
      Returns-if (cursor == 0) (λ e. returns (a, h))
        (λ ne. rw (ascii_remove buf start cursor a le h) (returns (removed start cursor le h)))

  delete_at_within : Returns IsBuffer (delete_at buf cursor)
  unfolding delete_at
  delete_at_within =
      Returns-if (leb (length buf) cursor) (λ e. returns (a, h))
        (λ ne.
          let w = char_end_within buf cursor (ground arith) in
          let le : cursor ≤ char_end buf cursor = omega (arith, w) in
          rw (ascii_remove buf cursor (char_end buf cursor) a le w.1)
            (returns (removed cursor (char_end buf cursor) le w.1)))

  put_char_within : (c : ℕ) → c < 128 → Returns IsBuffer (put_char buf cursor c)
  unfolding put_char
  put_char_within c small =
      rw (ascii_encode c small, ascii_len c small, ascii_insert buf cursor (c ∷ []) a h)
        (returns (
          IsAscii-append (take cursor buf ++ c ∷ []) (drop cursor buf)
              (IsAscii-append (take cursor buf) (c ∷ []) (IsAscii-take cursor buf a) (small, tt))
              (IsAscii-drop cursor buf a),
          omega (
            arith,
            h,
            length-append (take cursor buf ++ c ∷ []) (drop cursor buf),
            length-append (take cursor buf) (c ∷ []),
            length-take cursor buf,
            length-drop cursor buf,
          ),
        ))

  step_left_within : step_left buf cursor ≤ length buf
  step_left_within = ground (arith, boundary_at_le buf (cursor - 1))

  step_right_within : step_right buf cursor ≤ length buf
  step_right_within = ground (arith, char_end_within buf cursor)

module _ (text : List ℕ) (ed : VimLineEditor) (a : IsAscii text) (r : IsReady ed)
    (h : ed.cursor ≤ length text) where
  with_buffer-Safe :
      (o : Option Buffer) → Returns IsBuffer o → Returns (Safe text) (with_buffer ed o)
  with_buffer-Safe o b =
      Returns-bind b (λ buffer i. returns (still-Safe text _ a (r.0, i.0, i.1) _ h refl tt))

  exited : Safe text (exit_command_line ed, unchanged)
  unfolding exit_command_line
  exited = still-Safe text _ a (r.0, tt, omega arith) _ h refl tt

  exited_within : (exit_command_line ed).cursor ≤ length text
  unfolding exit_command_line
  exited_within = h

  command_char-Safe :
      (ctrl alt : Bool) (c : ℕ) → c < 128 → Returns (Safe text) (handle_command_char ed ctrl alt c)
  unfolding handle_command_char
  command_char-Safe ctrl alt c small =
      Returns-if ((c == b'c') && ctrl) (λ e. returns exited)
        (λ ne.
          Returns-if (not ctrl && not alt)
            (λ e.
              with_buffer-Safe _ (put_char_within ed.command_buf ed.command_cursor r.1 r.2 c small))
            (λ ne. returns (still-Safe text ed a r _ h refl tt)))

  command_code-Safe :
      (code : KeyCode) (ctrl alt shift : Bool)
      → IsAsciiCode code
      → Returns
          (Safe text)
          (handle_command_line ed (record { code = code; ctrl = ctrl; alt = alt; shift = shift }))
  unfolding handle_command_line
  command_code-Safe (char c) ctrl alt shift small = command_char-Safe ctrl alt c small
  command_code-Safe escape ctrl alt shift i = returns exited
  command_code-Safe enter ctrl alt shift i =
      returns (still-Safe text (exit_command_line ed) a exited.ready _ exited_within refl tt)
  command_code-Safe backspace ctrl alt shift i =
      with_buffer-Safe _ (delete_before_within ed.command_buf ed.command_cursor r.1 r.2)
  command_code-Safe KeyCode.delete ctrl alt shift i =
      with_buffer-Safe _ (delete_at_within ed.command_buf ed.command_cursor r.1 r.2)
  command_code-Safe left ctrl alt shift i =
      with_buffer-Safe _ (returns (r.1, step_left_within ed.command_buf ed.command_cursor r.1 r.2))
  command_code-Safe right ctrl alt shift i =
      with_buffer-Safe _ (returns (r.1, step_right_within ed.command_buf ed.command_cursor r.1 r.2))
  command_code-Safe home ctrl alt shift i = with_buffer-Safe _ (returns (r.1, omega arith))
  command_code-Safe KeyCode.end ctrl alt shift i = with_buffer-Safe _ (returns (r.1, omega arith))
  command_code-Safe up ctrl alt shift i = returns (still-Safe text ed a r _ h refl tt)
  command_code-Safe down ctrl alt shift i = returns (still-Safe text ed a r _ h refl tt)
  command_code-Safe tab ctrl alt shift i = returns (still-Safe text ed a r _ h refl tt)

  pub command_line-Safe :
      (key : Key) → IsAsciiCode key.code → Returns (Safe text) (handle_command_line ed key)
  command_line-Safe key i = command_code-Safe key.code key.ctrl key.alt key.shift i
