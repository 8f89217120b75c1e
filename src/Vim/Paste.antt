-- ===== src/Vim/Paste.antt =====
-- Deleting and pasting in Normal mode.
pub mod Panics
use patch_seq.Base.{
  ℕ, zero, suc, ◌+◌, ◌-◌, ◌<◌, ◌≤◌, ◌≡◌, ◌≢◌, refl, sym, Bool, true, false, Option, none, some,
  List, [], ◌∷◌, ◌++◌, length, arith, min, max, ltb, leb, ◌==◌, take_length-append,
  drop_length-append, length-append, length-take, length-drop, take, drop, take-drop, ap, ◌∙◌, inl,
  inr, order-cases, Bool-cases, ==_iff, ==_ne, if◌then◌else◌,
}
use mathlib.Core.List.{append_assoc}
use patch_seq.Base.Returns.{Returns-some}
use patch_seq.Vim.{
  VimLineEditor, EditResult, normal, operator_pending, Operator, Key, KeyCode, char, plain, edited,
  unchanged, edit_and_yank, TextEdit, Handled,
}
use patch_seq.Vim.Text.{part}
use patch_seq.Vim.Text.Ascii.{
  IsAscii, IsAscii-append, IsAscii-take, IsAscii-drop, ascii_range, ascii_remove, ascii_insert,
}
use patch_seq.Vim.Moves.{Motion, lookup, same_code, dispatch_motion}
use patch_seq.Vim.Edits.{paste_before, apply_operator}
use patch_seq.Vim.Modes.{
  history_at_edge, handle_normal, normal_command, normal_char, normal_arms, is_escape,
}
use patch_seq.Vim.Modes.Pending.{operator_motions, is_line_op, operate_to, handle_operator_pending}
use patch_seq.Vim.Session.{apply, apply_all, by_mode, press, press_all}
use patch_seq.Vim.Ready.{lookup_within}
use patch_seq.Vim.Ready.Modes.{operator_motions_within}
use patch_seq.Vim.Steps.{press_lem, press_all_lem, press_all_nil}

drop-drop : (n m : ℕ) (text : List ℕ) → drop n (drop m text) ≡ drop (m + n) text
drop-drop n zero text = let e : 0 + n ≡ n = omega arith in rw e refl
drop-drop zero (suc m) [] = let e : suc m + 0 ≡ suc m = omega arith in rw e refl
drop-drop (suc n) (suc m) [] = let e : suc m + suc n ≡ suc (m + suc n) = omega arith in rw e refl
drop-drop n (suc m) (x ∷ text) =
    let e : suc m + n ≡ suc (m + n) = omega arith in rw e (drop-drop n m text)

module _ (text : List ℕ) (start stop : ℕ) (le : start ≤ stop) (within : stop ≤ length text) where
  abbrev rest_of : List ℕ
  rest_of = take start text ++ drop stop text

  length_before : length (take start text) ≡ start
  length_before = omega (arith, length-take start text)

  take_rest : take start rest_of ≡ take start text
  take_rest =
      ap (λ n. take n rest_of) (sym length_before)
      ∙ take_length-append (take start text) (drop stop text)

  drop_rest : drop start rest_of ≡ drop stop text
  drop_rest =
      ap (λ n. drop n rest_of) (sym length_before)
      ∙ drop_length-append (take start text) (drop stop text)

  -- A part put back where it was.
  put_back : take start text ++ part text start stop ++ drop stop text ≡ text
  put_back =
      let e : start + (stop - start) ≡ stop = omega arith in
      append_assoc (take start text) (part text start stop) (drop stop text)
      ∙ ap (λ r. take start text ++ (part text start stop ++ r))
          (sym (drop-drop (stop - start) start text ∙ ap (λ n. drop n text) e))
      ∙ ap (λ r. take start text ++ r) (take-drop (stop - start) (drop start text))
      ∙ take-drop start text

  length_part : length (part text start stop) ≡ stop - start
  length_part = omega (arith, length-take (stop - start) (drop start text), length-drop start text)

  length_rest : length rest_of ≡ length text - (stop - start)
  length_rest = omega (
    arith,
    length_before,
    length-append (take start text) (drop stop text),
    length-drop stop text,
  )

d_by_mode :
    (ed : VimLineEditor) (text : List ℕ)
    → by_mode (record ed { mode = normal }) (plain b'd') text
      ≡ some (record ed { mode = operator_pending Operator.delete }, unchanged)
unfolding by_mode handle_normal history_at_edge dispatch_motion lookup same_code normal_command
    normal_char normal_arms
d_by_mode ed text = refl

paste_by_mode :
    (ed : VimLineEditor) (text : List ℕ)
    → by_mode (record ed { mode = normal }) (plain b'P') text
      ≡ some (paste_before (record ed { mode = normal }) text)
unfolding by_mode handle_normal history_at_edge dispatch_motion lookup same_code normal_command
    normal_char normal_arms
paste_by_mode ed text = refl

-- The keys of the motions neither cancel the operator nor take the line.
motion_key :
    (code : KeyCode) (motion : Motion)
    → lookup code (operator_motions Operator.delete) ≡ some motion
    → (is_escape code ≡ false) × (is_line_op Operator.delete code ≡ false)
unfolding lookup same_code
motion_key (char c) motion e = elim (Bool-cases (c == b'd')) [
  | inl t ↦
      let same : c ≡ b'd' = ground arith in
      absurd (cc (ap (λ d. lookup (char d) (operator_motions Operator.delete)) same, e))
  | inr f ↦ (refl, f)
]
motion_key KeyCode.escape motion e = cc
motion_key _ motion e = (refl, refl)

module _ (ed : VimLineEditor) (text : List ℕ) (a : IsAscii text) (start stop : ℕ)
    (lt : start < stop) (within : stop ≤ length text) where
  abbrev deleted : VimLineEditor
  deleted = record ed { cursor = start; mode = normal; yank_buffer = part text start stop }

  abbrev delete_result : EditResult
  delete_result = edit_and_yank (TextEdit.delete start stop) (part text start stop)

  apply_delete :
      apply_operator (record ed { mode = normal }) Operator.delete start stop text
      ≡ some (deleted, delete_result)
  unfolding apply_operator
  apply_delete = rw (ascii_range text start stop a (omega arith) within) refl

  delete_applied :
      apply_all delete_result.edits text ≡ some (rest_of text start stop (omega arith) within)
  unfolding apply_all apply
  delete_applied = ascii_remove text start stop a (omega arith) within

  paste_result :
      paste_before deleted (rest_of text start stop (omega arith) within)
      ≡ (record deleted { cursor = stop }, edited (TextEdit.insert start (part text start stop)))
  unfolding paste_before
  paste_result =
      let rest = rest_of text start stop (omega arith) within in
      let size = length_part text start stop (omega arith) within in
      let total = length_rest text start stop (omega arith) within in
      let some_text : (length (part text start stop) == 0) ≡ false = ground (arith, size) in
      let pos : min start (length rest) ≡ start = omega (arith, total) in
      let cursor : min (start + length (part text start stop))
            (length rest + length (part text start stop))
          ≡ stop =
        omega (arith, size, total) in
      rw (some_text, pos, cursor) refl

  paste_applied :
      apply_all
        (TextEdit.insert start (part text start stop) ∷ [])
        (rest_of text start stop (omega arith) within)
      ≡ some text
  unfolding apply_all apply
  paste_applied =
      let le : start ≤ stop = omega arith in
      let rest = rest_of text start stop le within in
      let rest_ascii : IsAscii rest =
        IsAscii-append (take start text) (drop stop text) (IsAscii-take start text a)
          (IsAscii-drop stop text a) in
      let fits : start ≤ length rest = omega (arith, length_rest text start stop le within) in
      ascii_insert rest start (part text start stop) rest_ascii fits
      ∙ ap some (
          rw (take_rest text start stop le within, drop_rest text start stop le within)
            (put_back text start stop le within))

  deleted_and_pasted :
      (key : Key)
      → ed.cursor ≤ length text
      → by_mode (record ed { mode = operator_pending Operator.delete }) key text
        ≡ some (deleted, delete_result)
      → press_all (record ed { mode = normal }) text (plain b'd' ∷ key ∷ plain b'P' ∷ [])
        ≡ some (record deleted { cursor = stop }, text)
  unfolding apply_all
  deleted_and_pasted key inside step =
      let rest = rest_of text start stop (omega arith) within in
      let pending = record ed { mode = operator_pending Operator.delete } in
      let fits : start ≤ length rest =
        omega (arith, length_rest text start stop (omega arith) within) in
      press_all_lem (record ed { mode = normal }) pending text text (plain b'd') _
        (press_lem (record ed { mode = normal }) pending text text (plain b'd') unchanged inside
          (d_by_mode ed text) refl)
      ∙ press_all_lem pending deleted text rest key _
          (press_lem pending deleted text rest key delete_result inside step delete_applied)
      ∙ press_all_lem deleted (record deleted { cursor = stop }) rest text (plain b'P') []
          (press_lem deleted (record deleted { cursor = stop }) rest text (plain b'P')
            (edited (TextEdit.insert start (part text start stop))) fits
            (paste_by_mode deleted rest ∙ ap some paste_result) paste_applied)
      ∙ press_all_nil (record deleted { cursor = stop }) text

operator_by_mode :
    (ed : VimLineEditor) (text : List ℕ) (key : Key) (motion : Motion) (goal : ℕ)
    → lookup key.code (operator_motions Operator.delete) ≡ some motion
    → motion ed.cursor text ≡ some goal
    → by_mode (record ed { mode = operator_pending Operator.delete }) key text
      ≡ operate_to (record ed { mode = operator_pending Operator.delete }) Operator.delete goal text
unfolding by_mode handle_operator_pending
operator_by_mode ed text key motion goal e g =
    let k = motion_key key.code motion e in rw (k.0, k.1, e, g) refl

-- On an ASCII text, in Normal mode, `d` with any motion that takes the cursor elsewhere and then `P`
-- restores the text, leaves the text between the cursor and the end of the motion in the yank
-- buffer, and the cursor at the later one of the two.
pub delete_paste_round_trip :
    (ed : VimLineEditor) (text : List ℕ) (key : Key) (motion : Motion) (goal : ℕ)
    → IsAscii text
    → ed.cursor ≤ length text
    → lookup key.code (operator_motions Operator.delete) ≡ some motion
    → motion ed.cursor text ≡ some goal
    → goal ≢ ed.cursor
    → press_all (record ed { mode = normal }) text (plain b'd' ∷ key ∷ plain b'P' ∷ [])
      ≡ some (
        record ed {
          cursor = max ed.cursor goal;
          mode = normal;
          yank_buffer = part text (min ed.cursor goal) (max ed.cursor goal);
        },
        text,
      )
unfolding operate_to
delete_paste_round_trip ed text key motion goal a inside e g ne =
    let le : goal ≤ length text = Returns-some {Good = λ r. r ≤ length text} {value = goal} (
      rw g at (
        lookup_within text key.code (operator_motions Operator.delete) motion
          (operator_motions_within text a Operator.delete) e ed.cursor inside)) in
    let step = operator_by_mode ed text key motion goal e g in
    let apart : (ed.cursor == goal) ≡ false = ground arith in
    elim (order-cases ed.cursor goal) [
      | inl lt ↦
          let test : ltb ed.cursor goal ≡ true = ground arith in
          let least : min ed.cursor goal ≡ ed.cursor = omega arith in
          let most : max ed.cursor goal ≡ goal = omega arith in
          rw (least, most)
            (deleted_and_pasted ed text a ed.cursor goal lt le key inside
              (step ∙ rw (apart, test) (apply_delete ed text a ed.cursor goal lt le)))
      | inr (inl same) ↦ absurd (omega arith)
      | inr (inr gt) ↦
          let test : ltb ed.cursor goal ≡ false = ground arith in
          let least : min ed.cursor goal ≡ goal = omega arith in
          let most : max ed.cursor goal ≡ ed.cursor = omega arith in
          rw (least, most)
            (deleted_and_pasted ed text a goal ed.cursor gt inside key inside
              (step ∙ rw (apart, test) (apply_delete ed text a goal ed.cursor gt inside)))
    ]
