-- ===== src/Vim/Typing/Backspace.antt =====
-- Backspace in Insert mode takes back the character before the cursor.
use patch_seq.Base.{
  ℕ, zero, suc, ◌+◌, ◌-◌, ◌<◌, ◌≤◌, ◌≡◌, refl, sym, true, false, some, List, [], ◌∷◌, ◌++◌, length,
  arith, ltb, leb, ◌==◌, take_length-append, drop_length-append, length-append, take, ap, ◌∙◌, inl,
  inr, order-cases, subst,
}
use mathlib.Core.List.{append_assoc}
use patch_seq.Motions.{byte, is_char_boundary, move_left}
use patch_seq.Motions.Chars.{PreviousBoundary, move_left-PreviousBoundary}
use patch_seq.Vim.{VimLineEditor, insert, plain, backspace, edited, TextEdit}
use patch_seq.Vim.Text.{remove_range, is_range, encode}
use patch_seq.Vim.Moves.{lookup, same_code, boundary_at}
use patch_seq.Vim.Modes.Insert.{handle_insert, insert_backspace}
use patch_seq.Vim.Session.{apply, apply_all, by_mode, press_all}
use patch_seq.Vim.Steps.{press_lem, press_all_lem, press_all_nil}
use patch_seq.Vim.Typing.{starts_char, boundary_between, typing, type_one}

encode_starts : (c : ℕ) (after : List ℕ) → c < 1114112 → starts_char (encode c ++ after) ≡ true
unfolding encode
encode_starts c after h = ground arith

encode_continues :
    (c j : ℕ)
    → suc j < length (encode c)
    → (128 ≤ byte (encode c) (suc j)) × (byte (encode c) (suc j) < 192)
unfolding encode
encode_continues c zero h = ground arith
encode_continues c (suc zero) h = ground arith
encode_continues c (suc (suc zero)) h = ground arith
encode_continues c (suc (suc (suc j))) h = ground arith

encode_nonempty : (c : ℕ) → 0 < length (encode c)
unfolding encode
encode_nonempty c = ground arith

byte_past : (before rest : List ℕ) (j : ℕ) → byte (before ++ rest) (length before + j) ≡ byte rest j
byte_past [] rest j = let e : 0 + j ≡ j = omega arith in rw e refl
byte_past (x ∷ before) rest j =
    let e : suc (length before) + j ≡ suc (length before + j) = omega arith in
    rw e (byte_past before rest j)

byte_inside : (part after : List ℕ) (j : ℕ) → j < length part → byte (part ++ after) j ≡ byte part j
byte_inside [] after j h = absurd (omega arith)
byte_inside (x ∷ part) after zero h = refl
byte_inside (x ∷ part) after (suc j) h = byte_inside part after j (omega arith)

module _ (before after : List ℕ) (c : ℕ) (valid : c < 1114112) (s : starts_char after ≡ true) where
  abbrev typed_text : List ℕ
  typed_text = before ++ encode c ++ after

  abbrev behind : ℕ
  behind = length (before ++ encode c)

  inside_character :
      (j : ℕ)
      → suc j < length (encode c)
      → is_char_boundary typed_text (length before + suc j) ≡ false
  unfolding is_char_boundary
  inside_character j h =
      let at : byte typed_text (length before + suc j) ≡ byte (encode c) (suc j) =
        ap (λ t. byte t (length before + suc j)) (append_assoc before (encode c) after)
        ∙ byte_past before (encode c ++ after) (suc j)
        ∙ byte_inside (encode c) after (suc j) h in
      let b = encode_continues c j h in
      ground
        (arith, at, b, length-append (before ++ encode c) after, length-append before (encode c))

  start_boundary : is_char_boundary typed_text (length before) ≡ true
  start_boundary =
      subst (λ t. is_char_boundary t (length before) ≡ true)
        (sym (append_assoc before (encode c) after))
        (boundary_between before (encode c ++ after) (encode_starts c after valid))

  back_to_start : (r : ℕ) → PreviousBoundary typed_text behind r → r ≡ length before
  back_to_start r p = elim (order-cases r (length before)) [
    | inl lt ↦ absurd (
        cc (
          p.last (length before) lt
              (omega (arith, length-append before (encode c), encode_nonempty c)),
          start_boundary,
        ))
    | inr (inl e) ↦ e
    | inr (inr gt) ↦
        let j = r - suc (length before) in
        let e : length before + suc j ≡ r = omega (arith, gt) in
        let small : suc j < length (encode c) =
          omega (arith, e, p.below, length-append before (encode c)) in
        let f : is_char_boundary typed_text r ≡ false = rw (← e) (inside_character j small) in
        absurd (cc (f, p.boundary))
  ]

  backspace_start : boundary_at typed_text (behind - 1) ≡ length before
  unfolding move_left
  backspace_start =
      let pos : 0 < behind = omega (arith, length-append before (encode c), encode_nonempty c) in
      let inside : ltb 0 behind ≡ true = ground (arith, pos) in
      back_to_start (boundary_at typed_text (behind - 1))
        (rw inside at (move_left-PreviousBoundary typed_text behind pos))

  remove_character : remove_range typed_text (length before) behind ≡ some (before ++ after)
  unfolding remove_range is_range
  remove_character =
      let ordered : leb (length before) behind ≡ true =
        ground (arith, length-append before (encode c)) in
      let first : take (length before) typed_text ≡ before =
        ap (take (length before)) (append_assoc before (encode c) after)
        ∙ take_length-append before (encode c ++ after) in
      rw
        (
          ordered,
          start_boundary,
          boundary_between (before ++ encode c) after s,
          first,
          drop_length-append (before ++ encode c) after,
        )
        refl

  backspace_by_mode :
      (ed : VimLineEditor) (text : List ℕ)
      → by_mode
          (record ed { mode = insert })
          (record { code = backspace; ctrl = false; alt = false; shift = false })
          text
        ≡ insert_backspace (record ed { mode = insert }) text
  unfolding by_mode handle_insert lookup same_code
  backspace_by_mode ed text = refl

  insert_backspace_lem :
      (ed : VimLineEditor)
      → insert_backspace (typing ed (before ++ encode c)) typed_text
        ≡ some (typing ed before, edited (TextEdit.delete (length before) behind))
  unfolding insert_backspace
  insert_backspace_lem ed =
      let e : (behind == 0) ≡ false =
        ground (arith, length-append before (encode c), encode_nonempty c) in
      rw (e, backspace_start) refl

  -- In Insert mode, with the cursor between two characters, typing any character and then
  -- Backspace restores the text and the cursor, however many bytes the character has.
  pub type_backspace_round_trip :
      (ed : VimLineEditor)
      → press_all
          (typing ed before)
          (before ++ after)
          (plain c ∷ record { code = backspace; ctrl = false; alt = false; shift = false } ∷ [])
        ≡ some (typing ed before, before ++ after)
  unfolding apply_all apply
  type_backspace_round_trip ed =
      press_all_lem (typing ed before) (typing ed (before ++ encode c)) (before ++ after) typed_text
        (plain c) _ (type_one ed before after c s)
      ∙ press_all_lem (typing ed (before ++ encode c)) (typing ed before) typed_text
          (before ++ after) _ []
          (press_lem (typing ed (before ++ encode c)) (typing ed before) typed_text
            (before ++ after) _ (edited (TextEdit.delete (length before) behind))
            (omega (arith, length-append (before ++ encode c) after))
            (backspace_by_mode (typing ed (before ++ encode c)) typed_text
              ∙ insert_backspace_lem ed)
            remove_character)
      ∙ press_all_nil (typing ed before) (before ++ after)
