-- ===== src/Vim/Moves.antt =====
-- The cursor motions as `VimLineEditor` calls them (crates/vim-line/src/vim.rs).
use patch_seq.Base.{
  ℕ, ◌-◌, Bool, true, false, not, Option, none, some, List, [], ◌∷◌, leb, ◌==◌, if◌then◌else◌,
  length, min,
}
use patch_seq.Motions.{
  is_char_boundary, backward, move_left, move_right, move_line_start, move_line_end,
  move_word_forward, move_word_backward, move_word_end, move_word_forward_word,
  move_word_backward_word, move_word_end_word,
}
use patch_seq.Motions.Blank.{move_first_non_blank}
use patch_seq.Motions.Lines.{move_up, move_down}
use patch_seq.Motions.Brackets.{move_to_matching_bracket}
use patch_seq.Vim.{
  KeyCode, char, escape, backspace, left, right, up, down, home, tab, enter, VimLineEditor,
}
use patch_seq.Base.Returns.{◌>>=◌}

abbrev pub Motion : Type 0
Motion = (cursor : ℕ) → List ℕ → Option ℕ

-- A motion that does not panic.
abbrev pub total : (ℕ → List ℕ → ℕ) → Motion
total motion cursor text = some (motion cursor text)

unfoldable pub same_code : KeyCode → KeyCode → Bool
same_code (char c) (char d) = c == d
same_code escape escape = true
same_code backspace backspace = true
same_code KeyCode.delete KeyCode.delete = true
same_code left left = true
same_code right right = true
same_code up up = true
same_code down down = true
same_code home home = true
same_code KeyCode.end KeyCode.end = true
same_code tab tab = true
same_code enter enter = true
same_code _ _ = false

-- The arm of a match that takes the key code.
unfoldable pub lookup {ℓ} : {A : Type ℓ} → KeyCode → List (KeyCode × A) → Option A
unfolding same_code
lookup code [] = none
lookup code ((k, a) ∷ arms) = if same_code code k then some a else lookup code arms

unfoldable pub clamp_cursor : VimLineEditor → List ℕ → VimLineEditor
clamp_cursor ed text = record ed { cursor = min ed.cursor (length text) }

-- `while p > 0 && !text.is_char_boundary(p) { p -= 1 }`
abbrev pub boundary_at : List ℕ → ℕ → ℕ
boundary_at text p = backward (λ i. not (is_char_boundary text i)) p

unfoldable pub clamp_to_last_char : VimLineEditor → List ℕ → VimLineEditor
unfolding backward is_char_boundary
clamp_to_last_char ed text =
    if length text == 0
    then record ed { cursor = 0 }
    else if leb (length text) ed.cursor
    then record ed { cursor = boundary_at text (length text - 1) }
    else ed

unfoldable pub set_cursor : VimLineEditor → ℕ → List ℕ → VimLineEditor
unfolding backward is_char_boundary
set_cursor ed pos text = record ed { cursor = boundary_at text (min pos (length text)) }

abbrev pub shared_motions : List (KeyCode × Motion)
shared_motions =
    (char b'h', total move_left)
    ∷ (left, total move_left)
    ∷ (char b'l', total move_right)
    ∷ (right, total move_right)
    ∷ (char b'j', move_down)
    ∷ (char b'k', move_up)
    ∷ (char b'0', move_line_start)
    ∷ (home, move_line_start)
    ∷ (char b'^', move_first_non_blank)
    ∷ (char b'$', move_line_end)
    ∷ (KeyCode.end, move_line_end)
    ∷ (char b'w', total move_word_forward)
    ∷ (char b'b', total move_word_backward)
    ∷ (char b'e', total move_word_end)
    ∷ (char b'W', total move_word_forward_word)
    ∷ (char b'B', total move_word_backward_word)
    ∷ (char b'E', total move_word_end_word)
    ∷ (char b'%', move_to_matching_bracket)
    ∷ []

-- The editor after the motion, and whether the key is one.
unfoldable pub dispatch_motion : VimLineEditor → KeyCode → List ℕ → Option (VimLineEditor × Bool)
unfolding lookup
dispatch_motion ed code text = elim (lookup code shared_motions) [
  | none ↦ some (ed, false)
  | some motion ↦ motion ed.cursor text >>= λ c. some (record ed { cursor = c }, true)
]
