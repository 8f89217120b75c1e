-- ===== src/Vim/Tests.antt =====
-- The theorems on the line editor, at concrete texts, and what it does there.
use patch_seq.Base.{ℕ, ◌≡◌, refl, some, none, List, [], ◌∷◌, map, arith, false, ◌++◌}
use patch_seq.Base.Returns.{Returns}
use patch_seq.Motions.{move_word_forward, is_char_boundary, slice, move_right, move_word_end}
use patch_seq.Vim.{Key, plain, backspace, new, insert, visual, VimLineEditor}
use patch_seq.Vim.Text.{range, encode}
use patch_seq.Vim.Moves.{total, lookup, clamp_cursor}
use patch_seq.Vim.Modes.Visual.{selection_range}
use patch_seq.Vim.Session.{press, press_all}
use patch_seq.Vim.Ready.Press.{Settled, press-Settled}
use patch_seq.Vim.Typing.{typing, type_all_lem}
use patch_seq.Vim.Typing.Backspace.{type_backspace_round_trip}
use patch_seq.Vim.Paste.{delete_paste_round_trip}
use patch_seq.Vim.Paste.Panics.{visual_at_end_panics, paste_inside_panics}

abbrev typed : List ℕ → List Key
typed text = map plain text

-- "ab" and "é"
abbrev ab : List ℕ
ab = b'a' ∷ b'b' ∷ []

abbrev accent : List ℕ
accent = 195 ∷ 169 ∷ []

-- In the text "ab", `o` opens a line before the last character.
o_splits_the_line :
    press new ab (plain b'o')
    ≡ some (record new { mode = insert; cursor = 2 }, b'a' ∷ b'\n' ∷ b'b' ∷ [])
unfolding press slice
o_splits_the_line = refl

-- `d$` keeps the last character.
d_dollar :
    press_all new ab (typed (b'd' ∷ b'$' ∷ []))
    ≡ some (record new { yank_buffer = b'a' ∷ [] }, b'b' ∷ [])
unfolding press_all slice range
d_dollar = refl

-- `vlld` panics in "ab", and so does `e0` in "é".
visual_past_the_end : press_all new ab (typed (b'v' ∷ b'l' ∷ b'l' ∷ b'd' ∷ [])) ≡ none
unfolding press_all range move_right
visual_past_the_end = refl

word_end_inside : press_all new accent (typed (b'e' ∷ b'0' ∷ [])) ≡ none
unfolding press_all slice move_word_end
word_end_inside = refl

press-Settled_example : Returns Settled (press new ab (plain b'x'))
unfolding selection_range clamp_cursor
press-Settled_example =
    press-Settled new ab (plain b'x') (omega arith, (omega arith, tt)) (tt, tt, omega arith)
      (omega arith) (λ e. cc)

type_all_lem_example :
    press_all (typing new accent) (accent ++ ab) (map plain (233 ∷ b'c' ∷ []))
    ≡ some (typing new (accent ++ 195 ∷ 169 ∷ b'c' ∷ []), accent ++ (195 ∷ 169 ∷ b'c' ∷ []) ++ ab)
unfolding encode
type_all_lem_example = type_all_lem new accent ab (233 ∷ b'c' ∷ []) refl

type_backspace_round_trip_example :
    press_all
      (typing new accent)
      (accent ++ ab)
      (plain 8364 ∷ record { code = backspace; ctrl = false; alt = false; shift = false } ∷ [])
    ≡ some (typing new accent, accent ++ ab)
type_backspace_round_trip_example = type_backspace_round_trip accent ab 8364 (omega arith) refl new

delete_paste_round_trip_example :
    press_all new (b'a' ∷ b' ' ∷ b'b' ∷ []) (typed (b'd' ∷ b'w' ∷ b'P' ∷ []))
    ≡ some (record new { cursor = 2; yank_buffer = b'a' ∷ b' ' ∷ [] }, b'a' ∷ b' ' ∷ b'b' ∷ [])
unfolding move_word_forward lookup
delete_paste_round_trip_example =
    delete_paste_round_trip new (b'a' ∷ b' ' ∷ b'b' ∷ []) (plain b'w') (total move_word_forward) 2
      (omega arith, (omega arith, (omega arith, tt))) (omega arith) refl refl
      (λ e. omega (arith, e))

abbrev at_end : VimLineEditor
at_end = record new { mode = visual; visual_anchor = some 0; cursor = 2 }

visual_at_end_panics_example :
    (press at_end ab (plain b'd') ≡ none)
    × (press at_end ab (plain b'x') ≡ none)
    × (press at_end ab (plain b'c') ≡ none)
    × (press at_end ab (plain b'y') ≡ none)
visual_at_end_panics_example = visual_at_end_panics at_end ab 0 (omega arith) (omega arith)

paste_inside_panics_example : press (record new { yank_buffer = ab }) accent (plain b'p') ≡ none
unfolding is_char_boundary
paste_inside_panics_example =
    paste_inside_panics (record new { yank_buffer = ab }) accent (omega arith) (omega arith) refl
