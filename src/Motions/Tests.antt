-- ===== src/Motions/Tests.antt =====
-- The theorems on the motions, at concrete texts.
use patch_seq.Base.{ℕ, ◌≡◌, some, List, [], ◌∷◌, refl, arith, ◌<◌}
use patch_seq.Motions.{
  move_word_end, move_left, move_right, move_word_forward, rfind_newline, slice, is_char_boundary,
}
use patch_seq.Motions.Chars.{NextBoundary, PreviousBoundary, left_right_round_trip}
use patch_seq.Motions.Words.End.{NextEnd, move_word_end-NextEnd}
use patch_seq.Motions.Words.{NextWord, move_word_forward-NextWord}
use patch_seq.Motions.Lines.{move_up, move_down}
use patch_seq.Motions.Lines.UpDown.{up_down_round_trip, line_start_lem}
use patch_seq.Motions.Brackets.{move_to_matching_bracket}
use patch_seq.Motions.Brackets.Match.{bracket_round_trip}

-- "é(ab)"
abbrev accented : List ℕ
accented = 195 ∷ 169 ∷ b'(' ∷ b'a' ∷ b'b' ∷ b')' ∷ []

-- "ab\ncd"
abbrev two_lines : List ℕ
two_lines = b'a' ∷ b'b' ∷ b'\n' ∷ b'c' ∷ b'd' ∷ []

left_right_round_trip_example :
    NextBoundary accented 2 3
    × (move_left 3 accented ≡ 2)
    × PreviousBoundary accented 2 0
    × (move_right 0 accented ≡ 2)
unfolding is_char_boundary move_right move_left
left_right_round_trip_example = left_right_round_trip accented 2 refl (omega arith) (omega arith)

move_word_forward-NextWord_example : NextWord accented 2 3
unfolding move_word_forward
move_word_forward-NextWord_example = move_word_forward-NextWord accented 2 (omega arith)

up_down_round_trip_example : (move_up 4 two_lines ≡ some 1) × (move_down 1 two_lines ≡ some 4)
unfolding rfind_newline is_char_boundary
up_down_round_trip_example =
    up_down_round_trip two_lines 4 3 0 (omega arith) (line_start_lem two_lines 4) (omega arith)
      (line_start_lem two_lines 2) (omega arith) refl refl refl

bracket_round_trip_example : (5 < 6) × (move_to_matching_bracket 5 accented ≡ some 2)
unfolding move_to_matching_bracket is_char_boundary slice
bracket_round_trip_example =
    bracket_round_trip 2 5 accented (omega arith) refl (λ e. omega (arith, e))

move_word_end-NextEnd_example : NextEnd accented 2 4
unfolding move_word_end
move_word_end-NextEnd_example = move_word_end-NextEnd accented 2 (omega arith)
