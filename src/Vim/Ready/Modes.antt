-- ===== src/Vim/Ready/Modes.antt =====
-- The motions that the modes of crates/vim-line/src/vim.rs know, on an ASCII text.
use patch_seq.Base.{ℕ, ◌≤◌, List, length, arith}
use patch_seq.Base.Returns.{returns}
use patch_seq.Motions.{
  move_word_forward, move_word_backward, move_word_end, move_word_forward_word,
  move_word_backward_word, move_word_end_word,
}
use patch_seq.Vim.{Operator, change, yank}
use patch_seq.Vim.Text.Ascii.{IsAscii}
use patch_seq.Vim.Moves.{total, shared_motions}
use patch_seq.Vim.Modes.Insert.{insert_motions}
use patch_seq.Vim.Modes.Pending.{including, word_motion, operator_motions}
use patch_seq.Vim.Modes.Visual.{visual_motions}
use patch_seq.Vim.Within.{
  StaysWithin, move_left_within, move_right_within, move_line_start_within, move_line_end_within,
  move_line_end_insert_within, move_first_non_blank_within, move_up_within, move_down_within,
  move_to_matching_bracket_within, move_word_forward_within, move_word_backward_within,
  move_word_end_within, move_word_forward_word_within, move_word_backward_word_within,
  move_word_end_word_within,
}
use patch_seq.Vim.Ready.{◌&◌, AllWithin}

module _ (text : List ℕ) (a : IsAscii text) where
  pub including_within :
      (motion : ℕ → List ℕ → ℕ)
      → ((c : ℕ) → c ≤ length text → motion c text ≤ length text)
      → StaysWithin text (including motion)
  including_within motion w c h = returns (ground (arith, w c h))

  word_forward : StaysWithin text (total move_word_forward)
  word_forward c h = returns (move_word_forward_within text c h)

  word_backward : StaysWithin text (total move_word_backward)
  word_backward c h = returns (move_word_backward_within text c h)

  word_end : StaysWithin text (total move_word_end)
  word_end c h = returns (move_word_end_within text c h)

  long_forward : StaysWithin text (total move_word_forward_word)
  long_forward c h = returns (move_word_forward_word_within text c h)

  long_backward : StaysWithin text (total move_word_backward_word)
  long_backward c h = returns (move_word_backward_word_within text c h)

  long_end : StaysWithin text (total move_word_end_word)
  long_end c h = returns (move_word_end_word_within text c h)

  pub shared_motions_within : AllWithin text shared_motions
  shared_motions_within =
      let start = move_line_start_within text a in
      let stop = move_line_end_within text a in
      move_left_within text
      & move_left_within text
      & move_right_within text
      & move_right_within text
      & move_down_within text a
      & move_up_within text a
      & start
      & start
      & move_first_non_blank_within text a
      & stop
      & stop
      & word_forward
      & word_backward
      & word_end
      & long_forward
      & long_backward
      & long_end
      & move_to_matching_bracket_within text a
      & tt

  pub insert_motions_within : AllWithin text insert_motions
  insert_motions_within =
      move_left_within text
      & move_right_within text
      & move_up_within text a
      & move_down_within text a
      & move_line_start_within text a
      & move_line_end_insert_within text a
      & tt

  pub visual_motions_within : AllWithin text visual_motions
  visual_motions_within =
      let start = move_line_start_within text a in
      let stop = move_line_end_within text a in
      move_left_within text
      & move_left_within text
      & move_right_within text
      & move_right_within text
      & move_down_within text a
      & move_up_within text a
      & word_forward
      & word_backward
      & word_end
      & long_forward
      & long_backward
      & long_end
      & start
      & start
      & stop
      & stop
      & tt

  next_word_within :
      (op : Operator) (next end_of : ℕ → List ℕ → ℕ)
      → StaysWithin text (total next)
      → StaysWithin text (including end_of)
      → StaysWithin text (word_motion op next end_of)
  next_word_within Operator.delete next end_of n e = n
  next_word_within change next end_of n e = e
  next_word_within yank next end_of n e = n

  pub operator_motions_within : (op : Operator) → AllWithin text (operator_motions op)
  operator_motions_within op =
      let start = move_line_start_within text a in
      let stop = move_line_end_within text a in
      let to_end = including_within move_word_end (move_word_end_within text) in
      let to_long_end = including_within move_word_end_word (move_word_end_word_within text) in
      next_word_within op move_word_forward move_word_end word_forward to_end
      & word_backward
      & to_end
      & next_word_within op move_word_forward_word move_word_end_word long_forward to_long_end
      & long_backward
      & to_long_end
      & start
      & start
      & stop
      & stop
      & move_first_non_blank_within text a
      & move_left_within text
      & move_left_within text
      & move_right_within text
      & move_right_within text
      & move_down_within text a
      & move_up_within text a
      & tt
