-- ===== src/Vim/Within.antt =====
-- Every motion of an ASCII text returns, and leaves the cursor within the text.
use patch_seq.Base.{
  ℕ, zero, suc, ◌+◌, ◌-◌, ◌<◌, ◌≤◌, ◌≡◌, Bool, true, false, not, Option, none, some, List, [], ◌∷◌,
  ltb, leb, ◌==◌, ◌||◌, if◌then◌else◌, length, arith, min,
}
use patch_seq.Base.Returns.{Returns, returns, Returns-if}
use patch_seq.Motions.{
  byte, is_char_boundary, forward, backward, backward_before, or_end, find_newline, line_start_of,
  line_end_of, move_left, move_right, move_line_start, line_end, move_line_end,
  move_line_end_insert, move_word_forward, move_word_backward, move_word_end,
  move_word_forward_word, move_word_backward_word, move_word_end_word, Class, whitespace, same,
  class_at, skip_class, blank_at,
}
use patch_seq.Motions.Scan.{forward_lem, backward_lem, backward_before_lem}
use patch_seq.Motions.Lines.{move_up, move_down, down_from}
use patch_seq.Motions.Lines.UpDown.{line_start_lem}
use patch_seq.Motions.Blank.{char_width, skip_blanks, move_first_non_blank}
use patch_seq.Motions.Brackets.{
  find_from, find_before, find_matching_forward, find_matching_backward, or_stay, match_pairs,
  move_to_matching_bracket, pairs,
}
use patch_seq.Vim.Text.Ascii.{IsAscii, ascii_slice}
use patch_seq.Vim.Moves.{Motion, total}

abbrev pub StaysWithin : List ℕ → Motion → Type 0
StaysWithin text motion = (c : ℕ) → c ≤ length text → Returns (λ r. r ≤ length text) (motion c text)

forward_within :
    (test : ℕ → Bool) (text : List ℕ) (p : ℕ)
    → p ≤ length text
    → forward test (length text - p) p ≤ length text
forward_within test text p h = omega (arith, (forward_lem test (length text - p) p).most)

pub move_left_within : (text : List ℕ) → StaysWithin text (total move_left)
unfolding move_left
move_left_within text c h =
    returns (ground (arith, (backward_lem (λ i. not (is_char_boundary text i)) (c - 1)).most))

pub move_right_within : (text : List ℕ) → StaysWithin text (total move_right)
unfolding move_right
move_right_within text c h =
    returns (ground (arith, forward_within (λ i. not (is_char_boundary text i)) text (c + 1)))

find_newline_within :
    (text : List ℕ) (n p : ℕ)
    → p + n ≡ length text
    → (p ≤ or_end text (find_newline text n p))
      × (or_end text (find_newline text n p) ≤ length text)
unfolding find_newline
find_newline_within text zero p e = (omega arith, omega arith)
find_newline_within text (suc n) p e = ground (arith, find_newline_within text n (suc p))

pub line_end_within :
    (text : List ℕ) (c : ℕ)
    → c ≤ length text
    → (c ≤ line_end_of text c) × (line_end_of text c ≤ length text)
line_end_within text c h = find_newline_within text (length text - c) c (omega arith)

module _ (text : List ℕ) (a : IsAscii text) where
  pub move_line_start_within : StaysWithin text move_line_start
  unfolding move_line_start
  move_line_start_within c h =
      rw (ascii_slice text c (some (line_start_of text c)) a h)
        (returns (omega (arith, (line_start_lem text c).most)))

  line_end_stays : (past_end : Bool) → StaysWithin text (λ c text. line_end c text past_end)
  unfolding line_end
  line_end_stays past_end c h =
      let w = line_end_within text c h in
      let back =
        (backward_lem (λ i. not (is_char_boundary text i)) (line_end_of text c - 1)).most in
      rw (ascii_slice text c _ a h) (
        Returns-if (past_end || (line_end_of text c == 0)) (λ p. returns w.1)
          (λ p. returns (omega (arith, w, back))))

  pub move_line_end_within : StaysWithin text move_line_end
  unfolding move_line_end
  move_line_end_within c h = line_end_stays false c h

  pub move_line_end_insert_within : StaysWithin text move_line_end_insert
  unfolding move_line_end_insert
  move_line_end_insert_within c h = line_end_stays true c h

  skip_blanks_within :
      (line_start n p : ℕ)
      → line_start ≤ length text
      → skip_blanks line_start text n p ≤ length text
  unfolding skip_blanks
  skip_blanks_within line_start zero p h = h
  skip_blanks_within line_start (suc n) p h =
      ground (arith, skip_blanks_within line_start n (p + char_width (byte text p)) h)

  pub move_first_non_blank_within : StaysWithin text move_first_non_blank
  unfolding move_first_non_blank
  move_first_non_blank_within c h =
      let le : line_start_of text c ≤ length text =
        omega (arith, (line_start_lem text c).most, h) in
      rw (ascii_slice text c _ a h, ascii_slice text (line_start_of text c) _ a le)
        (returns (skip_blanks_within (line_start_of text c) _ _ le))

  pub move_up_within : StaysWithin text move_up
  unfolding move_up
  move_up_within c h =
      let start = line_start_of text c in
      let le = (line_start_lem text c).most in
      rw (ascii_slice text c _ a h) (
        Returns-if (start == 0) (λ e. returns h)
          (λ ne.
            let above = (line_start_lem text (start - 1)).most in
            rw (ascii_slice text (start - 1) _ a (omega (arith, le, h)))
              (returns (omega (arith, le, above, h)))))

  down_from_within : (col newline : ℕ) → Returns (λ r. r ≤ length text) (down_from col newline text)
  unfolding down_from
  down_from_within col newline =
      Returns-if (leb (length text) (newline + 1)) (λ e. returns (omega arith))
        (λ ne.
          let le : newline + 1 ≤ length text = ground arith in
          rw (ascii_slice text (newline + 1) _ a le)
            (returns (omega (arith, line_end_within text (newline + 1) le))))

  pub move_down_within : StaysWithin text move_down
  unfolding move_down
  move_down_within c h =
      rw (ascii_slice text c _ a h) (from (find_newline text (length text - c) c))
    where
      from :
          (newline : Option ℕ)
          → Returns
              (λ r. r ≤ length text)
              (elim newline [
                | none ↦ some c
                | some newline ↦ down_from (c - line_start_of text c) newline text
              ])
      from none = returns h
      from (some newline) = down_from_within (c - line_start_of text c) newline

find_from_within :
    (opening closing : ℕ) (text : List ℕ) (depth n p c : ℕ)
    → p + n ≤ length text
    → c ≤ length text
    → or_stay c (find_from opening closing text depth n p) ≤ length text
unfolding find_from
find_from_within opening closing text depth zero p c e h = h
find_from_within opening closing text depth (suc n) p c e h =
    let rest = λ (d : ℕ). find_from_within opening closing text d n (suc p) c (omega arith) h in
    ground (arith, rest (depth - 1), rest depth, rest (depth + 1))

find_before_within :
    (opening closing : ℕ) (text : List ℕ) (depth p c : ℕ)
    → p ≤ c
    → or_stay c (find_before opening closing text depth p) ≤ c
unfolding find_before
find_before_within opening closing text depth zero c h = omega arith
find_before_within opening closing text depth (suc p) c h =
    let rest = λ (d : ℕ). find_before_within opening closing text d p c (omega arith) in
    ground (arith, rest (depth - 1), rest depth, rest (depth + 1))

match_pairs_within :
    (text : List ℕ) (c : ℕ) (ps : List (ℕ × ℕ))
    → c < length text
    → match_pairs c text ps ≤ length text
unfolding match_pairs find_matching_forward find_matching_backward
match_pairs_within text c [] h = omega arith
match_pairs_within text c ((opening, closing) ∷ ps) h = ground (
  arith,
  find_from_within opening closing text 1 (length text - suc c) (suc c) c (omega arith)
      (omega arith),
  find_before_within opening closing text 1 c c (omega arith),
  match_pairs_within text c ps h,
)

pub move_to_matching_bracket_within :
    (text : List ℕ) → IsAscii text → StaysWithin text move_to_matching_bracket
unfolding move_to_matching_bracket
move_to_matching_bracket_within text a c h =
    Returns-if (leb (length text) c) (λ e. returns h)
      (λ ne.
        rw (ascii_slice text c _ a h) (returns (match_pairs_within text c pairs (ground arith))))

module _ (text : List ℕ) where
  skip_class_within :
      (class : Class) (p : ℕ) → p ≤ length text → skip_class text class p ≤ length text
  skip_class_within class p h = forward_within (λ i. same (class_at text i) class) text p h

  pub move_word_forward_within : (c : ℕ) → c ≤ length text → move_word_forward c text ≤ length text
  unfolding move_word_forward
  move_word_forward_within c h =
      let start = class_at text c in
      let run = skip_class_within start c h in
      let blank = skip_class_within whitespace c h in
      ground (arith, run, blank, skip_class_within whitespace (skip_class text start c) run)

  pub move_word_backward_within :
      (c : ℕ) → c ≤ length text → move_word_backward c text ≤ length text
  unfolding move_word_backward
  move_word_backward_within c h =
      let from = min c (length text - 1) in
      let back = backward_lem (λ i. same (class_at text i) whitespace) (from - 1) in
      let pos = backward (λ i. same (class_at text i) whitespace) (from - 1) in
      let last = backward_before_lem (λ i. same (class_at text i) (class_at text pos)) pos in
      ground (arith, back.most, last.most)

  pub move_word_end_within : (c : ℕ) → c ≤ length text → move_word_end c text ≤ length text
  unfolding move_word_end
  move_word_end_within c h =
      let pos = skip_class text whitespace (c + 1) in
      let run =
        forward_lem (λ i. same (class_at text (i + 1)) (class_at text pos)) (length text - 1 - pos)
          pos in
      ground (arith, run.most)

  pub move_word_forward_word_within :
      (c : ℕ) → c ≤ length text → move_word_forward_word c text ≤ length text
  unfolding move_word_forward_word
  move_word_forward_word_within c h = forward_within _ text _ (forward_within _ text c h)

  pub move_word_backward_word_within :
      (c : ℕ) → c ≤ length text → move_word_backward_word c text ≤ length text
  unfolding move_word_backward_word
  move_word_backward_word_within c h =
      let blanks = backward_before (blank_at text) c in
      omega (
        arith,
        h,
        (backward_before_lem (blank_at text) c).most,
        (backward_before_lem (λ i. not (blank_at text i)) blanks).most,
      )

  pub move_word_end_word_within :
      (c : ℕ) → c ≤ length text → move_word_end_word c text ≤ length text
  unfolding move_word_end_word
  move_word_end_word_within c h =
      let next = if ltb c (length text) then c + 1 else c in
      let le : next ≤ length text = ground arith in
      let start = forward (blank_at text) (length text - next) next in
      let start_le = forward_within (blank_at text) text next le in
      ground (arith, forward_within (λ i. not (blank_at text i)) text start start_le)
