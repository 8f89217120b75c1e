-- ===== src/Motions.antt =====
-- The cursor motions of crates/vim-line/src/vim/motions.rs. A text is its UTF-8 bytes and a cursor a
-- byte offset. A motion that slices the text panics, `none`, where the slice does not start or end
-- between two characters.
pub mod Scan
pub mod Chars
pub mod Words
pub mod Lines
pub mod Brackets
pub mod Blank
mod Tests
use patch_seq.Base.{
  ℕ, zero, suc, ◌+◌, ◌-◌, Bool, true, false, ◌||◌, ◌&&◌, not, Option, none, some, List, [], ◌∷◌,
  ltb, leb, ◌==◌, if◌then◌else◌, length, get_elem?, min,
}

-- `bytes[i]`, which the code reads within bounds only.
abbrev pub or_nul : Option ℕ → ℕ
or_nul none = 0
or_nul (some b) = b

abbrev pub byte : List ℕ → ℕ → ℕ
byte text i = or_nul (get_elem? text i)

-- `str::is_char_boundary`: a byte from 0x80 to 0xBF continues a character.
unfoldable pub is_char_boundary : List ℕ → ℕ → Bool
is_char_boundary text i =
    if i == 0
    then true
    else if leb (length text) i
    then i == length text
    else ltb (byte text i) 128 || leb 192 (byte text i)

-- `while pos < len && test(pos) { pos += 1 }`, with `n` positions left.
unfoldable pub forward : (test : ℕ → Bool) → (n : ℕ) → (pos : ℕ) → ℕ
forward test zero pos = pos
forward test (suc n) pos = if test pos then forward test n (suc pos) else pos

-- `while pos > 0 && test(pos) { pos -= 1 }`
unfoldable pub backward : (test : ℕ → Bool) → (pos : ℕ) → ℕ
backward test zero = 0
backward test (suc n) = if test (suc n) then backward test n else suc n

-- `while pos > 0 && test(pos - 1) { pos -= 1 }`
unfoldable pub backward_before : (test : ℕ → Bool) → (pos : ℕ) → ℕ
backward_before test zero = 0
backward_before test (suc n) = if test n then backward_before test n else suc n

unfoldable pub move_left : (cursor : ℕ) → List ℕ → ℕ
unfolding backward is_char_boundary
move_left cursor text =
    if ltb 0 cursor then backward (λ i. not (is_char_boundary text i)) (cursor - 1) else cursor

unfoldable pub move_right : (cursor : ℕ) → List ℕ → ℕ
unfolding forward is_char_boundary
move_right cursor text =
    if ltb cursor (length text)
    then forward (λ i. not (is_char_boundary text i)) (length text - (cursor + 1)) (cursor + 1)
    else cursor

-- A slice of the text from or up to `i`.
unfoldable pub slice : {A : Type 0} → List ℕ → ℕ → Option A → Option A
slice text i result = if is_char_boundary text i then result else none

unfoldable pub rfind_newline : List ℕ → (end : ℕ) → Option ℕ
rfind_newline text zero = none
rfind_newline text (suc n) = if byte text n == b'\n' then some n else rfind_newline text n

unfoldable pub find_newline : List ℕ → (n : ℕ) → (start : ℕ) → Option ℕ
find_newline text zero pos = none
find_newline text (suc n) pos =
    if byte text pos == b'\n' then some pos else find_newline text n (suc pos)

-- `.map(|i| i + 1).unwrap_or(0)`
abbrev pub after : Option ℕ → ℕ
after none = 0
after (some i) = i + 1

abbrev pub or_end : List ℕ → Option ℕ → ℕ
or_end text none = length text
or_end text (some i) = i

abbrev pub line_start_of : List ℕ → ℕ → ℕ
line_start_of text cursor = after (rfind_newline text cursor)

abbrev pub line_end_of : List ℕ → ℕ → ℕ
line_end_of text cursor = or_end text (find_newline text (length text - cursor) cursor)

unfoldable pub move_line_start : (cursor : ℕ) → List ℕ → Option ℕ
unfolding rfind_newline
move_line_start cursor text = slice text cursor (some (line_start_of text cursor))

unfoldable pub line_end : (cursor : ℕ) → List ℕ → (past_end : Bool) → Option ℕ
unfolding find_newline backward is_char_boundary
line_end cursor text past_end = slice text cursor (
    let eol = line_end_of text cursor in
    if past_end || (eol == 0)
    then some eol
    else some (backward (λ i. not (is_char_boundary text i)) (eol - 1)))

unfoldable pub move_line_end : (cursor : ℕ) → List ℕ → Option ℕ
unfolding line_end
move_line_end cursor text = line_end cursor text false

unfoldable pub move_line_end_insert : (cursor : ℕ) → List ℕ → Option ℕ
unfolding line_end
move_line_end_insert cursor text = line_end cursor text true

pub data Class : Type 0 where
  whitespace keyword punctuation : Class

unfoldable pub is_ascii_whitespace : ℕ → Bool
is_ascii_whitespace b = (b == b' ') || (b == b'\t') || (b == b'\n') || (b == 12) || (b == b'\r')

unfoldable pub is_ascii_alphanumeric : ℕ → Bool
is_ascii_alphanumeric b =
    (leb b'0' b && leb b b'9') || (leb b'A' b && leb b b'Z') || (leb b'a' b && leb b b'z')

unfoldable pub class_of : ℕ → Class
unfolding is_ascii_whitespace is_ascii_alphanumeric
class_of b =
    if is_ascii_whitespace b
    then whitespace
    else if is_ascii_alphanumeric b || (b == b'_')
    then keyword
    else punctuation

unfoldable pub same : Class → Class → Bool
same whitespace whitespace = true
same keyword keyword = true
same punctuation punctuation = true
same _ _ = false

abbrev pub class_at : List ℕ → ℕ → Class
class_at text i = class_of (byte text i)

abbrev pub skip_class : List ℕ → Class → (pos : ℕ) → ℕ
skip_class text c pos = forward (λ i. same (class_at text i) c) (length text - pos) pos

unfoldable pub move_word_forward : (cursor : ℕ) → List ℕ → ℕ
unfolding forward class_of same
move_word_forward cursor text =
    if ltb cursor (length text)
    then (let start_class = class_at text cursor in
        skip_class text whitespace
          (if same start_class whitespace then cursor else skip_class text start_class cursor))
    else cursor

unfoldable pub move_word_backward : (cursor : ℕ) → List ℕ → ℕ
unfolding backward backward_before class_of same
move_word_backward cursor text =
    let from = min cursor (length text - 1) in
    if (length text == 0) || (from == 0)
    then 0
    else let pos = backward (λ i. same (class_at text i) whitespace) (from - 1) in
      if same (class_at text pos) whitespace
      then 0
      else backward_before (λ i. same (class_at text i) (class_at text pos)) pos

unfoldable pub move_word_end : (cursor : ℕ) → List ℕ → ℕ
unfolding forward class_of same
move_word_end cursor text =
    if leb (length text) cursor
    then cursor
    else let pos = skip_class text whitespace (cursor + 1) in
      if leb (length text) pos
      then length text
      else forward (λ i. same (class_at text (i + 1)) (class_at text pos)) (length text - 1 - pos)
          pos

abbrev pub blank_at : List ℕ → ℕ → Bool
blank_at text i = is_ascii_whitespace (byte text i)

unfoldable pub move_word_forward_word : (cursor : ℕ) → List ℕ → ℕ
unfolding forward is_ascii_whitespace
move_word_forward_word cursor text =
    let end = forward (λ i. not (blank_at text i)) (length text - cursor) cursor in
    forward (blank_at text) (length text - end) end

unfoldable pub move_word_backward_word : (cursor : ℕ) → List ℕ → ℕ
unfolding backward_before is_ascii_whitespace
move_word_backward_word cursor text =
    backward_before (λ i. not (blank_at text i)) (backward_before (blank_at text) cursor)

unfoldable pub move_word_end_word : (cursor : ℕ) → List ℕ → ℕ
unfolding forward is_ascii_whitespace
move_word_end_word cursor text =
    let next = if ltb cursor (length text) then cursor + 1 else cursor in
    let start = forward (blank_at text) (length text - next) next in
    let end = forward (λ i. not (blank_at text i)) (length text - start) start in
    if ltb (cursor + 1) end then end - 1 else end
