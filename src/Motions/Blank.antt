-- ===== src/Motions/Blank.antt =====
-- `move_first_non_blank` of crates/vim-line/src/vim/motions.rs, with the characters that it reads.
use patch_seq.Base.{
  ℕ, zero, suc, ◌+◌, ◌-◌, ◌*◌, ◌%◌, Bool, ◌||◌, ◌&&◌, not, Option, some, List, ltb, leb, ◌==◌,
  if◌then◌else◌, length,
}
use patch_seq.Motions.{byte, slice, line_start_of, rfind_newline}

-- The bits of a continuation byte.
abbrev pub low_bits : List ℕ → ℕ → ℕ
low_bits text i = byte text i % 64

-- The character that starts at byte `i`, and how many bytes it has.
unfoldable pub char_at : List ℕ → ℕ → ℕ
char_at text i =
    if ltb (byte text i) 128
    then byte text i
    else if ltb (byte text i) 224
    then byte text i % 32 * 64 + low_bits text (i + 1)
    else if ltb (byte text i) 240
    then (byte text i % 16 * 64 + low_bits text (i + 1)) * 64 + low_bits text (i + 2)
    else ((byte text i % 8 * 64 + low_bits text (i + 1)) * 64 + low_bits text (i + 2)) * 64
      + low_bits text (i + 3)

unfoldable pub char_width : ℕ → ℕ
char_width b = if ltb b 128 then 1 else if ltb b 224 then 2 else if ltb b 240 then 3 else 4

-- `char::is_whitespace`: the characters with the property White_Space.
unfoldable pub is_whitespace : ℕ → Bool
is_whitespace c =
    (leb 9 c && leb c 13)
    || (c == 32)
    || (c == 133)
    || (c == 160)
    || (c == 5760)
    || (leb 8192 c && leb c 8202)
    || (c == 8232)
    || (c == 8233)
    || (c == 8239)
    || (c == 8287)
    || (c == 12288)

-- The loop over `char_indices`, with at most `n` characters left from `pos`.
unfoldable pub skip_blanks : (line_start : ℕ) → List ℕ → (n pos : ℕ) → ℕ
unfolding char_at char_width is_whitespace
skip_blanks line_start text zero pos = line_start
skip_blanks line_start text (suc n) pos =
    if leb (length text) pos
    then line_start
    else if (char_at text pos == b'\n') || not (is_whitespace (char_at text pos))
    then pos
    else skip_blanks line_start text n (pos + char_width (byte text pos))

unfoldable pub move_first_non_blank : (cursor : ℕ) → List ℕ → Option ℕ
unfolding skip_blanks rfind_newline
move_first_non_blank cursor text = slice text cursor (
    let line_start = line_start_of text cursor in
    slice text line_start
      (some (skip_blanks line_start text (length text - line_start) line_start)))
