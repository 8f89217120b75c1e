-- ===== src/Vim/Typing.antt =====
-- Typing in Insert mode.
pub mod Backspace
use patch_seq.Base.{
  ℕ, zero, suc, ◌+◌, ◌-◌, ◌<◌, ◌≤◌, ◌≡◌, refl, sym, Bool, true, false, not, Option, none, some,
  List, [], ◌∷◌, ◌++◌, ◌&&◌, ◌||◌, map, length, arith, ltb, leb, ◌==◌, take_length-append,
  drop_length-append, length-append, get_elem?, take, drop, ap, ◌∙◌, inl, inr, order-cases, subst,
  if◌then◌else◌,
}
use mathlib.Core.List.{append_assoc, append-nil}
use patch_seq.Motions.{byte, is_char_boundary, move_left}
use patch_seq.Motions.Chars.{PreviousBoundary, move_left-PreviousBoundary}
use patch_seq.Vim.{VimLineEditor, insert, Key, plain, backspace, edited, TextEdit}
use patch_seq.Vim.Text.{insert_str, remove_range, is_range, encode, len_utf8}
use patch_seq.Vim.Moves.{lookup, same_code, boundary_at}
use patch_seq.Vim.Modes.Insert.{handle_insert, insert_char, insert_backspace}
use patch_seq.Vim.Session.{apply, apply_all, by_mode, press, press_all}
use patch_seq.Vim.Steps.{press_lem, press_all_lem}

-- The text does not start inside a character.
abbrev pub starts_char : List ℕ → Bool
starts_char [] = true
starts_char (b ∷ rest) = ltb b 128 || leb 192 b

byte_at_append : (before after : List ℕ) (b : ℕ) → byte (before ++ b ∷ after) (length before) ≡ b
byte_at_append [] after b = refl
byte_at_append (x ∷ before) after b = byte_at_append before after b

-- Between two parts there is a character boundary where the second starts with a character.
pub boundary_between :
    (before after : List ℕ)
    → starts_char after ≡ true
    → is_char_boundary (before ++ after) (length before) ≡ true
unfolding is_char_boundary
boundary_between before [] s = ground (arith, length-append before [])
boundary_between before (b ∷ after) s =
    ground (arith, length-append before (b ∷ after), byte_at_append before after b)

pub len_utf8-encode : (c : ℕ) → len_utf8 c ≡ length (encode c)
unfolding len_utf8 encode
len_utf8-encode c = ground arith

pub insert_between :
    (before after inserted : List ℕ)
    → starts_char after ≡ true
    → insert_str (before ++ after) (length before) inserted ≡ some (before ++ inserted ++ after)
unfolding insert_str
insert_between before after inserted s =
    rw
      (
        boundary_between before after s,
        take_length-append before after,
        drop_length-append before after,
      )
      refl

abbrev pub encode_all : List ℕ → List ℕ
encode_all [] = []
encode_all (c ∷ cs) = encode c ++ encode_all cs

-- The editor in Insert mode behind `before`.
abbrev pub typing : VimLineEditor → List ℕ → VimLineEditor
typing ed before = record ed { mode = insert; cursor = length before }

and_false : (b : Bool) → (b && false) ≡ false
and_false true = refl
and_false false = refl

insert_char_plain :
    (ed : VimLineEditor) (c : ℕ)
    → insert_char ed false false c
      ≡ some (
        record ed { cursor = ed.cursor + len_utf8 c },
        edited (TextEdit.insert ed.cursor (encode c)),
      )
unfolding insert_char
insert_char_plain ed c = rw (and_false (c == b'c')) refl

insert-plain :
    (ed : VimLineEditor) (text : List ℕ) (c : ℕ)
    → by_mode (record ed { mode = insert }) (plain c) text
      ≡ insert_char (record ed { mode = insert }) false false c
unfolding by_mode handle_insert lookup same_code
insert-plain ed text c = refl

pub type_one :
    (ed : VimLineEditor) (before after : List ℕ) (c : ℕ)
    → starts_char after ≡ true
    → press (typing ed before) (before ++ after) (plain c)
      ≡ some (typing ed (before ++ encode c), before ++ encode c ++ after)
unfolding apply_all apply
type_one ed before after c s =
    let size : length before + len_utf8 c ≡ length (before ++ encode c) =
      omega (arith, length-append before (encode c), len_utf8-encode c) in
    press_lem (typing ed before) (typing ed (before ++ encode c)) (before ++ after)
      (before ++ encode c ++ after) (plain c) (edited (TextEdit.insert (length before) (encode c)))
      (omega (arith, length-append before after))
      (insert-plain (typing ed before) (before ++ after) c
        ∙ insert_char_plain (typing ed before) c
        ∙ ap
            (λ n. some (
              record (typing ed before) { cursor = n },
              edited (TextEdit.insert (length before) (encode c)),
            ))
            size)
      (insert_between before after (encode c) s)

-- Typing characters in Insert mode puts them, encoded in UTF-8, where the cursor is, and the cursor
-- behind them. The text before and after the cursor is any, as long as the cursor is not inside a
-- character, and the characters are any.
pub type_all_lem :
    (ed : VimLineEditor) (before after : List ℕ) (cs : List ℕ)
    → starts_char after ≡ true
    → press_all (typing ed before) (before ++ after) (map plain cs)
      ≡ some (typing ed (before ++ encode_all cs), before ++ encode_all cs ++ after)
unfolding press_all
type_all_lem ed before after [] s = rw (append-nil before) refl
type_all_lem ed before after (c ∷ cs) s =
    press_all_lem (typing ed before) (typing ed (before ++ encode c)) (before ++ after)
      (before ++ encode c ++ after) (plain c) (map plain cs) (type_one ed before after c s)
    ∙ type_all_lem ed (before ++ encode c) after cs s
    ∙ ap (λ text. some (typing ed text, text ++ after))
        (append_assoc before (encode c) (encode_all cs))
