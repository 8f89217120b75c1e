-- ===== src/Vim/Text/Ascii.antt =====
-- Slices and edits of a text in ASCII do not panic within its length.
use patch_seq.Base.{
  ℕ, zero, suc, ◌-◌, ◌<◌, ◌≤◌, ◌≡◌, refl, true, Option, some, List, [], ◌∷◌, ◌++◌, leb, length,
  take, drop, arith, order-cases, inl, inr,
}
use patch_seq.Motions.{byte, is_char_boundary, slice}
use patch_seq.Motions.Chars.{ascii_is_boundary, slice_lem}
use patch_seq.Vim.Text.{is_range, part, range, remove_range, insert_str, encode, len_utf8}

abbrev pub IsAscii : List ℕ → Type 0
IsAscii [] = Unit {0}
IsAscii (b ∷ text) = (b < 128) × IsAscii text

ascii_byte : (text : List ℕ) (i : ℕ) → IsAscii text → byte text i < 128
ascii_byte [] i a = omega arith
ascii_byte (b ∷ text) zero a = a.0
ascii_byte (b ∷ text) (suc i) a = ascii_byte text i a.1

pub IsAscii-append : (text more : List ℕ) → IsAscii text → IsAscii more → IsAscii (text ++ more)
IsAscii-append [] more a m = m
IsAscii-append (b ∷ text) more a m = (a.0, IsAscii-append text more a.1 m)

pub IsAscii-take : (n : ℕ) (text : List ℕ) → IsAscii text → IsAscii (take n text)
IsAscii-take zero text a = tt
IsAscii-take (suc n) [] a = tt
IsAscii-take (suc n) (b ∷ text) a = (a.0, IsAscii-take n text a.1)

pub IsAscii-drop : (n : ℕ) (text : List ℕ) → IsAscii text → IsAscii (drop n text)
IsAscii-drop zero text a = a
IsAscii-drop (suc n) [] a = tt
IsAscii-drop (suc n) (b ∷ text) a = IsAscii-drop n text a.1

pub ascii_boundary :
    (text : List ℕ) (i : ℕ) → IsAscii text → i ≤ length text → is_char_boundary text i ≡ true
unfolding is_char_boundary
ascii_boundary text i a h = elim (order-cases i (length text)) [
  | inl lt ↦ ascii_is_boundary text i lt (ascii_byte text i a)
  | inr (inl e) ↦ ground arith
  | inr (inr gt) ↦ absurd (omega arith)
]

pub ascii_slice :
    {A : Type 0} (text : List ℕ) (i : ℕ) (o : Option A)
    → IsAscii text
    → i ≤ length text
    → slice text i o ≡ o
ascii_slice text i o a h = slice_lem text i o (ascii_boundary text i a h)

module _ (text : List ℕ) (start stop : ℕ) (a : IsAscii text) (le : start ≤ stop)
    (within : stop ≤ length text) where
  ascii_is_range : is_range text start stop ≡ true
  unfolding is_range
  ascii_is_range =
      let ordered : leb start stop ≡ true = ground arith in
      rw
        (
          ordered,
          ascii_boundary text start a (omega (arith, le, within)),
          ascii_boundary text stop a within,
        )
        refl

  pub ascii_range : range text start stop ≡ some (part text start stop)
  unfolding range
  ascii_range = rw ascii_is_range refl

  pub ascii_remove : remove_range text start stop ≡ some (take start text ++ drop stop text)
  unfolding remove_range
  ascii_remove = rw ascii_is_range refl

  pub IsAscii-part : IsAscii (part text start stop)
  IsAscii-part = IsAscii-take (stop - start) (drop start text) (IsAscii-drop start text a)

pub ascii_insert :
    (text : List ℕ) (pos : ℕ) (inserted : List ℕ)
    → IsAscii text
    → pos ≤ length text
    → insert_str text pos inserted ≡ some (take pos text ++ inserted ++ drop pos text)
unfolding insert_str
ascii_insert text pos inserted a h = rw (ascii_boundary text pos a h) refl

pub ascii_encode : (c : ℕ) → c < 128 → encode c ≡ c ∷ []
unfolding encode
ascii_encode c h = ground arith

pub ascii_len : (c : ℕ) → c < 128 → len_utf8 c ≡ 1
unfolding len_utf8
ascii_len c h = ground arith
