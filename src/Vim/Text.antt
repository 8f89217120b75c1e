-- ===== src/Vim/Text.antt =====
-- The parts of Rust's `str` that crates/vim-line uses: slices, edits of a `String` and characters.
pub mod Ascii
use patch_seq.Base.{
  ℕ, ◌+◌, ◌-◌, ◌/◌, ◌%◌, Bool, ◌&&◌, Option, none, some, List, [], ◌∷◌, ◌++◌, ltb, leb,
  if◌then◌else◌, take, drop,
}
use patch_seq.Motions.{is_char_boundary}

-- Whether `text[start..end]` does not panic.
unfoldable pub is_range : List ℕ → (start end : ℕ) → Bool
unfolding is_char_boundary
is_range text start end =
    leb start end && (is_char_boundary text start && is_char_boundary text end)

abbrev pub part : List ℕ → (start end : ℕ) → List ℕ
part text start end = take (end - start) (drop start text)

-- `text[start..end]`
unfoldable pub range : List ℕ → (start end : ℕ) → Option (List ℕ)
unfolding is_range
range text start end = if is_range text start end then some (part text start end) else none

-- `text.replace_range(start..end, "")`
unfoldable pub remove_range : List ℕ → (start end : ℕ) → Option (List ℕ)
unfolding is_range
remove_range text start end =
    if is_range text start end then some (take start text ++ drop end text) else none

-- `text.insert_str(pos, inserted)`
unfoldable pub insert_str : List ℕ → ℕ → List ℕ → Option (List ℕ)
unfolding is_char_boundary
insert_str text pos inserted =
    if is_char_boundary text pos then some (take pos text ++ inserted ++ drop pos text) else none

-- `char::to_string`
unfoldable pub encode : ℕ → List ℕ
encode c =
    if ltb c 128
    then c ∷ []
    else if ltb c 2048
    then (192 + c / 64) ∷ (128 + c % 64) ∷ []
    else if ltb c 65536
    then (224 + c / 4096) ∷ (128 + c / 64 % 64) ∷ (128 + c % 64) ∷ []
    else (240 + c / 262144) ∷ (128 + c / 4096 % 64) ∷ (128 + c / 64 % 64) ∷ (128 + c % 64) ∷ []

-- `char::len_utf8`
unfoldable pub len_utf8 : ℕ → ℕ
len_utf8 c = if ltb c 128 then 1 else if ltb c 2048 then 2 else if ltb c 65536 then 3 else 4
