-- ===== src/Motions/Brackets.antt =====
-- The bracket motion of crates/vim-line/src/vim/motions.rs. The source goes through characters; a
-- bracket is one byte, and no byte of a longer character is a bracket. Its `i32` depth is a number.
pub mod Search
pub mod Match
use patch_seq.Base.{
  ℕ, zero, suc, ◌+◌, ◌-◌, Option, none, some, List, [], ◌∷◌, leb, ◌==◌, if◌then◌else◌, length,
}
use patch_seq.Motions.{byte, slice}

-- The loop of `find_matching_forward`, with `n` bytes left from `pos`.
unfoldable pub find_from : (opening closing : ℕ) → List ℕ → (depth n pos : ℕ) → Option ℕ
find_from opening closing text depth zero pos = none
find_from opening closing text depth (suc n) pos =
    if byte text pos == opening
    then find_from opening closing text (depth + 1) n (suc pos)
    else if byte text pos == closing
    then if depth - 1 == 0 then some pos else find_from opening closing text (depth - 1) n (suc pos)
    else find_from opening closing text depth n (suc pos)

unfoldable pub find_matching_forward : (cursor : ℕ) → List ℕ → (opening closing : ℕ) → Option ℕ
unfolding find_from
find_matching_forward cursor text opening closing =
    find_from opening closing text 1 (length text - suc cursor) (suc cursor)

-- The loop of `find_matching_backward`, over the bytes before `pos`.
unfoldable pub find_before : (opening closing : ℕ) → List ℕ → (depth pos : ℕ) → Option ℕ
find_before opening closing text depth zero = none
find_before opening closing text depth (suc n) =
    if byte text n == closing
    then find_before opening closing text (depth + 1) n
    else if byte text n == opening
    then if depth - 1 == 0 then some n else find_before opening closing text (depth - 1) n
    else find_before opening closing text depth n

unfoldable pub find_matching_backward : (cursor : ℕ) → List ℕ → (opening closing : ℕ) → Option ℕ
unfolding find_before
find_matching_backward cursor text opening closing = find_before opening closing text 1 cursor

abbrev pub or_stay : ℕ → Option ℕ → ℕ
or_stay cursor none = cursor
or_stay cursor (some pos) = pos

abbrev pub pairs : List (ℕ × ℕ)
pairs = (b'(', b')') ∷ (b'[', b']') ∷ (b'{', b'}') ∷ (b'<', b'>') ∷ []

-- The loop over the pairs.
unfoldable pub match_pairs : (cursor : ℕ) → List ℕ → List (ℕ × ℕ) → ℕ
unfolding find_matching_forward find_matching_backward
match_pairs cursor text [] = cursor
match_pairs cursor text ((opening, closing) ∷ rest) =
    if byte text cursor == opening
    then or_stay cursor (find_matching_forward cursor text opening closing)
    else if byte text cursor == closing
    then or_stay cursor (find_matching_backward cursor text opening closing)
    else match_pairs cursor text rest

unfoldable pub move_to_matching_bracket : (cursor : ℕ) → List ℕ → Option ℕ
unfolding match_pairs
move_to_matching_bracket cursor text =
    if leb (length text) cursor
    then some cursor
    else slice text cursor (some (match_pairs cursor text pairs))
