-- ===== src/Motions/Brackets/Match.antt =====
-- `move_to_matching_bracket` of crates/vim-line/src/vim/motions.rs goes back from where it goes.
use patch_seq.Base.{
  ℕ, suc, ◌-◌, ◌<◌, ◌≡◌, ◌≢◌, refl, sym, ◌∙◌, ap, false, Option, none, some, List, [], ◌∷◌, leb,
  ◌==◌, length, arith, Bool-cases, inl, inr, ◌⊎◌, ==_iff,
}
use patch_seq.Motions.{byte, is_char_boundary}
use patch_seq.Motions.Brackets.{
  find_matching_forward, find_matching_backward, or_stay, pairs, match_pairs,
  move_to_matching_bracket,
}
use patch_seq.Motions.Chars.{ascii_is_boundary, slice_lem, slice_panics}
use patch_seq.Motions.Brackets.Search.{forward-back, back-forward, back_start, ahead_start}

data Pair : Type 0 where
  round square curly angle : Pair

abbrev opening_of : Pair → ℕ
opening_of round = b'('
opening_of square = b'['
opening_of curly = b'{'
opening_of angle = b'<'

abbrev closing_of : Pair → ℕ
closing_of round = b')'
closing_of square = b']'
closing_of curly = b'}'
closing_of angle = b'>'

distinct : (p : Pair) → opening_of p ≢ closing_of p
distinct round e = absurd (omega (arith, e))
distinct square e = absurd (omega (arith, e))
distinct curly e = absurd (omega (arith, e))
distinct angle e = absurd (omega (arith, e))

at_opening :
    (p : Pair) (c : ℕ) (text : List ℕ)
    → byte text c ≡ opening_of p
    → match_pairs c text pairs
      ≡ or_stay c (find_matching_forward c text (opening_of p) (closing_of p))
unfolding match_pairs
at_opening round c text e = rw e refl
at_opening square c text e = rw e refl
at_opening curly c text e = rw e refl
at_opening angle c text e = rw e refl

at_closing :
    (p : Pair) (c : ℕ) (text : List ℕ)
    → byte text c ≡ closing_of p
    → match_pairs c text pairs
      ≡ or_stay c (find_matching_backward c text (opening_of p) (closing_of p))
unfolding match_pairs
at_closing round c text e = rw e refl
at_closing square c text e = rw e refl
at_closing curly c text e = rw e refl
at_closing angle c text e = rw e refl

IsBracket : ℕ → Type 0
IsBracket b = (p : Pair) × ((b ≡ opening_of p) ⊎ (b ≡ closing_of p))

-- A step of the loop over the pairs.
in_pair_or_rest :
    (c q : ℕ) (text : List ℕ) (p : Pair) (rest : List (ℕ × ℕ))
    → (match_pairs c text rest ≡ q → IsBracket (byte text c))
    → match_pairs c text ((opening_of p, closing_of p) ∷ rest) ≡ q
    → IsBracket (byte text c)
unfolding match_pairs IsBracket
in_pair_or_rest c q text p rest next e = elim (Bool-cases (byte text c == opening_of p)) [
  | inl o ↦ (p, inl ((==_iff _ _).0 o))
  | inr o ↦ elim (Bool-cases (byte text c == closing_of p)) [
    | inl k ↦ (p, inr ((==_iff _ _).0 k))
    | inr k ↦ next (rw (o, k) at e)
  ]
]

nowhere : (c q : ℕ) (text : List ℕ) → match_pairs c text [] ≡ q → c ≡ q
unfolding match_pairs
nowhere c q text h = h

moves_only_there :
    (c q : ℕ) (text : List ℕ) → match_pairs c text pairs ≡ q → q ≢ c → IsBracket (byte text c)
moves_only_there c q text e ne =
    in_pair_or_rest c q text round _
      (in_pair_or_rest c q text square _ (
        in_pair_or_rest c q text curly _
          (in_pair_or_rest c q text angle [] (λ h. absurd (ne (sym (nowhere c q text h)))))))
      e

found : (c q : ℕ) (o : Option ℕ) → or_stay c o ≡ q → q ≢ c → o ≡ some q
found c q none e ne = absurd (ne (sym e))
found c q (some r) e ne = ap some e

-- The positions agree, and from the second the loop goes back to the first.
Returns : (c q : ℕ) → List ℕ → Type 0
Returns c q text = IsBracket (byte text q) × (q < length text) × (match_pairs q text pairs ≡ c)

from_opening :
    (c q : ℕ) (text : List ℕ) (p : Pair)
    → c < length text
    → byte text c ≡ opening_of p
    → find_matching_forward c text (opening_of p) (closing_of p) ≡ some q
    → Returns c q text
unfolding Returns IsBracket find_matching_forward
from_opening c q text p h b e =
    let (k, l, u, back) =
      forward-back (opening_of p) (closing_of p) text c (distinct p) 1 (length text - suc c) (suc c)
        q (omega arith) e (back_start (opening_of p) (closing_of p) text c (distinct p) b) in
    let back_here : or_stay q (find_matching_backward q text (opening_of p) (closing_of p)) ≡ c =
      unfold find_matching_backward in (rw back refl) in
    ((p, inr k), omega (arith, u, h), at_closing p q text k ∙ back_here)

from_closing :
    (c q : ℕ) (text : List ℕ) (p : Pair)
    → c < length text
    → byte text c ≡ closing_of p
    → find_matching_backward c text (opening_of p) (closing_of p) ≡ some q
    → Returns c q text
unfolding Returns IsBracket find_matching_backward
from_closing c q text p h b e =
    let (o, u, (k, s, ahead)) =
      back-forward (opening_of p) (closing_of p) text c (distinct p) 1 (suc (length text - suc c)) c
        q (omega arith) e (ahead_start (opening_of p) (closing_of p) text c (distinct p) _ b) in
    let left : k ≡ length text - suc q = omega (arith, s, h, u) in
    let ahead_here : or_stay q (find_matching_forward q text (opening_of p) (closing_of p)) ≡ c =
      unfold find_matching_forward in (rw (rw left at ahead) refl) in
    ((p, inl o), omega (arith, u, h), at_opening p q text o ∙ ahead_here)

returns :
    (c q : ℕ) (text : List ℕ)
    → c < length text
    → match_pairs c text pairs ≡ q
    → q ≢ c
    → Returns c q text
unfolding IsBracket
returns c q text h e ne =
    let (p, side) = moves_only_there c q text e ne in
    elim side [
      | inl o ↦ from_opening c q text p h o (found c q _ (sym (at_opening p c text o) ∙ e) ne)
      | inr k ↦ from_closing c q text p h k (found c q _ (sym (at_closing p c text k) ∙ e) ne)
    ]

bracket_is_ascii : (b : ℕ) → IsBracket b → b < 128
unfolding IsBracket
bracket_is_ascii b (p, side) = elim side [
  | inl o ↦ omega (arith, o, (small p).0)
  | inr k ↦ omega (arith, k, (small p).1)
]
  where
    small : (p : Pair) → (opening_of p < 128) × (closing_of p < 128)
    small round = (omega arith, omega arith)
    small square = (omega arith, omega arith)
    small curly = (omega arith, omega arith)
    small angle = (omega arith, omega arith)

-- If `move_to_matching_bracket` moves the cursor, it moves it to a bracket inside the text, from where
-- it moves it back.
pub bracket_round_trip :
    (c q : ℕ) (text : List ℕ)
    → c < length text
    → move_to_matching_bracket c text ≡ some q
    → q ≢ c
    → (q < length text) × (move_to_matching_bracket q text ≡ some c)
unfolding move_to_matching_bracket Returns
bracket_round_trip c q text h e ne =
    let out : leb (length text) c ≡ false = ground arith in
    elim (Bool-cases (is_char_boundary text c)) [
      | inr off ↦
          absurd (cc (rw out at e, slice_panics text c (some (match_pairs c text pairs)) off))
      | inl at_c ↦
          let to_q : match_pairs c text pairs ≡ q =
            cc (rw out at e, slice_lem text c (some (match_pairs c text pairs)) at_c) in
          let (b, l, back) = returns c q text h to_q ne in
          let out_q : leb (length text) q ≡ false = ground arith in
          let at_q = ascii_is_boundary text q l (bracket_is_ascii _ b) in
          (l, rw (out_q, slice_lem text q _ at_q, back) refl)
    ]
