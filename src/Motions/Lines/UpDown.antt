-- ===== src/Motions/Lines/UpDown.antt =====
-- `move_up` and `move_down` of crates/vim-line/src/vim/motions.rs.
use patch_seq.Base.{
  ℕ, zero, suc, ◌+◌, ◌-◌, ◌<◌, ◌≤◌, ◌≡◌, refl, sym, ap, Bool, true, false, some, List, leb, ◌==◌,
  length, arith, min, Bool-cases, inl, inr, order-cases, ==_iff,
}
use native.Mathlib.Decide.{ℕ_discrete as dec_eq}
use patch_seq.Motions.{
  byte, is_char_boundary, rfind_newline, find_newline, or_end, line_start_of, line_end_of,
}
use patch_seq.Motions.Chars.{ascii_is_boundary, slice_lem}
use patch_seq.Motions.Lines.{move_up, move_down, down_from}

abbrev newline_at : List ℕ → ℕ → Bool
newline_at text i = byte text i == b'\n'

-- `s` is the start of the line of `c`.
pub record LineStart (text : List ℕ) (c s : ℕ) : Type 0 where
  pub most : s ≤ c
  pub line : (i : ℕ) → s ≤ i → i < c → newline_at text i ≡ false
  pub first : (i : ℕ) → suc i ≡ s → newline_at text i ≡ true

pub line_start_lem : (text : List ℕ) (c : ℕ) → LineStart text c (line_start_of text c)
unfolding rfind_newline
line_start_lem text zero = record {
  most = omega arith;
  line = λ i p q. absurd (omega (arith, q));
  first = λ i p. absurd (omega (arith, p));
}
line_start_lem text (suc n) = elim (Bool-cases (newline_at text n)) [
  | inl t ↦ rw t (record {
    most = omega arith;
    line = λ i p q. absurd (omega (arith, p, q));
    first = λ i p. let e : i ≡ n = omega (arith, p) in rw e t;
  })
  | inr f ↦
      let rest = line_start_lem text n in
      rw f (record {
        most = omega (arith, rest.most);
        line = λ i p q. elim (dec_eq n i) [
          | yes e ↦ rw e at f
          | no ne ↦ rest.line i p (omega (arith, q, ne))
        ];
        first = rest.first;
      })
]

LineStart-unique : (text : List ℕ) (c s t : ℕ) → LineStart text c s → LineStart text c t → s ≡ t
LineStart-unique text c s t a b = elim (order-cases s t) [
  | inl lt ↦ absurd (apart s t a b lt)
  | inr (inl e) ↦ e
  | inr (inr gt) ↦ absurd (apart t s b a gt)
]
  where
    apart : (s t : ℕ) → LineStart text c s → LineStart text c t → s < t → ⊥
    apart s t a b lt = cc (
      a.line (t - 1) (omega (arith, lt)) (omega (arith, lt, b.most)),
      b.first (t - 1) (omega (arith, lt)),
    )

-- The first newline, if it is known where it is.
find_newline_at :
    (text : List ℕ) (n c e : ℕ)
    → c ≤ e
    → e < c + n
    → newline_at text e ≡ true
    → ((i : ℕ) → c ≤ i → i < e → newline_at text i ≡ false)
    → find_newline text n c ≡ some e
unfolding find_newline
find_newline_at text zero c e l u t h = absurd (omega (arith, l, u))
find_newline_at text (suc n) c e l u t h = elim (dec_eq c e) [
  | yes same ↦ rw (rw (sym same) at t) (ap some same)
  | no ne ↦
      let f = h c (omega arith) (omega (arith, l, ne)) in
      rw f (
        find_newline_at text n (suc c) e (omega (arith, l, ne)) (omega (arith, u)) t
          (λ i p q. h i (omega (arith, p)) q))
]

-- A line goes on as far as there is no newline.
line_end_above :
    (text : List ℕ) (n s c : ℕ)
    → s + n ≡ length text
    → c ≤ length text
    → ((i : ℕ) → s ≤ i → i < c → newline_at text i ≡ false)
    → c ≤ or_end text (find_newline text n s)
unfolding find_newline
line_end_above text zero s c e u h = u
line_end_above text (suc n) s c e u h = elim (Bool-cases (newline_at text s)) [
  | inl t ↦ elim (order-cases s c) [
    | inl lt ↦ absurd (cc (h s (omega arith) lt, t))
    | inr ge ↦ rw t (omega (arith, ge))
  ]
  | inr f ↦
      rw f
        (line_end_above text n (suc s) c (omega (arith, e)) u (λ i p q. h i (omega (arith, p)) q))
]

module _ (text : List ℕ) (c s p : ℕ) (within : c ≤ length text)
    (at_c : is_char_boundary text c ≡ true) (line : LineStart text c s) (up : 0 < s)
    (above : LineStart text (s - 1) p) (long : c - s ≤ s - 1 - p) where
  newline_above : newline_at text (s - 1) ≡ true
  newline_above = line.first (s - 1) (omega (arith, up))

  move_up_lem : move_up c text ≡ some (p + (c - s))
  unfolding move_up
  move_up_lem =
      let at_s : line_start_of text c ≡ s =
        LineStart-unique text c _ s (line_start_lem text c) line in
      let at_p : line_start_of text (s - 1) ≡ p =
        LineStart-unique text (s - 1) _ p (line_start_lem text (s - 1)) above in
      let not_first : (s == 0) ≡ false = ground arith in
      let newline : byte text (s - 1) ≡ b'\n' = (==_iff _ _).0 newline_above in
      let at_end =
        ascii_is_boundary text (s - 1) (omega (arith, up, line.most, within))
          (omega (arith, newline)) in
      let col : min (c - s) (s - 1 - p) ≡ c - s = omega (arith, long) in
      rw (slice_lem text c _ at_c, at_s, not_first, slice_lem text (s - 1) _ at_end, at_p, col) refl

  -- The position that `move_up` goes to.
  abbrev target : ℕ
  target = p + (c - s)

  target_line : LineStart text target p
  target_line = record {
    most = omega arith;
    line = λ i q q'. above.line i q (omega (arith, q', long, above.most));
    first = above.first;
  }

  newline_below : find_newline text (length text - target) target ≡ some (s - 1)
  newline_below =
      find_newline_at text _ target (s - 1) (omega (arith, long, above.most))
        (omega (arith, up, line.most, within, long, above.most)) newline_above
        (λ i q q'. above.line i (omega (arith, q)) q')

  down_lem : is_char_boundary text s ≡ true → down_from (c - s) (s - 1) text ≡ some c
  unfolding down_from
  down_lem at_s =
      let next : s - 1 + 1 ≡ s = omega (arith, up) in
      let back : s + (c - s) ≡ c = omega (arith, line.most) in
      elim (Bool-cases (leb (length text) s)) [
        | inl out ↦
            let at_end : length text ≡ c = ground (arith, line.most, within) in
            rw (next, out, at_end) refl
        | inr ins ↦
            let reach =
              line_end_above text (length text - s) s c (ground (arith, ins)) within line.line in
            let col : min (c - s) (line_end_of text s - s) ≡ c - s = omega (arith, reach) in
            rw (next, ins, slice_lem text s _ at_s, col, back) refl
      ]

  move_down_lem :
      is_char_boundary text s ≡ true
      → is_char_boundary text target ≡ true
      → move_down target text ≡ some c
  unfolding move_down
  move_down_lem at_s at_target =
      let start : line_start_of text target ≡ p =
        LineStart-unique text target _ p (line_start_lem text target) target_line in
      let col : p + (c - s) - p ≡ c - s = omega arith in
      rw (slice_lem text target _ at_target, newline_below, start, col) (down_lem at_s)

-- From a cursor on a line that is not the first, with a line above it that has the cursor's column,
-- `move_up` goes to that column and `move_down` goes back from there, if the cursor, the start of its
-- line and that column are between characters.
pub up_down_round_trip :
    (text : List ℕ) (c s p : ℕ)
    → c ≤ length text
    → LineStart text c s
    → 0 < s
    → LineStart text (s - 1) p
    → c - s ≤ s - 1 - p
    → is_char_boundary text c ≡ true
    → is_char_boundary text s ≡ true
    → is_char_boundary text (p + (c - s)) ≡ true
    → (move_up c text ≡ some (p + (c - s))) × (move_down (p + (c - s)) text ≡ some c)
up_down_round_trip text c s p within line up above long at_c at_s at_target = (
  move_up_lem text c s p within at_c line up above long,
  move_down_lem text c s p within at_c line up above long at_s at_target,
)
