-- ===== src/Arithmetic/Tests.antt =====
-- The theorems on the integer operations, at concrete operands.
use patch_seq.Base.{ℕ, ◌+◌, ◌-◌, ◌*◌, ◌^◌, ◌%◌, ◌<◌, ◌≡◌, refl, true, [], ◌∷◌, arith, inr}
use patch_seq.Base.Int.{◌+ℤ◌, ◌-ℤ◌, ◌*ℤ◌}
use patch_seq.Word.{u64_mod, is_inline, is_tagged_int, untag_int, fits_in_i63, to_ℤ}
use patch_seq.Value.{int, bool}
use patch_seq.Machine.{Machine}
use patch_seq.Machine.Owns.{decode}
use patch_seq.Machine.Samples.{unshared, two_boxes, two_words, two_words-Represents}
use patch_seq.Stack.Represents.{Represents, Does}
use patch_seq.Arithmetic.Words.{magnitude, is_negative}
use patch_seq.Arithmetic.Signed.{IsInt, signed}
use patch_seq.Arithmetic.Arith.{add, subtract, divide, modulo}
use patch_seq.Arithmetic.Arith.Exact.{LeavesInt, turn, add-subtract-exact}
use patch_seq.Arithmetic.Arith.Division.{divide-modulo_exact}

abbrev minus_seven : ℕ
minus_seven = u64_mod - 7

-- The words of -7 below 3, of -7 below 0, of 2 ^ 60 + 1 below 4, and of true below 7.
abbrev sevens : Machine
sevens = two_words (u64_mod - 13) 7

abbrev by_zero : Machine
by_zero = two_words (u64_mod - 13) 1

abbrev large : Machine
large = two_words (2 ^ 61 + 3) 9

abbrev flag_below : Machine
flag_below = two_words 2 15

sevens-Represents : Represents unshared sevens 4 (int 3 ∷ int minus_seven ∷ [])
unfolding decode is_inline is_tagged_int untag_int
sevens-Represents = two_words-Represents _ _ (int minus_seven) (int 3) refl refl refl refl

by_zero-Represents : Represents unshared by_zero 4 (int 0 ∷ int minus_seven ∷ [])
unfolding decode is_inline is_tagged_int untag_int
by_zero-Represents = two_words-Represents _ _ (int minus_seven) (int 0) refl refl refl refl

large-Represents : Represents unshared large 4 (int 4 ∷ int (2 ^ 60 + 1) ∷ [])
unfolding decode is_inline is_tagged_int untag_int
large-Represents = two_words-Represents _ _ (int (2 ^ 60 + 1)) (int 4) refl refl refl refl

flag_below-Represents : Represents unshared flag_below 4 (int 7 ∷ bool true ∷ [])
unfolding decode is_inline is_tagged_int untag_int
flag_below-Represents = two_words-Represents _ _ (bool true) (int 7) refl refl refl refl

three-IsInt : IsInt 3
unfolding fits_in_i63
three-IsInt = (omega arith, refl)

minus_seven-IsInt : IsInt minus_seven
unfolding fits_in_i63
minus_seven-IsInt = (omega arith, refl)

add-subtract-exact_example :
    LeavesInt (add two_boxes) unshared sevens 4 minus_seven 3 [] (turn (to_ℤ minus_seven +ℤ to_ℤ 3))
    × LeavesInt
        (subtract two_boxes)
        unshared
        sevens
        4
        minus_seven
        3
        []
        (turn (to_ℤ minus_seven -ℤ to_ℤ 3))
add-subtract-exact_example =
    add-subtract-exact two_boxes unshared sevens 4 minus_seven 3 [] minus_seven-IsInt three-IsInt
      sevens-Represents

seven_thirds : magnitude minus_seven * magnitude 3 < 2 ^ 62
unfolding magnitude
seven_thirds = omega arith

seven_shifted : magnitude minus_seven * 2 ^ 3 < 2 ^ 62
unfolding magnitude
seven_shifted = omega arith

flag-Represents : Represents unshared flag_below 4 (bool true ∷ [])
flag-Represents = record {
  counted = λ a na. ground (arith, flag_below-Represents.counted a na);
  positive = flag_below-Represents.positive;
  decoded = flag_below-Represents.decoded.1;
}

divide-modulo_exact_example :
    (q r : ℕ) × Does
      (divide two_boxes)
      unshared
      sevens
      4
      (int 3 ∷ int minus_seven ∷ [])
      (bool true ∷ int q ∷ [])
    × Does
        (modulo two_boxes)
        unshared
        sevens
        4
        (int 3 ∷ int minus_seven ∷ [])
        (bool true ∷ int r ∷ [])
    × (to_ℤ minus_seven ≡ to_ℤ q *ℤ to_ℤ 3 +ℤ to_ℤ r)
    × (to_ℤ r ≡ signed (is_negative minus_seven) (magnitude minus_seven % magnitude 3))
    × (magnitude minus_seven % magnitude 3 < magnitude 3)
divide-modulo_exact_example =
    divide-modulo_exact two_boxes unshared sevens 4 minus_seven 3 [] minus_seven-IsInt three-IsInt
      (omega arith) (inr (omega arith)) sevens-Represents

-- The word of -7 alone.
minus_seven-Represents : Represents unshared sevens 4 (int minus_seven ∷ [])
minus_seven-Represents = record {
  counted = λ a na. ground (arith, sevens-Represents.counted a na);
  positive = sevens-Represents.positive;
  decoded = sevens-Represents.decoded.1;
}
