-- ===== src/Variant/Tests.antt =====
-- The theorems on variants and lists, at concrete stacks.
use patch_seq.Base.{ℕ, Option, none, some, [], ◌∷◌, ◌+◌, ◌*◌, ◌≡◌, refl, arith, ◌==◌, if◌then◌else◌}
use patch_seq.Word.{is_inline, is_tagged_int, untag_int, wrap_i63}
use patch_seq.Value.{Value, Values, int, variant, symbol}
use patch_seq.Value.Fields.{values}
use patch_seq.Machine.{Cell, Heap, Machine}
use patch_seq.Machine.Owns.{decode}
use patch_seq.Machine.Samples.{unshared, two_boxes, first_free}
use patch_seq.Stack.Represents.{Represents, Does}
use patch_seq.Variant.Make.RoundTrip.{make_then_unpack, make_variant-unpack_variant_round_trip}
use patch_seq.Variant.Lists.{list_tag}

abbrev sevens : Values
sevens = values (int 7 ∷ int 8 ∷ [])

abbrev seven_list : Value
seven_list = variant list_tag sevens

-- From slot 4 up: the one word for a list, and two Ints.
abbrev listed : (x y : ℕ) → Machine
listed x y = record {
  slots = λ q. if q == 4 then 8 else if q == 5 then 2 * x + 1 else if q == 6 then 2 * y + 1 else 0;
  heap = λ a. if a == 8 then some (record { value = seven_list; strong = 1 }) else none;
  base = 4;
  error = none;
}

-- From slot 4 up: two Ints and the one word for a symbol.
abbrev tagged : Machine
tagged = record (listed 0 0) {
  slots = λ q. if q == 4 then 15 else if q == 5 then 17 else if q == 6 then 8 else 0;
  heap = λ a. if a == 8 then some (record { value = symbol list_tag; strong = 1 }) else none;
}

tagged-Represents : Represents unshared tagged 4 (symbol list_tag ∷ int 8 ∷ int 7 ∷ [])
unfolding decode is_inline is_tagged_int untag_int
tagged-Represents = record {
  counted = λ a na. ground arith;
  positive = λ a c e. ground arith;
  decoded = (refl, (refl, (refl, tt)));
}

free_box :
    (h : Heap) → h 16 ≡ none → (o : Option Cell) → h 8 ≡ o → (a : ℕ) × (first_free h ≡ some a)
free_box h free none e = (8, rw (e, first_free) refl)
free_box h free (some c) e = (16, rw (e, free, first_free) refl)

make_variant-unpack_variant_round_trip_example :
    Does
      (make_then_unpack 2 two_boxes)
      unshared
      tagged
      4
      (symbol list_tag ∷ int 8 ∷ int 7 ∷ [])
      (int 8 ∷ int 7 ∷ [])
unfolding wrap_i63
make_variant-unpack_variant_round_trip_example =
    make_variant-unpack_variant_round_trip two_boxes unshared tagged 4 list_tag (int 8 ∷ int 7 ∷ [])
      [] (λ h s. free_box h (s 16 refl) (h 8) refl)
      (λ m sp sp' h e s. (tt, (λ m m' sp sp' e run. (tt, (λ m m' sp sp' e run. tt)))))
      tagged-Represents
