-- ===== src/Machine/Samples.antt =====
-- Machines that the tests run on.
use patch_seq.Base.{
  ℕ, ◌+◌, ◌*◌, ◌<◌, ◌≡◌, refl, List, true, false, Option, none, some, [], ◌∷◌, arith, ◌==◌,
  if◌then◌else◌,
}
use patch_seq.Word.{is_inline, is_tagged_int, untag_int}
use patch_seq.Value.{Value, int, string}
use patch_seq.Machine.{Heap, Machine}
use patch_seq.Machine.Owns.{decode}
use patch_seq.Machine.Arc.{Allocator}
use patch_seq.Stack.Represents.{Represents}

abbrev pub unshared : ℕ → ℕ
unshared a = 0

-- A bump allocator with room for two boxes.
abbrev pub first_free : Heap → Option ℕ
first_free h = elim (h 8) [
  | none ↦ some 8
  | some _ ↦ elim (h 16) [ none ↦ some 16 | some _ ↦ none ]
]

pub first_free-free : (h : Heap) (a : ℕ) → first_free h ≡ some a → h a ≡ none
first_free-free h a e = ground arith

pub first_free-aligned : (h : Heap) (a : ℕ) → first_free h ≡ some a → is_inline a ≡ false
unfolding is_inline is_tagged_int
first_free-aligned h a e = ground arith

abbrev pub two_boxes : Allocator
two_boxes = record {
  malloc = first_free;
  malloc_free = first_free-free;
  malloc_aligned = first_free-aligned;
}

abbrev pub greeting : Value
greeting = string (104 ∷ 105 ∷ [])

-- From slot 5 up: two words for one shared string, the Int 2, and an Int on top.
abbrev pub shared_string : (top : ℕ) → Machine
shared_string top = record {
  slots = λ q.
      if q == 5
      then 8
      else if q == 6
      then 8
      else if q == 7
      then 5
      else if q == 8
      then 2 * top + 1
      else 0;
  heap = λ a. if a == 8 then some (record { value = greeting; strong = 2 }) else none;
  base = 5;
  error = none;
}

-- The Int 2 above two words for the one string.
abbrev pub three : List Value
three = int 2 ∷ greeting ∷ greeting ∷ []

pub three-Represents : (top : ℕ) → Represents unshared (shared_string top) 5 three
unfolding decode is_inline is_tagged_int untag_int
three-Represents top = record {
  counted = λ a na. ground arith;
  positive = λ a c e. ground arith;
  decoded = (refl, (refl, (refl, tt)));
}

pub four-Represents :
    (top : ℕ) → top < 4 → Represents unshared (shared_string top) 5 (int top ∷ three)
unfolding decode is_inline is_tagged_int untag_int
four-Represents top h = record {
  counted = λ a na. ground arith;
  positive = λ a c e. ground arith;
  decoded = (ground arith, (three-Represents top).decoded);
}

-- From slot 4 up: two Ints, given as words.
abbrev pub two_words : (x y : ℕ) → Machine
two_words x y = record {
  slots = λ q. if q == 4 then x else if q == 5 then y else 0;
  heap = λ _. none;
  base = 4;
  error = none;
}

pub two_words-Represents :
    (x y : ℕ) (u v : Value)
    → is_inline x ≡ true
    → is_inline y ≡ true
    → decode (λ _. none) x ≡ some u
    → decode (λ _. none) y ≡ some v
    → Represents unshared (two_words x y) 4 (v ∷ u ∷ [])
two_words-Represents x y u v ix iy dx dy = record {
  counted = λ a na. ground arith;
  positive = λ a c e. absurd (ground arith);
  decoded = (dy, (dx, tt));
}
