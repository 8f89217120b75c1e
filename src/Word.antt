-- ===== src/Word.antt =====
-- The 8-byte tagged encoding of crates/core/src/tagged_stack.rs. A `u64` is a number below 2 ^ 64
-- and an `i64` is the `u64` with the same bits; `to_ℤ` is the integer that it stands for.
pub mod Laws
use patch_seq.Base.{
  ℕ, ◌+◌, ◌-◌, ◌*◌, ◌/◌, ◌%◌, ◌^◌, Bool, true, false, ◌&&◌, ◌||◌, ltb, leb, ◌==◌, if◌then◌else◌,
}
use patch_seq.Base.Int.{ℤ, pos, negsuc}

abbrev pub u64_mod : ℕ
u64_mod = 2 ^ 64

abbrev pub i64_min : ℕ
i64_min = 2 ^ 63

abbrev pub tag_false : ℕ
tag_false = 0

abbrev pub tag_true : ℕ
tag_true = 2

-- `tagged & 1 != 0`
unfoldable pub is_tagged_int : ℕ → Bool
is_tagged_int tagged = tagged % 2 == 1

-- `tagged & 1 == 0 && tagged > TAG_TRUE`
unfoldable pub is_tagged_heap : ℕ → Bool
is_tagged_heap tagged = tagged % 2 == 0 && ltb tag_true tagged

-- `((value as u64) << 1) | 1`: the shift drops bit 63 and leaves bit 0 clear.
unfoldable pub tag_int : ℕ → ℕ
tag_int value = (value * 2) % u64_mod + 1

-- `(tagged as i64) >> 1`, which copies the sign bit.
unfoldable pub untag_int : ℕ → ℕ
untag_int tagged = tagged / 2 + (if leb i64_min tagged then i64_min else 0)

-- An Int or a Bool, kept in the slot itself (`is_inline` of stack.rs).
unfoldable pub is_inline : ℕ → Bool
unfolding is_tagged_int
is_inline sv = is_tagged_int sv || sv == tag_false || sv == tag_true

-- The integer that the bits of an `i64` stand for.
unfoldable pub to_ℤ : ℕ → ℤ
to_ℤ w = if ltb w i64_min then pos w else negsuc (u64_mod - 1 - w)

-- `v` is in the range -(2 ^ 62) to 2 ^ 62 - 1 of the language's Int.
unfoldable pub fits_in_i63 : ℕ → Bool
fits_in_i63 v = ltb v (2 ^ 62) || leb (u64_mod - 2 ^ 62) v

-- The `i64` that a slot gives back for `v`: bit 62 copied over bit 63.
unfoldable pub wrap_i63 : ℕ → ℕ
wrap_i63 v = if ltb (v % 2 ^ 63) (2 ^ 62) then v % 2 ^ 63 else v % 2 ^ 63 + 2 ^ 63
