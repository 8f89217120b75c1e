-- ===== src/Word/Laws.antt =====
-- Round trips of the tagged encoding of crates/core/src/tagged_stack.rs.
use patch_seq.Base.{ℕ, ◌<◌, ◌≡◌, true, not, arith, ◌==◌}
use patch_seq.Word.{
  u64_mod, is_tagged_int, is_tagged_heap, tag_int, untag_int, is_inline, fits_in_i63, wrap_i63,
}

-- A word of the stack is a heap pointer exactly when it is neither an Int nor a Bool.
pub is_tagged_heap-is_inline : (w : ℕ) → is_tagged_heap w ≡ not (is_inline w)
unfolding is_tagged_heap is_inline
is_tagged_heap-is_inline w = ground arith

pub is_tagged_int-tag_int : (v : ℕ) → is_tagged_int (tag_int v) ≡ true
unfolding is_tagged_int tag_int
is_tagged_int-tag_int v = ground arith

pub tag_int-lt : (v : ℕ) → tag_int v < u64_mod
unfolding tag_int
tag_int-lt v = omega arith

-- An `i64` read back from a slot is the written one with bit 62 copied over bit 63.
pub untag_int-tag_int : (v : ℕ) → untag_int (tag_int v) ≡ wrap_i63 v
unfolding untag_int tag_int wrap_i63
untag_int-tag_int v = ground arith

-- An `i64` comes back from a slot unchanged exactly when it lies in the 63-bit range.
pub untag_int-tag_int_iff : (v : ℕ) → v < u64_mod → (untag_int (tag_int v) == v) ≡ fits_in_i63 v
unfolding untag_int tag_int fits_in_i63
untag_int-tag_int_iff v h = ground arith

-- A word that is an Int is the encoding of the integer that it decodes to.
pub tag_int-untag_int : (w : ℕ) → w < u64_mod → is_tagged_int w ≡ true → tag_int (untag_int w) ≡ w
unfolding untag_int tag_int is_tagged_int
tag_int-untag_int w h t = ground arith

pub wrap_i63_of_fits : (v : ℕ) → v < u64_mod → fits_in_i63 v ≡ true → wrap_i63 v ≡ v
unfolding wrap_i63 fits_in_i63
wrap_i63_of_fits v h f = ground arith
