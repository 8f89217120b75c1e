-- ===== src/Arithmetic/Compare.antt =====
-- crates/runtime/src/arithmetic/compare.rs.
pub mod Exact
use patch_seq.Base.{ℕ, ◌≡◌, Bool, not, ◌&&◌, ◌||◌, ◌==◌, if◌then◌else◌}
use patch_seq.Base.Int.{ltb_ℤ, leb_ℤ}
use patch_seq.Value.{Value, int, bool}
use patch_seq.Word.{to_ℤ}
use patch_seq.Machine.{M}
use patch_seq.Machine.Arc.{Allocator}
use patch_seq.Arithmetic.Shape.{int_binary, int_unary}

unfoldable pub eq : Allocator → ℕ → M ℕ
eq alloc = int_binary alloc (λ a b. bool (a == b))

unfoldable pub lt : Allocator → ℕ → M ℕ
lt alloc = int_binary alloc (λ a b. bool (ltb_ℤ (to_ℤ a) (to_ℤ b)))

unfoldable pub gt : Allocator → ℕ → M ℕ
gt alloc = int_binary alloc (λ a b. bool (ltb_ℤ (to_ℤ b) (to_ℤ a)))

unfoldable pub lte : Allocator → ℕ → M ℕ
lte alloc = int_binary alloc (λ a b. bool (leb_ℤ (to_ℤ a) (to_ℤ b)))

unfoldable pub gte : Allocator → ℕ → M ℕ
gte alloc = int_binary alloc (λ a b. bool (leb_ℤ (to_ℤ b) (to_ℤ a)))

unfoldable pub neq : Allocator → ℕ → M ℕ
neq alloc = int_binary alloc (λ a b. bool (not (a == b)))

abbrev pub flag : Bool → ℕ
flag c = if c then 1 else 0

unfoldable pub and : Allocator → ℕ → M ℕ
and alloc = int_binary alloc (λ a b. int (flag (not (a == 0) && not (b == 0))))

unfoldable pub or : Allocator → ℕ → M ℕ
or alloc = int_binary alloc (λ a b. int (flag (not (a == 0) || not (b == 0))))

unfoldable pub not_op : Allocator → ℕ → M ℕ
not_op alloc = int_unary alloc (λ a. int (flag (a == 0)))
