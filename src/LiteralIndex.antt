-- ===== src/LiteralIndex.antt =====
-- How the type checker types `pick` and `roll` with a literal index
-- (crates/compiler/src/typechecker/pick_roll.rs and stack_utils.rs). The name of a fresh type variable
-- is a parameter: it is formatted from the word, the row variable and a counter, which is the state. A
-- negative index is the Int of 2 ^ 63 or more.
pub mod Typed
pub mod Depth
mod Tests
use Prim.Native.String.{String}
use patch_seq.Base.{ℕ, suc, ◌+◌, Bool, List, [], ◌∷◌, ◌==◌, leb, if◌then◌else◌, Option, none, some}
use patch_seq.Word.{i64_min}
use patch_seq.Types.{Ty, StackType, int, float, bool, var, empty, cons, row_var, push, push_all}

unfoldable pub stack_depth : StackType → ℕ
stack_depth (cons rest top) = suc (stack_depth rest)
stack_depth s = 0

unfoldable pub get_trivially_copyable_top : StackType → Option Ty
get_trivially_copyable_top (cons rest int) = some int
get_trivially_copyable_top (cons rest float) = some float
get_trivially_copyable_top (cons rest bool) = some bool
get_trivially_copyable_top s = none

pub data Checked (A : Type 0) : Type 0 where
  ok : A → (fresh_counter : ℕ) → Checked A
  underflow : (position : ℕ) → Checked A
  negative : (index : ℕ) → Checked A

abbrev pub FreshName : Type 0
FreshName = (op row : String) → (fresh_counter : ℕ) → String

-- The loop of `get_type_at_position`.
unfoldable pub type_at :
    FreshName → (op : String) → StackType → (n pos fresh_counter : ℕ) → Checked Ty
type_at fresh op (cons rest top) n pos k =
    if pos == n then ok top k else type_at fresh op rest n (pos + 1) k
type_at fresh op (row_var name) n pos k = ok (var (fresh op name k)) (k + 1)
type_at fresh op empty n pos k = underflow pos

unfoldable pub get_type_at_position :
    FreshName → StackType → (n : ℕ) → (op : String) → ℕ → Checked Ty
unfolding type_at
get_type_at_position fresh stack n op k = type_at fresh op stack n 0 k

abbrev pub push_checked : StackType → Checked Ty → Checked StackType
push_checked stack (ok ty k) = ok (push stack ty) k
push_checked stack (underflow p) = underflow p
push_checked stack (negative i) = negative i

unfoldable pub handle_literal_pick : FreshName → (n : ℕ) → StackType → ℕ → Checked StackType
unfolding get_type_at_position push
handle_literal_pick fresh n stack k =
    if leb i64_min n
    then negative n
    else push_checked stack (get_type_at_position fresh stack n "pick" k)

-- The loop of `rotate_type_to_top`; `above` has the type that was met last first.
unfoldable pub rotate :
    FreshName → StackType → (n pos : ℕ) → (above : List Ty) → ℕ → Checked StackType
unfolding push push_all
rotate fresh (cons rest top) n pos above k =
    if pos == n
    then ok (push (push_all rest above) top) k
    else rotate fresh rest n (pos + 1) (top ∷ above) k
rotate fresh (row_var name) n pos above k =
    ok (push (push_all (row_var name) above) (var (fresh "roll" name k))) (k + 1)
rotate fresh empty n pos above k = underflow pos

unfoldable pub rotate_type_to_top : FreshName → StackType → (n : ℕ) → ℕ → Checked StackType
unfolding rotate
rotate_type_to_top fresh stack n k = if n == 0 then ok stack k else rotate fresh stack n 0 [] k

unfoldable pub handle_literal_roll : FreshName → (n : ℕ) → StackType → ℕ → Checked StackType
unfolding rotate_type_to_top
handle_literal_roll fresh n stack k =
    if leb i64_min n then negative n else rotate_type_to_top fresh stack n k
