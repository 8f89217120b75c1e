-- ===== src/Machine.antt =====
-- The state that the runtime's stack operations work on (crates/core/src/stack.rs): the array of
-- 8-byte slots, the counted heap boxes (`Arc<Value>`), the base of the current strand's stack and
-- the pending runtime error (crates/core/src/error.rs). A pointer into the array is the number of
-- its slot, 0 for null, so `sp.add(1)` is `sp + 1`.
pub mod Owns
pub mod Arc
pub mod Samples
use patch_seq.Base.{ℕ, ◌+◌, ◌-◌, ◌≡◌, Bool, true, false, Option, none, some, ◌==◌, if◌then◌else◌}
use patch_seq.Value.{Value}

-- A heap box with the number of references to it.
pub record Cell : Type 0 where
  pub value : Value
  pub strong : ℕ

abbrev pub Heap : Type 0
Heap = ℕ → Option Cell

pub data OpName : Type 0 where
  pick roll list_get list_first list_last : OpName

-- The messages that `set_runtime_error` is given.
pub data RuntimeError : Type 0 where
  expected_int expected_variant stack_underflow : OpName → RuntimeError
  negative_index : OpName → (got : ℕ) → RuntimeError
  exceeds_depth : OpName → (index depth : ℕ) → RuntimeError

pub record Machine : Type 0 where
  pub slots : ℕ → ℕ
  pub heap : Heap
  pub base : ℕ
  pub error : Option RuntimeError

-- A panic, an access that Rust leaves undefined (a box that is not there), or an abort for lack of
-- memory.
pub data Outcome (A : Type 0) : Type 0 where
  ok : A → Machine → Outcome A
  panicked : Outcome A
  undefined : Outcome A
  out_of_memory : Outcome A

abbrev pub M : Type 0 → Type 0
M A = Machine → Outcome A

abbrev pub pure : {A : Type 0} → A → M A
pure = ok

module _ {A B : Type 0} where
  abbrev pub and_then : Outcome A → (A → M B) → Outcome B
  and_then (ok a m) k = k a m
  and_then panicked k = panicked
  and_then undefined k = undefined
  and_then out_of_memory k = out_of_memory

  infixl 5 ◌>>=◌ ◌>>◌
  abbrev pub ◌>>=◌ : M A → (A → M B) → M B
  c >>= k = λ m. and_then (c m) k

  abbrev pub ◌>>◌ : M A → M B → M B
  c >> d = c >>= λ _. d

abbrev pub panic : {A : Type 0} → M A
panic m = panicked

abbrev pub update {ℓ} : {A : Type ℓ} → (ℕ → A) → ℕ → A → ℕ → A
update f p a q = if q == p then a else f q

-- `*p`
abbrev pub load : ℕ → M ℕ
load p m = ok (m.slots p) m

-- `*p = w`
abbrev pub store : ℕ → ℕ → M (Unit {0})
store p w m = ok tt (record m { slots = update m.slots p w })

-- `error::set_runtime_error`
abbrev pub set_runtime_error : RuntimeError → M (Unit {0})
set_runtime_error e m = ok tt (record m { error = some e })

-- `patch_seq_set_stack_base`
unfoldable pub set_stack_base : ℕ → M (Unit {0})
set_stack_base base m = ok tt (record m { base = base })

-- `get_stack_base`
abbrev pub get_stack_base : M ℕ
get_stack_base m = ok m.base m
