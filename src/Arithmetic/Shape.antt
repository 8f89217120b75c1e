-- ===== src/Arithmetic/Shape.antt =====
-- The bodies that the integer operations have in common: pop, match on Ints, push; otherwise
-- panic. Their effect on the abstract stack.
use patch_seq.Base.{
  ℕ, ◌+◌, ◌≡◌, Bool, true, false, Option, none, some, List, ◌∷◌, ◌==◌, if◌then◌else◌, length, arith,
}
use patch_seq.Value.{Value, int, bool}
use patch_seq.Word.{wrap_i63}
use patch_seq.Machine.{Machine, M, panic, ◌>>=◌}
use patch_seq.Machine.Arc.{Allocator}
use patch_seq.Machine.Arc.Laws.{HasRoom, stored}
use patch_seq.Stack.{push, pop, pop_two}
use patch_seq.Stack.Represents.{Represents, Does, Frame-trans}
use patch_seq.Stack.Ends.{push_lem, pop_lem, pop_two_lem}

-- `match (a, b) { (Value::Int(x), Value::Int(y)) => k, _ => panic!(..) }`
unfoldable pub two_ints : Value → Value → (ℕ → ℕ → M ℕ) → M ℕ
two_ints (int x) (int y) k = k x y
two_ints _ _ k = panic

abbrev pub one_int : Value → (ℕ → M ℕ) → M ℕ
one_int (int x) k = k x
one_int _ k = panic

unfoldable pub int_binary : Allocator → (ℕ → ℕ → Value) → ℕ → M ℕ
unfolding two_ints
int_binary alloc f stack = do
  (rest, a, b) ← pop_two stack
  two_ints a b (λ x y. push alloc rest (f x y))

-- The operations that assert a stack that is not null.
unfoldable pub int_unary : Allocator → (ℕ → Value) → ℕ → M ℕ
int_unary alloc f stack =
    if stack == 0 then panic else do (rest, a) ← pop stack; one_int a (λ x. push alloc rest (f x))

-- The result with `true`, or 0 with `false`.
unfoldable pub push_checked : Allocator → ℕ → Option ℕ → M ℕ
push_checked alloc rest (some v) = do stack ← push alloc rest (int v); push alloc stack (bool true)
push_checked alloc rest none = do stack ← push alloc rest (int 0); push alloc stack (bool false)

unfoldable pub int_checked : Allocator → (ℕ → ℕ → Option ℕ) → ℕ → M ℕ
unfolding two_ints push_checked
int_checked alloc f stack = do
  (rest, a, b) ← pop_two stack
  two_ints a b (λ x y. push_checked alloc rest (f x y))

-- What a checked operation leaves: the flag on top of the result.
abbrev pub flagged : Option ℕ → List Value → List Value
flagged (some v) s = bool true ∷ int (wrap_i63 v) ∷ s
flagged none s = bool false ∷ int (wrap_i63 0) ∷ s

module _ (alloc : Allocator) (ext : ℕ → ℕ) (m : Machine) (b : ℕ) (s : List Value) where
  pub int_binary_lem :
      (f : ℕ → ℕ → Value) (x y : ℕ)
      → ((h : ℕ → Option _) → HasRoom alloc h (f x y))
      → Represents ext m b (int y ∷ int x ∷ s)
      → Does (int_binary alloc f) ext m b (int y ∷ int x ∷ s) (stored (f x y) ∷ s)
  unfolding int_binary
  int_binary_lem f x y room r =
      let (m', run, r', fr) = pop_two_lem ext m b (int y) (int x) s r in
      let (m'', run', r'', fr') = push_lem ext m' b alloc (f x y) s (room m'.heap) r' in
      (m'', rw run run', r'', Frame-trans fr fr')

  pub int_unary_lem :
      (f : ℕ → Value) (x : ℕ)
      → ((h : ℕ → Option _) → HasRoom alloc h (f x))
      → Represents ext m b (int x ∷ s)
      → Does (int_unary alloc f) ext m b (int x ∷ s) (stored (f x) ∷ s)
  unfolding int_unary
  int_unary_lem f x room r =
      let (m', run, r', fr) = pop_lem ext m b (int x) s r in
      let (m'', run', r'', fr') = push_lem ext m' b alloc (f x) s (room m'.heap) r' in
      let not_null : (b + length (int x ∷ s) == 0) ≡ false = ground arith in
      (m'', rw (not_null, run) run', r'', Frame-trans fr fr')

  push_two_lem :
      (i : ℕ) (c : Bool)
      → Represents ext m b s
      → Does
          (λ sp. push alloc sp (int i) >>= λ stack. push alloc stack (bool c))
          ext
          m
          b
          s
          (bool c ∷ int (wrap_i63 i) ∷ s)
  push_two_lem i c r =
      let (m', run, r', fr) = push_lem ext m b alloc (int i) s tt r in
      let (m'', run', r'', fr') = push_lem ext m' b alloc (bool c) (int (wrap_i63 i) ∷ s) tt r' in
      (m'', rw run run', r'', Frame-trans fr fr')

  pub push_checked_lem :
      (o : Option ℕ)
      → Represents ext m b s
      → Does (λ sp. push_checked alloc sp o) ext m b s (flagged o s)
  unfolding push_checked
  push_checked_lem (some v) r = push_two_lem v true r
  push_checked_lem none r = push_two_lem 0 false r

pub int_checked_lem :
    (alloc : Allocator) (ext : ℕ → ℕ) (m : Machine) (b : ℕ) (s : List Value) (f : ℕ → ℕ → Option ℕ)
    (x y : ℕ)
    → Represents ext m b (int y ∷ int x ∷ s)
    → Does (int_checked alloc f) ext m b (int y ∷ int x ∷ s) (flagged (f x y) s)
unfolding int_checked
int_checked_lem alloc ext m b s f x y r =
    let (m', run, r', fr) = pop_two_lem ext m b (int y) (int x) s r in
    let (m'', run', r'', fr') = push_checked_lem alloc ext m' b s (f x y) r' in
    (m'', rw run run', r'', Frame-trans fr fr')
