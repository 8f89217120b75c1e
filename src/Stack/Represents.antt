-- ===== src/Stack/Represents.antt =====
-- The abstract stack of crates/core/src/stack.rs: the values, from the top down, that the slots
-- between the base and the stack pointer stand for, and what it is to do a function of that list.
use patch_seq.Base.{
  ℕ, zero, suc, ◌+◌, ◌-◌, ◌<◌, ◌≤◌, ◌≡◌, refl, sym, ◌∙◌, ap, ap₂, List, [], ◌∷◌, arith, length,
  count,
}
use patch_seq.Value.{Value}
use patch_seq.Machine.{Heap, Machine, ok, M, update}
use patch_seq.Machine.Owns.{Owns, Decodes}

-- The `n` words above `b`, the topmost first.
abbrev pub view : (ℕ → ℕ) → ℕ → ℕ → List ℕ
view slots b zero = []
view slots b (suc n) = slots (b + n) ∷ view slots b n

-- The stack of `m` from `b` up holds `vs`, its top first.
abbrev pub Represents : (ℕ → ℕ) → Machine → ℕ → List Value → Type 0
Represents ext m b vs = Owns ext m.heap (view m.slots b (length vs)) vs

-- What an operation on the stack above `b` leaves alone.
pub record Frame (b : ℕ) (m m' : Machine) : Type 0 where
  pub below : (p : ℕ) → p < b → m'.slots p ≡ m.slots p
  pub base : m'.base ≡ m.base
  pub error : m'.error ≡ m.error

-- The operation succeeds, takes a stack that holds `vs` to one that holds `vs'`, and returns what
-- `out` makes of the new stack pointer.
abbrev pub Gives :
    {A : Type 0} → (ℕ → M A) → (ℕ → A) → (ℕ → ℕ) → Machine → ℕ → List Value → List Value → Type 0
Gives op out ext m b vs vs' =
    (m' : Machine) × (op (b + length vs) m ≡ ok (out (b + length vs')) m')
    × Represents ext m' b vs'
    × Frame b m m'

-- An operation that returns the new stack pointer alone.
abbrev pub Does : (ℕ → M ℕ) → (ℕ → ℕ) → Machine → ℕ → List Value → List Value → Type 0
Does op = Gives op (λ sp. sp)

pub Frame-trans : {b : ℕ} {m m' m'' : Machine} → Frame b m m' → Frame b m' m'' → Frame b m m''
Frame-trans f g = record {
  below = λ p h. g.below p h ∙ f.below p h;
  base = g.base ∙ f.base;
  error = g.error ∙ f.error;
}

pub view-update :
    (slots : ℕ → ℕ) (b n p w : ℕ) → b + n ≤ p → view (update slots p w) b n ≡ view slots b n
view-update slots b zero p w h = refl
view-update slots b (suc n) p w h = ap₂ ◌∷◌ (ground arith) (view-update slots b n p w (omega arith))

pub below-update : (slots : ℕ → ℕ) (b p w q : ℕ) → b ≤ p → q < b → update slots p w q ≡ slots q
below-update slots b p w q h k = ground arith

-- A pointer `k` slots below the top.
pub sub_one : (b n : ℕ) → b + suc n - 1 ≡ b + n
sub_one b n = omega arith

pub sub_two : (b n : ℕ) → b + suc (suc n) - 2 ≡ b + n
sub_two b n = omega arith

pub sub_three : (b n : ℕ) → b + suc (suc (suc n)) - 3 ≡ b + n
sub_three b n = omega arith

pub add_one : (b n : ℕ) → b + n + 1 ≡ b + suc n
add_one b n = omega arith

pub update_self : (slots : ℕ → ℕ) (p w : ℕ) → update slots p w p ≡ w
update_self slots p w = ground arith

pub view_write1 :
    (slots : ℕ → ℕ) (b n x : ℕ) → view (update slots (b + n) x) b (suc n) ≡ x ∷ view slots b n
view_write1 slots b n x =
    rw (update_self slots (b + n) x, view-update slots b n (b + n) x (omega arith)) refl

-- Writes to the two, or three, slots above `n` others.
pub view_write2 :
    (slots : ℕ → ℕ) (b n x y : ℕ)
    → view (update (update slots (b + n) y) (b + suc n) x) b (suc (suc n)) ≡ x ∷ y ∷ view slots b n
view_write2 slots b n x y =
    view_write1 (update slots (b + n) y) b (suc n) x ∙ ap (λ ws. x ∷ ws) (view_write1 slots b n y)

pub view_write3 :
    (slots : ℕ → ℕ) (b n x y z : ℕ)
    → view
        (update (update (update slots (b + n) z) (b + suc n) y) (b + suc (suc n)) x)
        b
        (suc (suc (suc n)))
      ≡ x ∷ y ∷ z ∷ view slots b n
view_write3 slots b n x y z =
    view_write1 (update (update slots (b + n) z) (b + suc n) y) b (suc (suc n)) x
    ∙ ap (λ ws. x ∷ ws) (view_write2 slots b n y z)

-- The same words in another order, with values that they stand for.
pub Owns-same :
    (ext : ℕ → ℕ) (h : Heap) (ws ws' : List ℕ) (vs vs' : List Value)
    → Owns ext h ws vs
    → ((a : ℕ) → count a ws' ≡ count a ws)
    → Decodes h ws' vs'
    → Owns ext h ws' vs'
Owns-same ext h ws ws' vs vs' o same d = record {
  counted = λ a na. o.counted a na ∙ ap (λ n. n + ext a) (sym (same a));
  positive = o.positive;
  decoded = d;
}
