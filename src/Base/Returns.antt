-- ===== src/Base/Returns.antt =====
-- What holds of the value of a computation that may fail, and that it does not fail.
use mathlib.Core.Path.{◌≡◌, refl}
use mathlib.Core.Bool.{Bool, true, false}
use mathlib.Core.Option.{Option, none, some}
use patch_seq.Base.Bools.{if◌then◌else◌}

infixl 5 ◌>>=◌
abbrev pub ◌>>=◌ {ℓ κ} : {A : Type ℓ} {B : Type κ} → Option A → (A → Option B) → Option B
none >>= f = none
some a >>= f = f a

-- The computation gives a value with the property.
pub data Returns {ℓ κ} {A : Type ℓ} (Good : A → Type κ) : (result : Option A) → Type (ℓ ⊔ κ) where
  returns : {value : A} → Good value → Returns Good (some value)

pub Returns-some {ℓ κ} :
    {A : Type ℓ} {Good : A → Type κ} {value : A} → Returns Good (some value) → Good value
Returns-some (returns good) = good

pub Returns-if {ℓ κ} :
    {A : Type ℓ} {Good : A → Type κ} {yes no : Option A} (test : Bool)
    → ((e : test ≡ true) → Returns Good yes)
    → ((e : test ≡ false) → Returns Good no)
    → Returns Good (if test then yes else no)
Returns-if true on_yes on_no = on_yes refl
Returns-if false on_yes on_no = on_no refl

pub Returns-bind {ℓ κ ℓ' κ'} :
    {A : Type ℓ} {Good : A → Type κ} {B : Type ℓ'} {Next : B → Type κ'} {first : Option A}
    {rest : A → Option B}
    → Returns Good first
    → ((value : A) (good : Good value) → Returns Next (rest value))
    → Returns Next (first >>= rest)
Returns-bind (returns good) continue = continue _ good
