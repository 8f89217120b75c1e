-- ===== src/Types.antt =====
-- The types of Seq (crates/compiler/src/types.rs): value types, row-polymorphic stack types and
-- effects. A list of types is a type of its own in the block, since they hold one another.
pub mod Equality
use Prim.Native.String.{String}
use patch_seq.Base.{Bool, true, false, List, [], ◌∷◌, Option, none, some}

mutual
  pub data SideEffects : Type 0 where
    pure : SideEffects
    yield : Ty → SideEffects → SideEffects

  pub data Ty : Type 0 where
    int float bool string symbol channel socket variant : Ty
    quotation : Effect → Ty
    closure : Effect → Tys → Ty
    union : String → Ty
    var : String → Ty

  pub data Tys : Type 0 where
    nil : Tys
    more : Ty → Tys → Tys

  pub data StackType : Type 0 where
    empty : StackType
    cons : (rest : StackType) → (top : Ty) → StackType
    row_var : String → StackType

  pub data Effect : Type 0 where
    effect : (inputs outputs : StackType) → SideEffects → Effect

-- `StackType::singleton`, `push`, `from_vec` (from the bottom up) and `pop`.
unfoldable pub singleton : Ty → StackType
singleton ty = cons empty ty

unfoldable pub push : StackType → Ty → StackType
push s ty = cons s ty

unfoldable pub push_all : StackType → List Ty → StackType
unfolding push
push_all s [] = s
push_all s (ty ∷ types) = push_all (push s ty) types

unfoldable pub from_vec : List Ty → StackType
unfolding push_all
from_vec types = push_all empty types

unfoldable pub pop : StackType → Option (StackType × Ty)
pop (cons rest top) = some (rest, top)
pop s = none

-- `Effect::is_pure` and `has_yield`
unfoldable pub is_pure : Effect → Bool
is_pure (effect _ _ pure) = true
is_pure (effect _ _ (yield _ _)) = false

unfoldable pub has_yield : Effect → Bool
has_yield (effect _ _ pure) = false
has_yield (effect _ _ (yield _ _)) = true
