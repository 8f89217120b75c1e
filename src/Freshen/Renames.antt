-- ===== src/Freshen/Renames.antt =====
-- When one type is another with its variables renamed.
use Prim.Native.String.{String}
use patch_seq.Base.{◌≡◌, some}
use patch_seq.Types.{SideEffects, Ty, Tys, StackType, Effect}
use patch_seq.Freshen.{Names}

-- The second is the first with the names of `s` in place of its variables; the effects in quotations
-- and closures have no side effects.
mutual
  pub data RenamesType (s : Names) : Ty → Ty → Type 0 where
    var : {a b : String} → s.types a ≡ some b → RenamesType s (Ty.var a) (Ty.var b)
    quotation :
        {e f : Effect} → RenamesQuoted s e f → RenamesType s (Ty.quotation e) (Ty.quotation f)
    closure :
        {e f : Effect} {ts us : Tys}
        → RenamesQuoted s e f
        → RenamesTypes s ts us
        → RenamesType s (Ty.closure e ts) (Ty.closure f us)
    int : RenamesType s Ty.int Ty.int
    float : RenamesType s Ty.float Ty.float
    bool : RenamesType s Ty.bool Ty.bool
    string : RenamesType s Ty.string Ty.string
    symbol : RenamesType s Ty.symbol Ty.symbol
    channel : RenamesType s Ty.channel Ty.channel
    socket : RenamesType s Ty.socket Ty.socket
    variant : RenamesType s Ty.variant Ty.variant
    union : {a : String} → RenamesType s (Ty.union a) (Ty.union a)

  pub data RenamesTypes (s : Names) : Tys → Tys → Type 0 where
    nil : RenamesTypes s Tys.nil Tys.nil
    more :
        {t u : Ty} {ts us : Tys}
        → RenamesType s t u
        → RenamesTypes s ts us
        → RenamesTypes s (Tys.more t ts) (Tys.more u us)

  pub data RenamesStack (s : Names) : StackType → StackType → Type 0 where
    empty : RenamesStack s StackType.empty StackType.empty
    row_var :
        {a b : String}
        → s.rows a ≡ some b
        → RenamesStack s (StackType.row_var a) (StackType.row_var b)
    cons :
        {r q : StackType} {t u : Ty}
        → RenamesStack s r q
        → RenamesType s t u
        → RenamesStack s (StackType.cons r t) (StackType.cons q u)

  pub data RenamesQuoted (s : Names) : Effect → Effect → Type 0 where
    effect :
        {i j o p : StackType} {x : SideEffects}
        → RenamesStack s i j
        → RenamesStack s o p
        → RenamesQuoted s (Effect.effect i o x) (Effect.effect j p SideEffects.pure)

pub data RenamesEffects (s : Names) : SideEffects → SideEffects → Type 0 where
  pure : RenamesEffects s SideEffects.pure SideEffects.pure
  yield :
      {t u : Ty} {x y : SideEffects}
      → RenamesType s t u
      → RenamesEffects s x y
      → RenamesEffects s (SideEffects.yield t x) (SideEffects.yield u y)

-- Every name of `s` is in `r`.
pub record Extends (s r : Names) : Type 0 where
  pub types : {a b : String} → s.types a ≡ some b → r.types a ≡ some b
  pub rows : {a b : String} → s.rows a ≡ some b → r.rows a ≡ some b

mutual
  pub more_types : {s r : Names} {t u : Ty} → Extends s r → RenamesType s t u → RenamesType r t u
  more_types x (RenamesType.var e) = RenamesType.var (x.types e)
  more_types x (RenamesType.quotation q) = RenamesType.quotation (more_quoted x q)
  more_types x (RenamesType.closure q c) = RenamesType.closure (more_quoted x q) (more_list x c)
  more_types x RenamesType.int = RenamesType.int
  more_types x RenamesType.float = RenamesType.float
  more_types x RenamesType.bool = RenamesType.bool
  more_types x RenamesType.string = RenamesType.string
  more_types x RenamesType.symbol = RenamesType.symbol
  more_types x RenamesType.channel = RenamesType.channel
  more_types x RenamesType.socket = RenamesType.socket
  more_types x RenamesType.variant = RenamesType.variant
  more_types x RenamesType.union = RenamesType.union

  more_list :
      {s r : Names} {ts us : Tys} → Extends s r → RenamesTypes s ts us → RenamesTypes r ts us
  more_list x RenamesTypes.nil = RenamesTypes.nil
  more_list x (RenamesTypes.more t ts) = RenamesTypes.more (more_types x t) (more_list x ts)

  pub more_stack :
      {s r : Names} {i j : StackType} → Extends s r → RenamesStack s i j → RenamesStack r i j
  more_stack x RenamesStack.empty = RenamesStack.empty
  more_stack x (RenamesStack.row_var e) = RenamesStack.row_var (x.rows e)
  more_stack x (RenamesStack.cons q t) = RenamesStack.cons (more_stack x q) (more_types x t)

  pub more_quoted :
      {s r : Names} {e f : Effect} → Extends s r → RenamesQuoted s e f → RenamesQuoted r e f
  more_quoted x (RenamesQuoted.effect i o) = RenamesQuoted.effect (more_stack x i) (more_stack x o)

pub Extends-refl : {s : Names} → Extends s s
Extends-refl = record { types = λ e. e; rows = λ e. e }

pub Extends-trans : {s r q : Names} → Extends s r → Extends r q → Extends s q
Extends-trans x y = record { types = λ e. y.types (x.types e); rows = λ e. y.rows (x.rows e) }

-- The effect of a word keeps its side effects.
pub data RenamesEffect (s : Names) : Effect → Effect → Type 0 where
  effect :
      {i j o p : StackType} {x y : SideEffects}
      → RenamesStack s i j
      → RenamesStack s o p
      → RenamesEffects s x y
      → RenamesEffect s (Effect.effect i o x) (Effect.effect j p y)
