-- ===== src/LiteralIndex/Tests.antt =====
-- The theorems on literal indices, at a concrete stack.
use Prim.Native.String.{String}
use patch_seq.Base.{◌≡◌, refl, List, [], ◌∷◌, arith}
use patch_seq.Value.{Value, int, bool, string}
use patch_seq.Machine.Samples.{unshared, greeting, shared_string, three, four-Represents}
use patch_seq.Stack.{roll_op}
use patch_seq.Stack.Represents.{Does}
use patch_seq.Types.{Ty, StackType, cons, row_var}
use patch_seq.LiteralIndex.{ok, FreshName, stack_depth, handle_literal_roll}
use patch_seq.LiteralIndex.Typed.{HasStackType, literal_roll-HasStackType}

abbrev HasType : Value → Ty → Type 0
HasType (int i) Ty.int = Unit
HasType (bool b) Ty.bool = Unit
HasType (string s) Ty.string = Unit
HasType v t = ⊥

abbrev one_string : String → List Value
one_string name = greeting ∷ []

abbrev same_name : FreshName
same_name op row k = op

-- `..a String Int`
abbrev two_items : StackType
two_items = cons (cons (row_var "a") Ty.string) Ty.int

-- `..a Int`
abbrev one_int : StackType
one_int = cons (row_var "a") Ty.int

literal_roll-HasStackType_example :
    (st' : StackType) × (vs' : List Value) × (handle_literal_roll same_name 1 two_items 7
      ≡ ok st' 7)
    × Does roll_op unshared (shared_string 1) 5 (int 1 ∷ three) vs'
    × HasStackType HasType one_string st' vs'
unfolding stack_depth
literal_roll-HasStackType_example =
    literal_roll-HasStackType HasType one_string same_name unshared (shared_string 1) 5 1 7
      two_items three refl (omega arith) (omega arith) (tt, (tt, refl))
      (four-Represents 1 (omega arith))
