-- ===== src/Specialize.antt =====
-- Which words are compiled to registers (crates/compiler/src/codegen/specialization/eligibility.rs and
-- types.rs). The words that are specialised already are a test on names.
pub mod Calls
mod Tests
use Prim.Native.String.{String}
use text.Mathlib.Text.{◌==◌ as same_name}
use patch_seq.Base.{
  ℕ, Bool, true, false, ◌&&◌, ◌||◌, not, Option, none, some, List, [], ◌∷◌, length, ◌==◌,
  if◌then◌else◌,
}
use patch_seq.Base.Returns.{◌>>=◌}
use patch_seq.Types.{Ty, StackType, Effect, effect, int, bool, float, empty, row_var, cons, is_pure}
use patch_seq.Ast.{
  WordDef, Statement, Branch, Statements, int_literal, float_literal, bool_literal, string_literal,
  symbol, word_call, conditional, quotation, match_on, missing, present, nil,
}
use patch_seq.Ast.Calls.{contains_name}

pub data RegisterType : Type 0 where
  i64 double : RegisterType

unfoldable pub from_type : Ty → Option RegisterType
from_type int = some i64
from_type bool = some i64
from_type float = some double
from_type _ = none

pub record SpecSignature : Type 0 where
  pub inputs : List RegisterType
  pub outputs : List RegisterType

unfoldable pub is_direct_call : SpecSignature → Bool
is_direct_call sig = length sig.outputs == 1

-- The loop over a stack type from its top; the types come out bottom first.
unfoldable pub register_types : StackType → List RegisterType → Option (List RegisterType)
unfolding from_type
register_types empty types = some types
register_types (row_var name) types = some types
register_types (cons rest top) types = from_type top >>= λ ty. register_types rest (ty ∷ types)

unfoldable pub extract_register_types : StackType → Option (List RegisterType)
unfolding register_types
extract_register_types stack = register_types stack []

abbrev pub specializable_ops : List String
specializable_ops =
    "i.+" ∷ "i.add" ∷ "i.-" ∷ "i.subtract" ∷ "i.*" ∷ "i.multiply" ∷ "i./" ∷ "i.divide" ∷ "i.%"
    ∷ "i.mod" ∷ "band" ∷ "bor" ∷ "bxor" ∷ "bnot" ∷ "shl" ∷ "shr" ∷ "popcount" ∷ "clz" ∷ "ctz"
    ∷ "int->float" ∷ "float->int" ∷ "and" ∷ "or" ∷ "not" ∷ "i.<" ∷ "i.lt" ∷ "i.>" ∷ "i.gt" ∷ "i.<="
    ∷ "i.lte" ∷ "i.>=" ∷ "i.gte" ∷ "i.=" ∷ "i.eq" ∷ "i.<>" ∷ "i.neq" ∷ "f.+" ∷ "f.add" ∷ "f.-"
    ∷ "f.subtract" ∷ "f.*" ∷ "f.multiply" ∷ "f./" ∷ "f.divide" ∷ "f.<" ∷ "f.lt" ∷ "f.>" ∷ "f.gt"
    ∷ "f.<=" ∷ "f.lte" ∷ "f.>=" ∷ "f.gte" ∷ "f.=" ∷ "f.eq" ∷ "f.<>" ∷ "f.neq" ∷ "dup" ∷ "drop"
    ∷ "swap" ∷ "over" ∷ "rot" ∷ "nip" ∷ "tuck" ∷ "pick" ∷ "roll" ∷ []

abbrev pub is_int_literal : Statement → Bool
is_int_literal (int_literal n) = true
is_int_literal _ = false

unfoldable pub is_call_specializable :
    (specialized_words : String → Bool)
    → (name word_name : String) → (prev_was_int_literal : Bool) → Bool
unfolding contains_name
is_call_specializable specialized name word_name prev =
    if same_name name word_name
    then true
    else if (same_name name "pick" || same_name name "roll") && not prev
    then false
    else contains_name specializable_ops name || specialized name

unfoldable mutual
  unfolding is_call_specializable

  -- The loop of `is_body_specializable`, after a statement that is an integer literal or not.
  pub is_rest_specializable :
      (String → Bool) → (prev_was_int_literal : Bool) → Statements → (word_name : String) → Bool
  is_rest_specializable specialized prev nil word = true
  is_rest_specializable specialized prev (Statements.cons stmt body) word =
      is_statement_specializable specialized stmt word prev
      && is_rest_specializable specialized (is_int_literal stmt) body word

  pub is_statement_specializable :
      (String → Bool) → Statement → (word_name : String) → (prev_was_int_literal : Bool) → Bool
  is_statement_specializable specialized (int_literal n) word prev = true
  is_statement_specializable specialized (float_literal n) word prev = true
  is_statement_specializable specialized (bool_literal b) word prev = true
  is_statement_specializable specialized (string_literal s) word prev = false
  is_statement_specializable specialized (symbol s) word prev = false
  is_statement_specializable specialized (quotation i body span) word prev = false
  is_statement_specializable specialized (match_on arms span) word prev = false
  is_statement_specializable specialized (word_call name span) word prev =
      is_call_specializable specialized name word prev
  is_statement_specializable specialized (conditional t e span) word prev =
      is_rest_specializable specialized false t word && is_branch_specializable specialized e word

  pub is_branch_specializable : (String → Bool) → Branch → (word_name : String) → Bool
  is_branch_specializable specialized missing word = true
  is_branch_specializable specialized (present e) word =
      is_rest_specializable specialized false e word

abbrev pub is_body_specializable : (String → Bool) → Statements → (word_name : String) → Bool
is_body_specializable specialized body word = is_rest_specializable specialized false body word

abbrev pub is_empty : List RegisterType → Bool
is_empty types = length types == 0

-- `can_specialize` after the effect is known.
unfoldable pub specialize_effect : (String → Bool) → WordDef → Effect → Option SpecSignature
unfolding is_pure extract_register_types is_rest_specializable
specialize_effect specialized word (effect ins outs effects) =
    if not (is_pure (effect ins outs effects))
    then none
    else extract_register_types ins >>= λ inputs. extract_register_types outs >>= λ outputs.
        if is_empty inputs && is_empty outputs
        then none
        else if is_empty outputs
        then none
        else if not (is_body_specializable specialized word.body word.name)
        then none
        else some (record { inputs = inputs; outputs = outputs })

unfoldable pub can_specialize : (String → Bool) → WordDef → Option SpecSignature
unfolding specialize_effect
can_specialize specialized word = word.effect >>= specialize_effect specialized word
