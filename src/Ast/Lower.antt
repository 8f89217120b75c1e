-- ===== src/Ast/Lower.antt =====
-- The lowering of `[ ... ] [ ... ] if` to a conditional (crates/compiler/src/normalize.rs).
pub mod Laws
use Prim.Native.String.{String}
use text.Mathlib.Text.{◌==◌}
use patch_seq.Base.{Bool, true, false, Option, List, [], ◌∷◌, if◌then◌else◌, ◌≡◌, refl}
use patch_seq.Ast.{
  WordDef, Span, Statement, Branch, Statements, Arms, int_literal, float_literal, bool_literal,
  string_literal, symbol, word_call, conditional, quotation, match_on, missing, present, nil, cons,
  done, arm,
}

-- `name == "if"`
unfoldable pub is_if : String → Bool
is_if name = name == "if"

unfoldable mutual
  unfolding is_if

  pub rewrite_statements : Statements → Statements
  rewrite_statements nil = nil
  rewrite_statements
        (cons (quotation i t s) (cons (quotation j e u) (cons (word_call name span) rest))) =
      if is_if name
      then cons (conditional (rewrite_statements t) (present (rewrite_statements e)) span)
          (rewrite_statements rest)
      else cons (quotation i (rewrite_statements t) s)
          (rewrite_statements (cons (quotation j e u) (cons (word_call name span) rest)))
  rewrite_statements (cons s rest) = cons (rewrite_statement s) (rewrite_statements rest)

  pub rewrite_statement : Statement → Statement
  rewrite_statement (conditional t e span) =
      conditional (rewrite_statements t) (rewrite_branch e) span
  rewrite_statement (match_on arms span) = match_on (rewrite_arms arms) span
  rewrite_statement (quotation i body span) = quotation i (rewrite_statements body) span
  rewrite_statement s = s

  pub rewrite_branch : Branch → Branch
  rewrite_branch missing = missing
  rewrite_branch (present e) = present (rewrite_statements e)

  pub rewrite_arms : Arms → Arms
  rewrite_arms done = done
  rewrite_arms (arm p body span arms) = arm p (rewrite_statements body) span (rewrite_arms arms)

unfoldable pub lower_literal_if_combinators : List WordDef → List WordDef
unfolding rewrite_statements
lower_literal_if_combinators [] = []
lower_literal_if_combinators (word ∷ words) =
    record word { body = rewrite_statements word.body } ∷ lower_literal_if_combinators words

-- No two literal quotations are followed by `if`, on any level.
unfoldable mutual
  pub IsLowered : Statements → Type 0
  IsLowered nil = Unit
  IsLowered (cons (quotation i t s) (cons (quotation j e u) (cons (word_call name span) rest))) =
      (is_if name ≡ false)
      × IsLowered t
      × IsLowered (cons (quotation j e u) (cons (word_call name span) rest))
  IsLowered (cons s rest) = HasLowered s × IsLowered rest

  pub HasLowered : Statement → Type 0
  HasLowered (conditional t e span) = IsLowered t × LoweredBranch e
  HasLowered (match_on arms span) = LoweredArms arms
  HasLowered (quotation i body span) = IsLowered body
  HasLowered s = Unit

  pub LoweredBranch : Branch → Type 0
  LoweredBranch missing = Unit
  LoweredBranch (present e) = IsLowered e

  pub LoweredArms : Arms → Type 0
  LoweredArms done = Unit
  LoweredArms (arm p body span arms) = IsLowered body × LoweredArms arms
