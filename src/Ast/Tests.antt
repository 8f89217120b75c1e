-- ===== src/Ast/Tests.antt =====
-- The theorems on statements, at a concrete program.
use Prim.Native.String.{String}
use patch_seq.Base.{ℕ, none, List, [], ◌∷◌, ◌≡◌, refl}
use patch_seq.Ast.{WordDef, Statement, Statements, int_literal, word_call, quotation, nil, cons}
use patch_seq.Ast.Lower.{lower_literal_if_combinators}
use patch_seq.Ast.Lower.Laws.{AllLowered, lower-AllLowered}
use patch_seq.Ast.Calls.{contains_name, word_names, build}
use patch_seq.Ast.Calls.Laws.{build-lower}

abbrev block : ℕ → Statements → Statement
block i body = quotation i body none

abbrev calls : String → Statement
calls name = word_call name none

-- `: down [ 1 down ] [ 2 ] if ;`
abbrev down : List WordDef
down =
    record {
      name = "down";
      effect = none;
      body =
          cons (block 0 (cons (int_literal 1) (cons (calls "down") nil)))
            (cons (block 1 (cons (int_literal 2) nil)) (cons (calls "if") nil));
    }
    ∷ []

lower-AllLowered_example :
    AllLowered (lower_literal_if_combinators down)
    × (lower_literal_if_combinators (lower_literal_if_combinators down)
        ≡ lower_literal_if_combinators down)
lower-AllLowered_example = lower-AllLowered down

build-lower_example : build (lower_literal_if_combinators down) ≡ build down
unfolding contains_name word_names
build-lower_example = build-lower down refl
