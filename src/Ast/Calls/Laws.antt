-- ===== src/Ast/Calls/Laws.antt =====
-- The call graph of crates/compiler/src/call_graph.rs is the same before and after the lowering of
-- crates/compiler/src/normalize.rs.
use Prim.Native.String.{String}
use text.Mathlib.Text.{◌==◌}
use text.Mathlib.TextEquality.{eq_iff}
use patch_seq.Base.{
  true, false, Option, none, some, List, [], ◌∷◌, if◌then◌else◌, ◌≡◌, refl, ◌∙◌, ap, Bool-cases,
  inl, inr,
}
use patch_seq.Ast.{
  WordDef, Statement, Branch, Statements, Arms, word_call, conditional, quotation, match_on,
  missing, present, nil, cons, done, arm,
}
use patch_seq.Ast.Lower.{
  lower_literal_if_combinators, is_if, rewrite_statements, rewrite_statement, rewrite_branch,
  rewrite_arms,
}
use patch_seq.Ast.Calls.{
  contains_name, extract_each, extract_calls_from_statement, extract_branch, extract_arms,
  extract_calls, build, add_edges, word_names,
}

-- A call of `if` is no call of a known word.
if_is_unknown :
    (known : List String) (name : String)
    → contains_name known "if" ≡ false
    → is_if name ≡ true
    → contains_name known name ≡ false
unfolding is_if
if_is_unknown known name h e = let same : name ≡ "if" = (eq_iff name "if").0 e in rw same h

mutual
  unfolding rewrite_statements extract_each

  each_same :
      (ss : Statements) (known calls : List String)
      → contains_name known "if" ≡ false
      → extract_each (rewrite_statements ss) known calls ≡ extract_each ss known calls
  each_same nil known calls h = refl
  each_same (cons (quotation i t s) (cons (quotation j e u) (cons (word_call name span) rest)))
        known calls h =
      elim (Bool-cases (is_if name)) [
        | inl y ↦
            rw (y, if_is_unknown known name h y)
              (each_same rest known _ h
                ∙ ap (extract_each rest known)
                    (each_same e known _ h ∙ ap (extract_each e known) (each_same t known calls h)))
        | inr n ↦ rw n (
            each_same (cons (quotation j e u) (cons (word_call name span) rest)) known _ h
            ∙ ap (extract_each (cons (quotation j e u) (cons (word_call name span) rest)) known)
                (each_same t known calls h))
      ]
  each_same (cons s rest) known calls h =
      each_same rest known _ h ∙ ap (extract_each rest known) (statement_same s known calls h)

  statement_same :
      (s : Statement) (known calls : List String)
      → contains_name known "if" ≡ false
      → extract_calls_from_statement (rewrite_statement s) known calls
        ≡ extract_calls_from_statement s known calls
  statement_same (conditional t e span) known calls h =
      branch_same e known _ h ∙ ap (extract_branch e known) (each_same t known calls h)
  statement_same (match_on arms span) known calls h = arms_same arms known calls h
  statement_same (quotation i body span) known calls h = each_same body known calls h
  statement_same s known calls h = refl

  branch_same :
      (e : Branch) (known calls : List String)
      → contains_name known "if" ≡ false
      → extract_branch (rewrite_branch e) known calls ≡ extract_branch e known calls
  branch_same missing known calls h = refl
  branch_same (present e) known calls h = each_same e known calls h

  arms_same :
      (arms : Arms) (known calls : List String)
      → contains_name known "if" ≡ false
      → extract_arms (rewrite_arms arms) known calls ≡ extract_arms arms known calls
  arms_same done known calls h = refl
  arms_same (arm p body span arms) known calls h =
      arms_same arms known _ h ∙ ap (extract_arms arms known) (each_same body known calls h)

word_names_same :
    (words : List WordDef) → word_names (lower_literal_if_combinators words) ≡ word_names words
unfolding word_names lower_literal_if_combinators
word_names_same [] = refl
word_names_same (word ∷ words) = ap (λ ns. word.name ∷ ns) (word_names_same words)

add_edges_same :
    (words : List WordDef) (names : List String) (edges : String → Option (List String))
    → contains_name names "if" ≡ false
    → add_edges (lower_literal_if_combinators words) names edges ≡ add_edges words names edges
unfolding add_edges extract_calls lower_literal_if_combinators
add_edges_same [] names edges h = refl
add_edges_same (word ∷ words) names edges h =
    add_edges_same words names _ h
    ∙ ap (λ calls. add_edges words names (λ w. if word.name == w then some calls else edges w))
        (each_same word.body names [] h)

-- If no word of the program is called `if`, its call graph is the same before and after the lowering.
pub build-lower :
    (program : List WordDef)
    → contains_name (word_names program) "if" ≡ false
    → build (lower_literal_if_combinators program) ≡ build program
unfolding build
build-lower program h = rw (word_names_same program) (
    ap (λ edges. record { edges = edges; words = word_names program })
      (add_edges_same program (word_names program) (λ w. none) h))
