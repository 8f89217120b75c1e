-- ===== src/Ast/Calls.antt =====
-- Which words a word calls (crates/compiler/src/call_graph.rs). A set of names is a list without
-- repetitions, and the map of the edges a function that looks a word up.
pub mod Laws
use Prim.Native.String.{String}
use text.Mathlib.Text.{◌==◌}
use patch_seq.Base.{Bool, true, false, ◌||◌, Option, none, some, List, [], ◌∷◌, if◌then◌else◌}
use patch_seq.Ast.{
  WordDef, Statement, Branch, Statements, Arms, int_literal, float_literal, bool_literal,
  string_literal, symbol, word_call, conditional, quotation, match_on, missing, present, nil, cons,
  done, arm,
}

unfoldable pub contains_name : List String → String → Bool
contains_name [] name = false
contains_name (n ∷ names) name = n == name || contains_name names name

-- `HashSet::insert`
unfoldable pub insert_name : List String → String → List String
unfolding contains_name
insert_name names name = if contains_name names name then names else name ∷ names

unfoldable mutual
  unfolding contains_name insert_name

  pub extract_each : Statements → (known_words calls : List String) → List String
  extract_each nil known calls = calls
  extract_each (cons stmt rest) known calls =
      extract_each rest known (extract_calls_from_statement stmt known calls)

  pub extract_calls_from_statement : Statement → (known_words calls : List String) → List String
  extract_calls_from_statement (word_call name span) known calls =
      if contains_name known name then insert_name calls name else calls
  extract_calls_from_statement (conditional t e span) known calls =
      extract_branch e known (extract_each t known calls)
  extract_calls_from_statement (quotation i body span) known calls = extract_each body known calls
  extract_calls_from_statement (match_on arms span) known calls = extract_arms arms known calls
  extract_calls_from_statement stmt known calls = calls

  pub extract_branch : Branch → (known_words calls : List String) → List String
  extract_branch missing known calls = calls
  extract_branch (present e) known calls = extract_each e known calls

  pub extract_arms : Arms → (known_words calls : List String) → List String
  extract_arms done known calls = calls
  extract_arms (arm p body span arms) known calls =
      extract_arms arms known (extract_each body known calls)

unfoldable pub extract_calls : Statements → (known_words : List String) → List String
unfolding extract_each
extract_calls statements known = extract_each statements known []

pub record CallGraph : Type 0 where
  pub edges : String → Option (List String)
  pub words : List String

unfoldable pub word_names : List WordDef → List String
word_names [] = []
word_names (word ∷ words) = word.name ∷ word_names words

-- The loop of `CallGraph::build`; a word that is defined again takes the place of the first.
unfoldable pub add_edges :
    List WordDef
    → (names : List String) → (String → Option (List String))
    → String
    → Option (List String)
unfolding extract_calls
add_edges [] names edges = edges
add_edges (word ∷ words) names edges =
    add_edges words names
      (λ w. if word.name == w then some (extract_calls word.body names) else edges w)

-- `CallGraph::build` without the strongly connected components.
unfoldable pub build : List WordDef → CallGraph
unfolding word_names add_edges
build program =
    let names = word_names program in
    record { edges = add_edges program names (λ w. none); words = names }

unfoldable pub is_self_recursive : CallGraph → String → Bool
unfolding contains_name
is_self_recursive graph word = elim (graph.edges word) [
  | none ↦ false
  | some callees ↦ contains_name callees word
]
