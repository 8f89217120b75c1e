-- ===== src/Ast/Lower/Laws.antt =====
-- What the lowering of crates/compiler/src/normalize.rs leaves.
use patch_seq.Base.{ℕ, Option, List, [], ◌∷◌, ◌≡◌, refl, ap, ap₂, Bool-cases, inl, inr}
use patch_seq.Ast.{
  WordDef, QuotationSpan, Statement, Branch, Statements, Arms, word_call, conditional, quotation,
  match_on, missing, present, nil, cons, done, arm,
}
use patch_seq.Ast.Lower.{
  lower_literal_if_combinators, is_if, rewrite_statements, rewrite_statement, rewrite_branch,
  rewrite_arms, IsLowered, HasLowered, LoweredBranch, LoweredArms,
}

mutual
  unfolding rewrite_statements IsLowered

  -- A list without such triples is left as it is.
  same_statements : (ss : Statements) → IsLowered ss → rewrite_statements ss ≡ ss
  same_statements nil h = refl
  same_statements
        (cons (quotation i t s) (cons (quotation j e u) (cons (word_call name span) rest))) h =
      rw h.0 (
        ap₂ (λ x y. cons (quotation i x s) y) (same_statements t h.1)
          (same_statements (cons (quotation j e u) (cons (word_call name span) rest)) h.2))
  same_statements (cons s rest) h = ap₂ cons (same_statement s h.0) (same_statements rest h.1)

  same_statement : (s : Statement) → HasLowered s → rewrite_statement s ≡ s
  same_statement (conditional t e span) h =
      ap₂ (λ x y. conditional x y span) (same_statements t h.0) (same_branch e h.1)
  same_statement (match_on arms span) h = ap (λ x. match_on x span) (same_arms arms h)
  same_statement (quotation i body span) h = ap (λ x. quotation i x span) (same_statements body h)
  same_statement s h = refl

  same_branch : (e : Branch) → LoweredBranch e → rewrite_branch e ≡ e
  same_branch missing h = refl
  same_branch (present e) h = ap present (same_statements e h)

  same_arms : (arms : Arms) → LoweredArms arms → rewrite_arms arms ≡ arms
  same_arms done h = refl
  same_arms (arm p body span arms) h =
      ap₂ (λ x y. arm p x span y) (same_statements body h.0) (same_arms arms h.1)

abbrev both : {A B : Type 0} → A → B → A × B
both a b = (a, b)

-- No call comes first, or second behind a quotation.
abbrev NoCallFirst : Statements → Type 0
NoCallFirst (cons (word_call name span) rest) = ⊥
NoCallFirst ss = Unit

abbrev NoCallSecond : Statements → Type 0
NoCallSecond (cons (quotation i t s) rest) = NoCallFirst rest
NoCallSecond ss = Unit

first_is_no_call :
    (i : ℕ) (t : Statements) (s : Option QuotationSpan) (rest : Statements)
    → NoCallFirst (rewrite_statements (cons (quotation i t s) rest))
unfolding rewrite_statements
first_is_no_call i t s (cons (quotation j e u) (cons (word_call name span) rest)) =
    elim (Bool-cases (is_if name)) [ inl y ↦ rw y tt | inr n ↦ rw n tt ]
first_is_no_call i t s rest = tt

second_is_no_call :
    (i j : ℕ) (t e : Statements) (s u : Option QuotationSpan) (rest : Statements)
    → NoCallSecond (rewrite_statements (cons (quotation i t s) (cons (quotation j e u) rest)))
unfolding rewrite_statements
second_is_no_call i j t e s u (cons (word_call name span) rest) = elim (Bool-cases (is_if name)) [
  | inl y ↦ rw y tt
  | inr n ↦ rw n tt
]
second_is_no_call i j t e s u rest = first_is_no_call j e u rest

prepend :
    (i : ℕ) (t : Statements) (s : Option QuotationSpan) (ss : Statements)
    → IsLowered t
    → IsLowered ss
    → NoCallSecond ss
    → IsLowered (cons (quotation i t s) ss)
unfolding IsLowered
prepend i t s (cons (quotation j e u) (cons (word_call name span) rest)) a b n = absurd n
prepend i t s ss a b n = both a b

mutual
  unfolding rewrite_statements IsLowered

  low_each : (ss : Statements) → IsLowered (rewrite_statements ss)
  low_each nil = tt
  low_each (cons (quotation i t s) (cons (quotation j e u) (cons (word_call name span) rest))) =
      elim (Bool-cases (is_if name)) [
        | inl y ↦ rw y ((low_each t, low_each e), low_each rest)
        | inr n ↦
            rw n
              (n, low_each t, low_each (cons (quotation j e u) (cons (word_call name span) rest)))
      ]
  low_each (cons (quotation i t s) (cons (quotation j e u) (cons (quotation k f v) rest))) =
      prepend i (rewrite_statements t) s _ (low_each t)
        (low_each (cons (quotation j e u) (cons (quotation k f v) rest)))
        (second_is_no_call j k e f u v rest)
  low_each (cons s rest) = both (low_one s) (low_each rest)

  low_one : (s : Statement) → HasLowered (rewrite_statement s)
  low_one (conditional t e span) = (low_each t, low_branch e)
  low_one (match_on arms span) = low_arms arms
  low_one (quotation i body span) = low_each body
  low_one s = tt

  low_branch : (e : Branch) → LoweredBranch (rewrite_branch e)
  low_branch missing = tt
  low_branch (present e) = low_each e

  low_arms : (arms : Arms) → LoweredArms (rewrite_arms arms)
  low_arms done = tt
  low_arms (arm p body span arms) = (low_each body, low_arms arms)

abbrev pub AllLowered : List WordDef → Type 0
AllLowered [] = Unit
AllLowered (word ∷ words) = IsLowered word.body × AllLowered words

-- After the lowering no two literal quotations are followed by `if` on any level of any word, and
-- another lowering changes nothing.
pub lower-AllLowered :
    (words : List WordDef)
    → AllLowered (lower_literal_if_combinators words)
      × (lower_literal_if_combinators (lower_literal_if_combinators words)
          ≡ lower_literal_if_combinators words)
unfolding lower_literal_if_combinators
lower-AllLowered [] = (tt, refl)
lower-AllLowered (word ∷ words) =
    let (low, same) = lower-AllLowered words in
    let body = low_each word.body in
    (
      both body low,
      ap₂ (λ b ws. record word { body = b } ∷ ws)
          (same_statements (rewrite_statements word.body) body) same,
    )
