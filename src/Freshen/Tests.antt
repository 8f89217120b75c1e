-- ===== src/Freshen/Tests.antt =====
-- The theorems on fresh names, at a concrete effect.
use Prim.Native.String.{String, [], ◌∷◌}
use patch_seq.Base.{ℕ, zero, suc, ◌≡◌, refl, ap, inl, inr}
use patch_seq.Types.{Effect, effect, cons, row_var, var, int, quotation, yield, pure, empty}
use patch_seq.Freshen.{freshen_effect, freshen_stack, start}
use patch_seq.Freshen.Copies.{Copy, freshen_effect-Copy, freshen_effect_apart}

-- Numbers as marks, one for each.
marks : ℕ → String
marks zero = []
marks (suc n) = "x" ∷ marks n

marks_apart : (n m : ℕ) → marks n ≡ marks m → n ≡ m
unfolding marks
marks_apart zero zero e = refl
marks_apart zero (suc m) e = cc
marks_apart (suc n) zero e = cc
marks_apart (suc n) (suc m) e = ap suc (marks_apart n m cc)

abbrev marked : String → ℕ → String
marked prefix n = marks n

-- `( ..a T -- ..a [ T -- Int ] )` that yields a T.
abbrev quoting : Effect
quoting =
    effect (cons (row_var "a") (var "T"))
      (cons (row_var "a") (quotation (effect (cons empty (var "T")) (cons empty int) pure)))
      (yield (var "T") pure)

-- The side effect of a quotation is lost.
quotation_loses_yield :
    (freshen_stack marked
      (cons empty (quotation (effect empty empty (yield int pure))))
      (start 0)).0
    ≡ cons empty (quotation (effect empty empty pure))
unfolding freshen_stack
quotation_loses_yield = refl

freshen_effect-Copy_example : Copy marked 2 quoting (freshen_effect marked quoting 2)
freshen_effect-Copy_example = freshen_effect-Copy marked (λ p q n m e. marks_apart n m e) quoting 2

freshen_effect_apart_example : ¬ (marks 0 ≡ marks 3)
unfolding freshen_effect freshen_stack
freshen_effect_apart_example =
    freshen_effect_apart marked (λ p q n m e. marks_apart n m e) quoting quoting 0 (marks 0)
      (marks 3) (inr ("a", refl)) (inl ("T", refl))
