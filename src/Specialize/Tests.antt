-- ===== src/Specialize/Tests.antt =====
-- The theorem on words compiled to registers, at a concrete word.
use Prim.Native.String.{String}
use patch_seq.Base.{◌≡◌, refl, Bool, false, true, [], ◌∷◌, some, none}
use patch_seq.Types.{Effect, effect, cons, row_var, int, pure, is_pure}
use patch_seq.Ast.{WordDef, Statements, word_call, nil}
use patch_seq.Ast.Calls.{extract_calls}
use patch_seq.Specialize.{SpecSignature, i64, can_specialize}
use patch_seq.Specialize.Calls.{
  Specializes, inputs_of, outputs_of, all_callable, can_specialize_calls,
}

abbrev none_yet : String → Bool
none_yet name = false

-- `: twice ( Int -- Int ) dup i.+ ;`
abbrev twice : WordDef
twice = record {
  name = "twice";
  effect = some (effect (cons (row_var "rest") int) (cons (row_var "rest") int) pure);
  body = Statements.cons (word_call "dup" none) (Statements.cons (word_call "i.+" none) nil);
}

abbrev one_int : SpecSignature
one_int = record { inputs = i64 ∷ []; outputs = i64 ∷ [] }

can_specialize_calls_example :
    ((e : Effect) × (twice.effect ≡ some e)
      × (is_pure e ≡ true)
      × Specializes none_yet twice (inputs_of e) (outputs_of e) one_int)
    × (all_callable none_yet "twice" (extract_calls twice.body ("dup" ∷ "i.+" ∷ [])) ≡ true)
unfolding can_specialize
can_specialize_calls_example = can_specialize_calls none_yet twice one_int ("dup" ∷ "i.+" ∷ []) refl
