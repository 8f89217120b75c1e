-- ===== src/Specialize/Calls.antt =====
-- What a word that is compiled to registers calls.
use Prim.Native.String.{String}
use text.Mathlib.Text.{◌==◌ as same_name}
use patch_seq.Base.{
  ◌<◌, ◌≡◌, Bool, true, false, ◌&&◌, ◌||◌, not, refl, none, some, List, [], ◌∷◌, length, arith, inl,
  inr, Bool-cases, Option-cases, subst, if◌then◌else◌,
}
use patch_seq.Types.{Effect, effect, is_pure, StackType}
use patch_seq.Ast.{
  WordDef, Statement, Branch, Statements, int_literal, float_literal, bool_literal, string_literal,
  symbol, word_call, conditional, quotation, match_on, missing, present, nil, cons,
}
use patch_seq.Ast.Calls.{
  contains_name, insert_name, extract_each, extract_calls_from_statement, extract_branch,
  extract_calls,
}
use patch_seq.Specialize.{
  RegisterType, SpecSignature, extract_register_types, specializable_ops, is_int_literal,
  is_call_specializable, is_rest_specializable, is_statement_specializable, is_branch_specializable,
  is_body_specializable, is_empty, specialize_effect, can_specialize,
}

-- Code in registers can call the word.
abbrev pub is_callable : (String → Bool) → (word_name name : String) → Bool
is_callable specialized word name =
    same_name name word || (contains_name specializable_ops name || specialized name)

-- Code in registers can call each of the words.
unfoldable pub all_callable : (String → Bool) → (word_name : String) → List String → Bool
all_callable specialized word [] = true
all_callable specialized word (name ∷ names) =
    is_callable specialized word name && all_callable specialized word names

call-callable :
    (specialized : String → Bool) (name word : String) (prev : Bool)
    → is_call_specializable specialized name word prev ≡ true
    → is_callable specialized word name ≡ true
unfolding is_call_specializable
call-callable specialized name word prev h = ground arith

module _ (specialized : String → Bool) (word : String) (known : List String) where
  abbrev AllCallable : List String → Type 0
  AllCallable calls = all_callable specialized word calls ≡ true

  inserted-AllCallable :
      (calls : List String) (name : String)
      → is_callable specialized word name ≡ true
      → AllCallable calls
      → AllCallable (insert_name calls name)
  unfolding insert_name all_callable
  inserted-AllCallable calls name c all = elim (Bool-cases (contains_name calls name)) [
    | inl t ↦ rw t all
    | inr f ↦ rw (f, c) all
  ]

  both_true : (a b : Bool) → (a && b) ≡ true → (a ≡ true) × (b ≡ true)
  both_true a b h = ground arith

  mutual
    unfolding extract_each is_rest_specializable

    each-AllCallable :
        (body : Statements) (prev : Bool) (calls : List String)
        → is_rest_specializable specialized prev body word ≡ true
        → AllCallable calls
        → AllCallable (extract_each body known calls)
    each-AllCallable nil prev calls h all = all
    each-AllCallable (cons stmt body) prev calls h all =
        let b = both_true _ _ h in
        each-AllCallable body (is_int_literal stmt) (extract_calls_from_statement stmt known calls)
          b.1 (statement-AllCallable stmt prev calls b.0 all)

    statement-AllCallable :
        (stmt : Statement) (prev : Bool) (calls : List String)
        → is_statement_specializable specialized stmt word prev ≡ true
        → AllCallable calls
        → AllCallable (extract_calls_from_statement stmt known calls)
    statement-AllCallable (word_call name span) prev calls h all =
        elim (Bool-cases (contains_name known name)) [
          | inl t ↦
              rw t
                (inserted-AllCallable calls name (call-callable specialized name word prev h) all)
          | inr f ↦ rw f all
        ]
    statement-AllCallable (conditional t e span) prev calls h all =
        let b = both_true _ _ h in
        branch-AllCallable e (extract_each t known calls) b.1
          (each-AllCallable t false calls b.0 all)
    statement-AllCallable (int_literal n) prev calls h all = all
    statement-AllCallable (float_literal n) prev calls h all = all
    statement-AllCallable (bool_literal b) prev calls h all = all
    statement-AllCallable (string_literal s) prev calls h all = all
    statement-AllCallable (symbol s) prev calls h all = all
    statement-AllCallable (quotation i body span) prev calls h all = cc
    statement-AllCallable (match_on arms span) prev calls h all = cc

    branch-AllCallable :
        (e : Branch) (calls : List String)
        → is_branch_specializable specialized e word ≡ true
        → AllCallable calls
        → AllCallable (extract_branch e known calls)
    branch-AllCallable missing calls h all = all
    branch-AllCallable (present e) calls h all = each-AllCallable e false calls h all

-- What `can_specialize` has found out of the effect and the body.
pub record Specializes (specialized : String → Bool) (word : WordDef) (ins outs : StackType)
    (sig : SpecSignature) : Type 0 where
  pub inputs : extract_register_types ins ≡ some sig.inputs
  pub outputs : extract_register_types outs ≡ some sig.outputs
  pub some_output : 0 < length sig.outputs
  pub body : is_body_specializable specialized word.body word.name ≡ true

abbrev pub inputs_of : Effect → StackType
inputs_of (effect ins outs effects) = ins

abbrev pub outputs_of : Effect → StackType
outputs_of (effect ins outs effects) = outs

and_false : (b : Bool) → (b && false) ≡ false
and_false b = ground arith

-- The tests of `specialize_effect` on the types that it has found.
no_output :
    (word_ok : Bool) (sig signature : SpecSignature) (inputs outputs : List RegisterType)
    → is_empty outputs ≡ true
    → (if is_empty inputs && is_empty outputs
        then none
        else if is_empty outputs
        then none
        else if not word_ok
        then none
        else some sig)
      ≡ some signature
    → ⊥
no_output word_ok sig signature inputs outputs e h = elim (Bool-cases (is_empty inputs)) [
  | inl t ↦ cc (rw (t, e) at h)
  | inr f ↦ cc (rw (f, e) at h)
]

specialize_effect-Specializes :
    (specialized : String → Bool) (word : WordDef) (e : Effect) (sig : SpecSignature)
    → specialize_effect specialized word e ≡ some sig
    → (is_pure e ≡ true) × Specializes specialized word (inputs_of e) (outputs_of e) sig
unfolding specialize_effect
specialize_effect-Specializes specialized word (effect ins outs effects) sig h =
    elim (Bool-cases (is_pure (effect ins outs effects))) [
      | inr f ↦ absurd (cc (rw f at h))
      | inl p ↦ elim (Option-cases (extract_register_types ins)) [
        | inl none_in ↦ absurd (cc (rw (p, none_in) at h))
        | inr (inputs, i) ↦ elim (Option-cases (extract_register_types outs)) [
          | inl none_out ↦ absurd (cc (rw (p, i, none_out) at h))
          | inr (outputs, o) ↦ elim (Bool-cases (is_empty outputs)) [
            | inl e ↦ absurd (no_output _ _ _ inputs outputs e (rw (p, i, o) at h))
            | inr ne ↦ elim (Bool-cases (is_body_specializable specialized word.body word.name)) [
              | inr f ↦ absurd (cc (rw (p, i, o, ne, and_false (is_empty inputs), f) at h))
              | inl b ↦
                  let g : some (record { inputs = inputs; outputs = outputs }) ≡ some sig =
                    rw (p, i, o, ne, and_false (is_empty inputs), b) at h in
                  let same : record { inputs = inputs; outputs = outputs } ≡ sig = cc in
                  (
                    p,
                    subst (Specializes specialized word ins outs) same
                        (record { inputs = i; outputs = o; some_output = ground arith; body = b }),
                  )
            ]
          ]
        ]
      ]
    ]

-- If `can_specialize` accepts a word, its declared effect is pure, the signature has the register
-- types of its inputs and outputs, with one output at least, and each call that the call graph finds
-- in its body, whatever the known words, is of the word itself, of an operation that registers can do,
-- or of a word that is specialised already.
pub can_specialize_calls :
    (specialized : String → Bool) (word : WordDef) (sig : SpecSignature) (known : List String)
    → can_specialize specialized word ≡ some sig
    → ((e : Effect) × (word.effect ≡ some e)
        × (is_pure e ≡ true)
        × Specializes specialized word (inputs_of e) (outputs_of e) sig)
      × (all_callable specialized word.name (extract_calls word.body known) ≡ true)
unfolding can_specialize extract_calls all_callable
can_specialize_calls specialized word sig known h = elim (Option-cases word.effect) [
  | inl e ↦ absurd (cc (rw e at h))
  | inr (e, f) ↦
      let (p, s) = specialize_effect-Specializes specialized word e sig (rw f at h) in
      ((e, f, p, s), each-AllCallable specialized word.name known word.body false [] s.body refl)
]
