-- ===== src/LiteralIndex/Typed.antt =====
-- The types that the type checker gives `pick` and `roll` with a literal index
-- (crates/compiler/src/typechecker/pick_roll.rs) are those of what the runtime does
-- (crates/core/src/stack.rs).
use Prim.Native.String.{String}
use patch_seq.Base.{
  ℕ, ◌+◌, ◌<◌, ◌≤◌, ◌≡◌, refl, sym, ◌∙◌, ap, subst, false, List, [], ◌∷◌, ◌++◌, length, ◌==◌, leb,
  arith, Bool-cases, inl, inr, ==_iff,
}
use patch_seq.Word.{i64_min}
use patch_seq.Value.{Value, int}
use patch_seq.Machine.{Machine}
use patch_seq.Stack.{pick_op, roll_op}
use patch_seq.Stack.Represents.{Represents, Does}
use patch_seq.Stack.ByIndex.{pick_op_lem}
use patch_seq.Stack.ByIndex.Roll.{roll_op_lem}
use patch_seq.Types.{Ty, StackType, empty, cons, row_var, push, push_all}
use patch_seq.Variant.Make.Laws.{onto}
use patch_seq.LiteralIndex.{
  ok, FreshName, stack_depth, type_at, get_type_at_position, handle_literal_pick, rotate,
  rotate_type_to_top, handle_literal_roll,
}

-- What values a type and a row variable stand for.
module _ (R : Value → Ty → Type 0) (rows : String → List Value) where
  -- The stack of values, its top first, has the stack type.
  abbrev pub HasStackType : StackType → List Value → Type 0
  HasStackType empty [] = Unit
  HasStackType empty (v ∷ vs) = ⊥
  HasStackType (row_var name) vs = vs ≡ rows name
  HasStackType (cons rest top) [] = ⊥
  HasStackType (cons rest top) (v ∷ vs) = R v top × HasStackType rest vs

  abbrev AllHave : List Value → List Ty → Type 0
  AllHave [] [] = Unit
  AllHave (v ∷ vs) (t ∷ ts) = R v t × AllHave vs ts
  AllHave _ _ = ⊥

  push_all-HasStackType :
      (s : StackType) (above : List Ty) (acc vs : List Value)
      → AllHave acc above
      → HasStackType s vs
      → HasStackType (push_all s above) (onto acc vs)
  unfolding push_all push
  push_all-HasStackType s [] [] vs h t = t
  push_all-HasStackType s (ty ∷ above) (v ∷ acc) vs (a, h) t =
      push_all-HasStackType (cons s ty) above acc (v ∷ vs) h (a, t)
  push_all-HasStackType s [] (v ∷ acc) vs h t = absurd h
  push_all-HasStackType s (ty ∷ above) [] vs h t = absurd h

  -- The value at a depth that the stack type reaches, and its type.
  record Reached (fresh : FreshName) (op : String) (s : StackType) (n pos k : ℕ) (vs : List Value)
      : Type 0 where
    us : List Value
    v : Value
    ts : List Value
    ty : Ty
    split : vs ≡ us ++ (v ∷ ts)
    depth : length us + pos ≡ n
    found : type_at fresh op s n pos k ≡ ok ty k
    typed : R v ty

  reach :
      (fresh : FreshName) (op : String) (s : StackType) (n pos k : ℕ) (vs : List Value)
      → pos ≤ n
      → n < pos + stack_depth s
      → HasStackType s vs
      → Reached fresh op s n pos k vs
  unfolding type_at stack_depth
  reach fresh op (cons rest top) n pos k (w ∷ ws) l u (a, t) = elim (Bool-cases (pos == n)) [
    | inl e ↦ record {
      us = [];
      v = w;
      ts = ws;
      ty = top;
      split = refl;
      depth = ground (arith, e);
      found = rw e refl;
      typed = a;
    }
    | inr e ↦
        let next = reach fresh op rest n (pos + 1) k ws (ground arith) (omega (arith, u)) t in
        record {
          us = w ∷ next.us;
          v = next.v;
          ts = next.ts;
          ty = next.ty;
          split = ap (λ xs. w ∷ xs) next.split;
          depth = omega (arith, next.depth);
          found = rw e next.found;
          typed = next.typed;
        }
  ]
  reach fresh op (cons rest top) n pos k [] l u h = absurd h
  reach fresh op (row_var name) n pos k vs l u h = absurd (omega (arith, l, u))
  reach fresh op empty n pos k vs l u h = absurd (omega (arith, l, u))

  record Rotated (fresh : FreshName) (s : StackType) (n pos k : ℕ) (above : List Ty)
      (acc vs : List Value) : Type 0 where
    us : List Value
    v : Value
    ts : List Value
    result : StackType
    split : vs ≡ us ++ (v ∷ ts)
    depth : length us + pos ≡ n
    found : rotate fresh s n pos above k ≡ ok result k
    typed : HasStackType result (v ∷ onto acc (us ++ ts))

  rotate_lem :
      (fresh : FreshName) (s : StackType) (n pos k : ℕ) (above : List Ty) (acc vs : List Value)
      → pos ≤ n
      → n < pos + stack_depth s
      → AllHave acc above
      → HasStackType s vs
      → Rotated fresh s n pos k above acc vs
  unfolding rotate stack_depth push
  rotate_lem fresh (cons rest top) n pos k above acc (w ∷ ws) l u h (a, t) =
      elim (Bool-cases (pos == n)) [
        | inl e ↦ record {
          us = [];
          v = w;
          ts = ws;
          result = cons (push_all rest above) top;
          split = refl;
          depth = ground (arith, e);
          found = rw e refl;
          typed = (a, push_all-HasStackType rest above acc ws h t);
        }
        | inr e ↦
            let next =
              rotate_lem fresh rest n (pos + 1) k (top ∷ above) (w ∷ acc) ws (ground arith)
                (omega (arith, u)) (a, h) t in
            record {
              us = w ∷ next.us;
              v = next.v;
              ts = next.ts;
              result = next.result;
              split = ap (λ xs. w ∷ xs) next.split;
              depth = omega (arith, next.depth);
              found = rw e next.found;
              typed = next.typed;
            }
      ]
  rotate_lem fresh (cons rest top) n pos k above acc [] l u h t = absurd t
  rotate_lem fresh (row_var name) n pos k above acc vs l u h t = absurd (omega (arith, l, u))
  rotate_lem fresh empty n pos k above acc vs l u h t = absurd (omega (arith, l, u))

module _ (ext : ℕ → ℕ) (m : Machine) (b n : ℕ) (us : List Value) (v : Value) (ts vs : List Value)
    (base : m.base ≡ b) (small : n < i64_min) (split : vs ≡ us ++ (v ∷ ts))
    (depth : length us + 0 ≡ n) (r : Represents ext m b (int n ∷ vs)) where
  index : n ≡ length us
  index = omega (arith, depth)

  roll_at : Does roll_op ext m b (int n ∷ vs) (v ∷ (us ++ ts))
  roll_at = rw split (roll_op_lem ext m b us v ts base (rw index at small) (rw (split, index) at r))

  pick_at : Does pick_op ext m b (int n ∷ vs) (v ∷ vs)
  pick_at = rw split (pick_op_lem ext m b us v ts base (rw index at small) (rw (split, index) at r))

  roll_none : n ≡ 0 → v ∷ (us ++ ts) ≡ vs
  roll_none e = none_above us (omega (arith, index, e)) ∙ sym split
    where
      none_above : (xs : List Value) → length xs ≡ 0 → v ∷ (xs ++ ts) ≡ xs ++ (v ∷ ts)
      none_above [] h = refl
      none_above (x ∷ xs) h = absurd (omega (arith, h))

-- With the base of the stack set, for any account of the values that types and row variables stand
-- for, and a stack of a type with more concrete items than the literal index: the type checker types
-- `roll` with that index, without a fresh variable, and the stack that `roll_op` leaves has that type.
pub literal_roll-HasStackType :
    (R : Value → Ty → Type 0) (rows : String → List Value) (fresh : FreshName) (ext : ℕ → ℕ)
    (m : Machine) (b n k : ℕ) (st : StackType) (vs : List Value)
    → m.base ≡ b
    → n < i64_min
    → n < stack_depth st
    → HasStackType R rows st vs
    → Represents ext m b (int n ∷ vs)
    → (st' : StackType) × (vs' : List Value) × (handle_literal_roll fresh n st k ≡ ok st' k)
      × Does roll_op ext m b (int n ∷ vs) vs'
      × HasStackType R rows st' vs'
unfolding handle_literal_roll rotate_type_to_top
literal_roll-HasStackType R rows fresh ext m b n k st vs base small deep t r =
    let f = rotate_lem R rows fresh st n 0 k [] [] vs (omega arith) (omega (arith, deep)) tt t in
    let positive : leb i64_min n ≡ false = ground arith in
    let done = roll_at ext m b n f.us f.v f.ts vs base small f.split f.depth r in
    elim (Bool-cases (n == 0)) [
      | inr up ↦ (f.result, f.v ∷ (f.us ++ f.ts), rw (positive, up, f.found) refl, done, f.typed)
      | inl z ↦
          let same =
            roll_none ext m b n f.us f.v f.ts vs base small f.split f.depth r ((==_iff n 0).0 z) in
          (
            st,
            vs,
            rw (positive, z) refl,
            subst (λ xs. Does roll_op ext m b (int n ∷ vs) xs) same done,
            t,
          )
    ]

-- With the base of the stack set, for any account of the values that types and row variables stand
-- for, and a stack of a type with more concrete items than the literal index: the type checker types
-- `pick` with that index, without a fresh variable, and the stack that `pick_op` leaves has that type.
pub literal_pick-HasStackType :
    (R : Value → Ty → Type 0) (rows : String → List Value) (fresh : FreshName) (ext : ℕ → ℕ)
    (m : Machine) (b n k : ℕ) (st : StackType) (vs : List Value)
    → m.base ≡ b
    → n < i64_min
    → n < stack_depth st
    → HasStackType R rows st vs
    → Represents ext m b (int n ∷ vs)
    → (st' : StackType) × (vs' : List Value) × (handle_literal_pick fresh n st k ≡ ok st' k)
      × Does pick_op ext m b (int n ∷ vs) vs'
      × HasStackType R rows st' vs'
unfolding handle_literal_pick get_type_at_position push
literal_pick-HasStackType R rows fresh ext m b n k st vs base small deep t r =
    let f = reach R rows fresh "pick" st n 0 k vs (omega arith) (omega (arith, deep)) t in
    let positive : leb i64_min n ≡ false = ground arith in
    let done = pick_at ext m b n f.us f.v f.ts vs base small f.split f.depth r in
    (push st f.ty, f.v ∷ vs, rw (positive, f.found) refl, done, (f.typed, t))
