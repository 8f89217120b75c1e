-- ===== src/Freshen/Laws.antt =====
-- What the freshening of a stack type and of a type gives.
use Prim.Native.String.{String}
use text.Mathlib.Text.{◌==◌}
use text.Mathlib.TextEquality.{eq_iff}
use patch_seq.Base.{
  ℕ, ◌+◌, ◌≤◌, ◌<◌, ◌≡◌, ◌⊎◌, inl, inr, refl, sym, ◌∙◌, none, some, arith, Bool-cases, Option-cases,
  subst,
}
use patch_seq.Types.{
  SideEffects, Ty, Tys, StackType, Effect, pure, yield, effect, int, float, bool, string, symbol,
  channel, socket, variant, quotation, closure, union, var, empty, cons, row_var, nil, more,
}
use patch_seq.Unify.{HashMap, insert}
use patch_seq.Freshen.{
  Names, type_entry, row_entry, freshen_stack, freshen_type, freshen_quoted, freshen_types,
  freshen_side_effects,
}
use patch_seq.Freshen.Renames.{
  RenamesType, RenamesTypes, RenamesStack, RenamesQuoted, RenamesEffects, Extends, Extends-refl,
  Extends-trans, more_types, more_stack, more_quoted,
}

insert_found :
    (k v : String) (m : HashMap String) (j b : String)
    → insert k v m j ≡ some b
    → ((j ≡ k) × (b ≡ v)) ⊎ (m j ≡ some b)
insert_found k v m j b h = elim (Bool-cases (j == k)) [
  | inl t ↦ inl ((eq_iff j k).0 t, (let e : some v ≡ some b = rw t at h in cc))
  | inr f ↦ inr (rw f at h)
]

insert_other :
    (k v : String) (m : HashMap String) (j b : String)
    → m k ≡ none
    → m j ≡ some b
    → insert k v m j ≡ some b
insert_other k v m j b free h = elim (Bool-cases (j == k)) [
  | inl t ↦
      let e : j ≡ k = (eq_iff j k).0 t in
      let g : m k ≡ some b = subst (λ i. m i ≡ some b) e h in absurd (cc (g, free))
  | inr f ↦ rw f h
]

insert_self : (k v : String) (m : HashMap String) → insert k v m k ≡ some v
insert_self k v m = rw ((eq_iff k k).1 refl) refl

module _ (format : String → ℕ → String)
    (numbered : (p q : String) (n m : ℕ) → format p n ≡ format q m → n ≡ m) (low : ℕ) where
  -- The names in the map have numbers from `low` to the counter, each its own.
  pub record Numbers (counter : ℕ) (names : HashMap String) : Type 0 where
    pub number :
        (a b : String) → names a ≡ some b → (k : ℕ) × (low ≤ k) × (k < counter) × (b ≡ format a k)
    pub apart : (a c b : String) → names a ≡ some b → names c ≡ some b → a ≡ c

  later : (n : ℕ) (names : HashMap String) → Numbers n names → Numbers (n + 1) names
  later n names v = record {
    number = λ a b h. let (k, l, u, e) = v.number a b h in (k, l, omega arith, e);
    apart = v.apart;
  }

  inserted :
      (n : ℕ) (names : HashMap String) (name : String)
      → low ≤ n
      → Numbers n names
      → Numbers (n + 1) (insert name (format name n) names)
  inserted n names name l v = record {
    number = λ a b h. elim (insert_found name (format name n) names a b h) [
      | inl (e, f) ↦ (n, l, omega arith, f ∙ subst (λ x. format name n ≡ format x n) (sym e) refl)
      | inr g ↦ let (k, lk, u, e) = v.number a b g in (k, lk, omega arith, e)
    ];
    apart = λ a c b h g. elim (insert_found name (format name n) names a b h) [
      | inl (e, f) ↦ elim (insert_found name (format name n) names c b g) [
        | inl (e', f') ↦ e ∙ sym e'
        | inr old ↦ absurd (taken c b f old)
      ]
      | inr old ↦ elim (insert_found name (format name n) names c b g) [
        | inl (e', f') ↦ absurd (taken a b f' old)
        | inr old' ↦ v.apart a c b old old'
      ]
    ];
  }
    where
      taken : (c b : String) → b ≡ format name n → names c ≡ some b → ⊥
      taken c b f old =
          let (k, lk, u, e) = v.number c b old in
          let same : n ≡ k = numbered name c n k (sym f ∙ e) in omega (arith, same, u)

  pub record Valid (s : Names) : Type 0 where
    pub least : low ≤ s.counter
    pub types : Numbers s.counter s.types
    pub rows : Numbers s.counter s.rows

  -- A step from `s` to `s'` that gives something related to what it got.
  pub record Renamed (s s' : Names) (Related : Names → Type 0) : Type 0 where
    pub valid : Valid s'
    pub extends : Extends s s'
    pub related : Related s'

  type_entry_lem :
      (name : String) (s : Names)
      → Valid s
      → Renamed s
          (type_entry format name (s.types name) s).1
          (λ r. r.types name ≡ some (type_entry format name (s.types name) s).0)
  type_entry_lem name s v = elim (Option-cases (s.types name)) [
    | inr (fresh, e) ↦ rw e (record { valid = v; extends = Extends-refl; related = e })
    | inl e ↦ rw e (record {
      valid = record {
        least = omega (arith, v.least);
        types = inserted s.counter s.types name v.least v.types;
        rows = later s.counter s.rows v.rows;
      };
      extends = record {
        types = λ {a} {b} h. insert_other name (format name s.counter) s.types a b e h;
        rows = λ h. h;
      };
      related = insert_self name (format name s.counter) s.types;
    })
  ]

  row_entry_lem :
      (name : String) (s : Names)
      → Valid s
      → Renamed s
          (row_entry format name (s.rows name) s).1
          (λ r. r.rows name ≡ some (row_entry format name (s.rows name) s).0)
  row_entry_lem name s v = elim (Option-cases (s.rows name)) [
    | inr (fresh, e) ↦ rw e (record { valid = v; extends = Extends-refl; related = e })
    | inl e ↦ rw e (record {
      valid = record {
        least = omega (arith, v.least);
        types = later s.counter s.types v.types;
        rows = inserted s.counter s.rows name v.least v.rows;
      };
      extends = record {
        types = λ h. h;
        rows = λ {a} {b} h. insert_other name (format name s.counter) s.rows a b e h;
      };
      related = insert_self name (format name s.counter) s.rows;
    })
  ]

  followed :
      {s s' s'' : Names} {P Q R : Names → Type 0}
      → Renamed s s' P
      → Renamed s' s'' Q
      → (Extends s' s'' → P s' → Q s'' → R s'')
      → Renamed s s'' R
  followed a b join = record {
    valid = b.valid;
    extends = Extends-trans a.extends b.extends;
    related = join b.extends a.related b.related;
  }

  unchanged : (s : Names) {P : Names → Type 0} → Valid s → P s → Renamed s s P
  unchanged s v p = record { valid = v; extends = Extends-refl; related = p }

  mutual
    unfolding freshen_stack

    pub freshen_stack_lem :
        (stack : StackType) (s : Names)
        → Valid s
        → Renamed s
            (freshen_stack format stack s).1
            (λ r. RenamesStack r stack (freshen_stack format stack s).0)
    freshen_stack_lem empty s v = unchanged s v RenamesStack.empty
    freshen_stack_lem (row_var name) s v =
        let e = row_entry_lem name s v in
        record { valid = e.valid; extends = e.extends; related = RenamesStack.row_var e.related }
    freshen_stack_lem (cons rest top) s v =
        let r = freshen_stack_lem rest s v in
        followed r (freshen_type_lem top (freshen_stack format rest s).1 r.valid)
          (λ x p q. RenamesStack.cons (more_stack x p) q)

    freshen_type_lem :
        (ty : Ty) (s : Names)
        → Valid s
        → Renamed s
            (freshen_type format ty s).1
            (λ r. RenamesType r ty (freshen_type format ty s).0)
    freshen_type_lem (var name) s v =
        let e = type_entry_lem name s v in
        record { valid = e.valid; extends = e.extends; related = RenamesType.var e.related }
    freshen_type_lem (quotation e) s v =
        let q = freshen_quoted_lem e s v in
        record { valid = q.valid; extends = q.extends; related = RenamesType.quotation q.related }
    freshen_type_lem (closure e captures) s v =
        let q = freshen_quoted_lem e s v in
        followed q (freshen_types_lem captures (freshen_quoted format e s).1 q.valid)
          (λ x p c. RenamesType.closure (more_quoted x p) c)
    freshen_type_lem int s v = unchanged s v RenamesType.int
    freshen_type_lem float s v = unchanged s v RenamesType.float
    freshen_type_lem bool s v = unchanged s v RenamesType.bool
    freshen_type_lem string s v = unchanged s v RenamesType.string
    freshen_type_lem symbol s v = unchanged s v RenamesType.symbol
    freshen_type_lem channel s v = unchanged s v RenamesType.channel
    freshen_type_lem socket s v = unchanged s v RenamesType.socket
    freshen_type_lem variant s v = unchanged s v RenamesType.variant
    freshen_type_lem (union name) s v = unchanged s v RenamesType.union

    freshen_quoted_lem :
        (e : Effect) (s : Names)
        → Valid s
        → Renamed s
            (freshen_quoted format e s).1
            (λ r. RenamesQuoted r e (freshen_quoted format e s).0)
    freshen_quoted_lem (effect inputs outputs effects) s v =
        let i = freshen_stack_lem inputs s v in
        followed i (freshen_stack_lem outputs (freshen_stack format inputs s).1 i.valid)
          (λ x p q. RenamesQuoted.effect (more_stack x p) q)

    freshen_types_lem :
        (tys : Tys) (s : Names)
        → Valid s
        → Renamed s
            (freshen_types format tys s).1
            (λ r. RenamesTypes r tys (freshen_types format tys s).0)
    freshen_types_lem nil s v = unchanged s v RenamesTypes.nil
    freshen_types_lem (more ty tys) s v =
        let t = freshen_type_lem ty s v in
        followed t (freshen_types_lem tys (freshen_type format ty s).1 t.valid)
          (λ x p q. RenamesTypes.more (more_types x p) q)

  pub freshen_side_effects_lem :
      (effects : SideEffects) (s : Names)
      → Valid s
      → Renamed s
          (freshen_side_effects format effects s).1
          (λ r. RenamesEffects r effects (freshen_side_effects format effects s).0)
  unfolding freshen_side_effects
  freshen_side_effects_lem pure s v = unchanged s v RenamesEffects.pure
  freshen_side_effects_lem (yield ty effects) s v =
      let t = freshen_type_lem ty s v in
      followed t (freshen_side_effects_lem effects (freshen_type format ty s).1 t.valid)
        (λ x p q. RenamesEffects.yield (more_types x p) q)
