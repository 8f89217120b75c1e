-- ===== src/Value/Fields.antt =====
-- The fields of a variant as a list.
use patch_seq.Base.{◌≡◌, refl, List, [], ◌∷◌, ap}
use patch_seq.Value.{Value, Values, nil, cons}

abbrev pub fields : Values → List Value
fields nil = []
fields (cons v vs) = v ∷ fields vs

abbrev pub values : List Value → Values
values [] = nil
values (v ∷ vs) = cons v (values vs)

pub fields-values : (vs : List Value) → fields (values vs) ≡ vs
fields-values [] = refl
fields-values (v ∷ vs) = ap (λ us. v ∷ us) (fields-values vs)
