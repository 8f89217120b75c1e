-- ===== src/Freshen.antt =====
-- Fresh names for the variables of an effect (crates/compiler/src/typechecker/freshen.rs). The counter
-- of the type checker and the two maps are passed through; `format` is `format!("{}${}", …)`.
pub mod Renames
pub mod Laws
pub mod Copies
mod Tests
use Prim.Native.String.{String}
use patch_seq.Base.{ℕ, ◌+◌, Option, none, some}
use patch_seq.Types.{
  SideEffects, Ty, Tys, StackType, Effect, pure, yield, effect, quotation, closure, var, empty,
  cons, row_var, nil, more,
}
use patch_seq.Unify.{HashMap, insert}

pub record Names : Type 0 where
  pub counter : ℕ
  pub types : HashMap String
  pub rows : HashMap String

-- `fresh_var`
abbrev pub fresh_var : (String → ℕ → String) → String → ℕ → String × ℕ
fresh_var format prefix counter = (format prefix counter, counter + 1)

-- `entry(name).or_insert_with(…)` in the map of the type variables, and of the rows.
abbrev pub type_entry : (String → ℕ → String) → String → Option String → Names → String × Names
type_entry format name (some fresh) s = (fresh, s)
type_entry format name none s =
    let (fresh, counter) = fresh_var format name s.counter in
    (fresh, record s { counter = counter; types = insert name fresh s.types })

abbrev pub row_entry : (String → ℕ → String) → String → Option String → Names → String × Names
row_entry format name (some fresh) s = (fresh, s)
row_entry format name none s =
    let (fresh, counter) = fresh_var format name s.counter in
    (fresh, record s { counter = counter; rows = insert name fresh s.rows })

unfoldable mutual
  pub freshen_stack : (String → ℕ → String) → StackType → Names → StackType × Names
  freshen_stack format empty s = (empty, s)
  freshen_stack format (row_var name) s =
      let (fresh, s') = row_entry format name (s.rows name) s in (row_var fresh, s')
  freshen_stack format (cons rest top) s =
      let (fresh_rest, s') = freshen_stack format rest s in
      let (fresh_top, s'') = freshen_type format top s' in (cons fresh_rest fresh_top, s'')

  pub freshen_type : (String → ℕ → String) → Ty → Names → Ty × Names
  freshen_type format (var name) s =
      let (fresh, s') = type_entry format name (s.types name) s in (var fresh, s')
  freshen_type format (quotation e) s =
      let (fresh, s') = freshen_quoted format e s in (quotation fresh, s')
  freshen_type format (closure e captures) s =
      let (fresh, s') = freshen_quoted format e s in
      let (fresh_captures, s'') = freshen_types format captures s' in
      (closure fresh fresh_captures, s'')
  freshen_type format ty s = (ty, s)

  -- The effect of a quotation or a closure, without its side effects.
  pub freshen_quoted : (String → ℕ → String) → Effect → Names → Effect × Names
  freshen_quoted format (effect inputs outputs _) s =
      let (fresh_inputs, s') = freshen_stack format inputs s in
      let (fresh_outputs, s'') = freshen_stack format outputs s' in
      (effect fresh_inputs fresh_outputs pure, s'')

  pub freshen_types : (String → ℕ → String) → Tys → Names → Tys × Names
  freshen_types format nil s = (nil, s)
  freshen_types format (more ty tys) s =
      let (fresh, s') = freshen_type format ty s in
      let (rest, s'') = freshen_types format tys s' in (more fresh rest, s'')

-- `freshen_side_effect` on each of the side effects.
unfoldable pub freshen_side_effects :
    (String → ℕ → String) → SideEffects → Names → SideEffects × Names
unfolding freshen_type
freshen_side_effects format pure s = (pure, s)
freshen_side_effects format (yield ty effects) s =
    let (fresh, s') = freshen_type format ty s in
    let (rest, s'') = freshen_side_effects format effects s' in (yield fresh rest, s'')

abbrev pub start : ℕ → Names
start counter = record { counter = counter; types = λ _. none; rows = λ _. none }

-- The effect with fresh names, and the names at the end.
unfoldable pub freshen_effect : (String → ℕ → String) → Effect → ℕ → Effect × Names
unfolding freshen_stack freshen_side_effects
freshen_effect format (effect inputs outputs effects) counter =
    let (fresh_inputs, s) = freshen_stack format inputs (start counter) in
    let (fresh_outputs, s') = freshen_stack format outputs s in
    let (fresh_effects, s'') = freshen_side_effects format effects s' in
    (effect fresh_inputs fresh_outputs fresh_effects, s'')
