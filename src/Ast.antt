-- ===== src/Ast.antt =====
-- The statements of Seq (crates/compiler/src/ast/types.rs). A list of statements, an optional branch
-- and the arms of a match are types of their own in the block, since they hold one another. A float
-- is its bits.
pub mod Lower
pub mod Calls
mod Tests
use Prim.Native.String.{String}
use patch_seq.Types.{Effect}
use patch_seq.Base.{ℕ, Bool, true, false, List, Option, ltb, leb, ◌==◌, ◌&&◌, ◌||◌, if◌then◌else◌}

pub record Span : Type 0 where
  pub line : ℕ
  pub column : ℕ
  pub length : ℕ

pub record QuotationSpan : Type 0 where
  pub start_line : ℕ
  pub start_column : ℕ
  pub end_line : ℕ
  pub end_column : ℕ

unfoldable pub contains : QuotationSpan → (line column : ℕ) → Bool
contains s line column =
    if ltb line s.start_line || ltb s.end_line line
    then false
    else if (line == s.start_line) && ltb column s.start_column
    then false
    else if (line == s.end_line) && leb s.end_column column
    then false
    else true

pub data Pattern : Type 0 where
  variant : String → Pattern
  variant_with_bindings : (name : String) → (bindings : List String) → Pattern

mutual
  pub data Statement : Type 0 where
    int_literal float_literal : ℕ → Statement
    bool_literal : Bool → Statement
    string_literal : List ℕ → Statement
    symbol : String → Statement
    word_call : (name : String) → Option Span → Statement
    conditional : (then_branch : Statements) → (else_branch : Branch) → Option Span → Statement
    quotation : (id : ℕ) → (body : Statements) → Option QuotationSpan → Statement
    match_on : Arms → Option Span → Statement

  pub data Branch : Type 0 where
    missing : Branch
    present : Statements → Branch

  pub data Statements : Type 0 where
    nil : Statements
    cons : Statement → Statements → Statements

  pub data Arms : Type 0 where
    done : Arms
    arm : Pattern → (body : Statements) → Option Span → Arms → Arms

-- A word definition; its source location and the lints that it allows are left out.
pub record WordDef : Type 0 where
  pub name : String
  pub effect : Option Effect
  pub body : Statements
