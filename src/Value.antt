-- ===== src/Value.antt =====
-- `Value` of crates/core/src/value.rs. A Float is its bit pattern, a string its bytes, a channel
-- handle the identity of its shared queue. The sharing inside a value (`Arc`) is not seen, so the
-- operations that may write behind such an `Arc` (`variant.append`, `list.push`, `list.set`) are not
-- modelled; no modelled operation does.
pub mod Fields
use patch_seq.Base.{ℕ, List, Bool}

pub data MapKey : Type 0 where
  int : ℕ → MapKey
  string : List ℕ → MapKey
  bool : Bool → MapKey

mutual
  pub data Value : Type 0 where
    int : ℕ → Value
    float : ℕ → Value
    bool : Bool → Value
    string : List ℕ → Value
    symbol : List ℕ → Value
    variant : List ℕ → Values → Value
    map : Entries → Value
    quotation : ℕ → ℕ → Value
    closure : ℕ → Values → Value
    channel : ℕ → Value
    weave_ctx : ℕ → ℕ → Value

  pub data Values : Type 0 where
    nil : Values
    cons : Value → Values → Values

  pub data Entries : Type 0 where
    empty : Entries
    entry : MapKey → Value → Entries → Entries
