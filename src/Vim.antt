-- ===== src/Vim.antt =====
-- The line editor of crates/vim-line: the types of lib.rs and the state of vim.rs. A text is its
-- UTF-8 bytes, a character its scalar value. `none` is a panic.
pub mod Text
pub mod Moves
pub mod Edits
pub mod CommandLine
pub mod Modes
pub mod Session
pub mod Within
pub mod Ready
mod Steps
pub mod Typing
pub mod Paste
mod Tests
use patch_seq.Base.{ℕ, Bool, true, false, Option, none, some, List, [], ◌∷◌, ◌==◌}

pub data KeyCode : Type 0 where
  char : ℕ → KeyCode
  escape backspace delete left right up down home end tab enter : KeyCode

pub record Key : Type 0 where
  pub code : KeyCode
  pub ctrl : Bool
  pub alt : Bool
  pub shift : Bool

-- `Key::char`
abbrev pub plain : ℕ → Key
plain c = record { code = char c; ctrl = false; alt = false; shift = false }

pub data Action : Type 0 where
  submit history_prev history_next history_accept history_cancel cancel : Action
  history_search submit_command : List ℕ → Action

pub data TextEdit : Type 0 where
  delete : (start end : ℕ) → TextEdit
  insert : (pos : ℕ) → List ℕ → TextEdit

pub record EditResult : Type 0 where
  pub edits : List TextEdit
  pub yanked : Option (List ℕ)
  pub action : Option Action

-- `EditResult::none`, `EditResult::action` and `EditResult::edit`
abbrev pub unchanged : EditResult
unchanged = record { edits = []; yanked = none; action = none }

abbrev pub cursor_only : EditResult
cursor_only = unchanged

abbrev pub requested : Action → EditResult
requested a = record unchanged { action = some a }

abbrev pub edited : TextEdit → EditResult
edited e = record unchanged { edits = e ∷ [] }

abbrev pub edit_and_yank : TextEdit → List ℕ → EditResult
edit_and_yank e text = record { edits = e ∷ []; yanked = some text; action = none }

pub data Operator : Type 0 where
  delete change yank : Operator

pub data Mode : Type 0 where
  normal insert visual replace_char command_line : Mode
  operator_pending : Operator → Mode

pub record VimLineEditor : Type 0 where
  pub cursor : ℕ
  pub mode : Mode
  pub visual_anchor : Option ℕ
  pub yank_buffer : List ℕ
  pub command_mode_enabled : Bool
  pub command_buf : List ℕ
  pub command_cursor : ℕ

abbrev pub new : VimLineEditor
new = record {
  cursor = 0;
  mode = normal;
  visual_anchor = none;
  yank_buffer = [];
  command_mode_enabled = false;
  command_buf = [];
  command_cursor = 0;
}

abbrev pub with_command_mode : VimLineEditor → Bool → VimLineEditor
with_command_mode ed enabled = record ed { command_mode_enabled = enabled }

-- The editor after a key and what the host is told, or a panic.
abbrev pub Handled : Type 0
Handled = Option (VimLineEditor × EditResult)
