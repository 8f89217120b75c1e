-- ===== src/Vim/Ready.antt =====
-- What a key leaves behind on an ASCII text: the host can apply the edits, and the cursor is within
-- the text that they give.
pub mod Edits
pub mod CommandLine
pub mod Modes
pub mod Normal
pub mod Editing
pub mod Press
use patch_seq.Base.{
  ℕ, zero, suc, ◌+◌, ◌-◌, ◌<◌, ◌≤◌, ◌≡◌, refl, Bool, true, false, Option, none, some, List, [], ◌∷◌,
  ◌++◌, length, take, drop, arith, min, length-append, length-take, length-drop, Bool-cases, inl,
  inr,
}
use patch_seq.Base.Returns.{Returns, returns, Returns-bind}
use patch_seq.Vim.{
  KeyCode, char, VimLineEditor, TextEdit, delete, insert, EditResult, Handled, unchanged,
}
use patch_seq.Vim.Text.{part}
use patch_seq.Vim.Text.Ascii.{
  IsAscii, IsAscii-append, IsAscii-take, IsAscii-drop, ascii_remove, ascii_insert,
}
use patch_seq.Vim.Moves.{Motion, lookup, same_code}
use patch_seq.Vim.Session.{apply, apply_all}
use patch_seq.Vim.Within.{StaysWithin}

-- The buffers are ASCII, and the cursor of the command line is within its buffer.
abbrev pub IsReady : VimLineEditor → Type 0
IsReady ed =
    IsAscii ed.yank_buffer × IsAscii ed.command_buf × (ed.command_cursor ≤ length ed.command_buf)

-- A character key types an ASCII character.
abbrev pub IsAsciiCode : KeyCode → Type 0
IsAsciiCode (char c) = c < 128
IsAsciiCode _ = Unit {0}

abbrev pub YanksAscii : Option (List ℕ) → Type 0
YanksAscii none = Unit {0}
YanksAscii (some text) = IsAscii text

pub record Safe (text : List ℕ) (handled : VimLineEditor × EditResult) : Type 0 where
  pub text' : List ℕ
  pub applied : apply_all handled.1.edits text ≡ some text'
  pub ascii : IsAscii text'
  pub within : handled.0.cursor ≤ length text'
  pub ready : IsReady handled.0
  pub yanks : YanksAscii handled.1.yanked

module _ (text : List ℕ) (ed : VimLineEditor) (a : IsAscii text) (r : IsReady ed) where
  pub still-Safe :
      (result : EditResult)
      → ed.cursor ≤ length text
      → result.edits ≡ []
      → YanksAscii result.yanked
      → Safe text (ed, result)
  unfolding apply_all
  still-Safe result h e y = record {
    text' = text;
    applied = rw e refl;
    ascii = a;
    within = h;
    ready = r;
    yanks = y;
  }

  pub insert-Safe :
      (pos : ℕ) (inserted : List ℕ)
      → pos ≤ length text
      → IsAscii inserted
      → ed.cursor ≤ length text + length inserted
      → Safe text (ed, record unchanged { edits = insert pos inserted ∷ [] })
  unfolding apply_all apply
  insert-Safe pos inserted h i w =
      let before = take pos text ++ inserted in
      let after = drop pos text in
      record {
        text' = before ++ after;
        applied = ascii_insert text pos inserted a h;
        ascii =
            IsAscii-append before after (IsAscii-append _ inserted (IsAscii-take pos text a) i)
              (IsAscii-drop pos text a);
        within = omega (
          arith,
          h,
          w,
          length-append before after,
          length-append (take pos text) inserted,
          length-take pos text,
          length-drop pos text,
        );
        ready = r;
        yanks = tt;
      }

  pub delete-Safe :
      (start stop : ℕ) (yanked : Option (List ℕ))
      → start ≤ stop
      → stop ≤ length text
      → YanksAscii yanked
      → ed.cursor ≤ start
      → Safe text (ed, record unchanged { edits = delete start stop ∷ []; yanked = yanked })
  unfolding apply_all apply
  delete-Safe start stop yanked le h y w = record {
    text' = take start text ++ drop stop text;
    applied = ascii_remove text start stop a le h;
    ascii =
        IsAscii-append (take start text) (drop stop text) (IsAscii-take start text a)
          (IsAscii-drop stop text a);
    within = omega (
      arith,
      w,
      le,
      h,
      length-append (take start text) (drop stop text),
      length-take start text,
      length-drop stop text,
    );
    ready = r;
    yanks = y;
  }

-- A pair, as `AllWithin` wants them nested.
infixr 5 ◌&◌
abbrev pub ◌&◌ {ℓ κ} : {A : Type ℓ} {B : Type κ} → A → B → A × B
a & b = (a, b)

abbrev pub AllWithin : List ℕ → List (KeyCode × Motion) → Type 0
AllWithin text [] = Unit {0}
AllWithin text ((code, motion) ∷ arms) = StaysWithin text motion × AllWithin text arms

pub lookup_within :
    (text : List ℕ) (code : KeyCode) (arms : List (KeyCode × Motion)) (motion : Motion)
    → AllWithin text arms
    → lookup code arms ≡ some motion
    → StaysWithin text motion
unfolding lookup
lookup_within text code [] motion all e = cc
lookup_within text code ((k, m) ∷ arms) motion all e = elim (Bool-cases (same_code code k)) [
  | inl t ↦
      let h : some m ≡ some motion = rw t at e in let same : m ≡ motion = cc in rw (← same) all.0
  | inr f ↦ lookup_within text code arms motion all.1 (rw f at e)
]
