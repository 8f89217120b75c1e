-- ===== src/Vim/Steps.antt =====
-- One key, when its handler and the host's edits are known.
use patch_seq.Base.{ℕ, ◌≤◌, ◌≡◌, refl, some, List, [], ◌∷◌, length, arith, min}
use patch_seq.Vim.{VimLineEditor, EditResult, Key}
use patch_seq.Vim.Moves.{clamp_cursor}
use patch_seq.Vim.Session.{apply_all, by_mode, store_yanked, handle_key, press, press_all}

clamped_within :
    (ed : VimLineEditor) (text : List ℕ) → ed.cursor ≤ length text → clamp_cursor ed text ≡ ed
unfolding clamp_cursor
clamped_within ed text h =
    let e : min ed.cursor (length text) ≡ ed.cursor = omega arith in rw e refl

pub press_lem :
    (ed ed' : VimLineEditor) (text text' : List ℕ) (key : Key) (result : EditResult)
    → ed.cursor ≤ length text
    → by_mode ed key text ≡ some (ed', result)
    → apply_all result.edits text ≡ some text'
    → press ed text key ≡ some (store_yanked ed' result.yanked, text')
unfolding press handle_key
press_lem ed ed' text text' key result h m e = rw (clamped_within ed text h, m, e) refl

pub press_all_lem :
    (ed ed' : VimLineEditor) (text text' : List ℕ) (key : Key) (keys : List Key)
    → press ed text key ≡ some (ed', text')
    → press_all ed text (key ∷ keys) ≡ press_all ed' text' keys
unfolding press_all
press_all_lem ed ed' text text' key keys e = rw e refl

pub press_all_nil : (ed : VimLineEditor) (text : List ℕ) → press_all ed text [] ≡ some (ed, text)
unfolding press_all
press_all_nil ed text = refl
