-- ===== src/Motions/Brackets/Search.antt =====
-- The two bracket searches of crates/vim-line/src/vim/motions.rs undo each other.
use patch_seq.Base.{
  ℕ, zero, suc, ◌+◌, ◌-◌, ◌<◌, ◌≤◌, ◌≡◌, ◌≢◌, refl, sym, true, false, some, List, ◌==◌, arith,
  Bool-cases, inl, inr, ==_iff,
}
use patch_seq.Motions.{byte}
use patch_seq.Motions.Brackets.{find_from, find_before}

module _ (opening closing : ℕ) (text : List ℕ) (start : ℕ) (ne : opening ≢ closing) where
  -- A search back from the position, at this depth, finds the start.
  abbrev FindsBack : (depth pos : ℕ) → Type 0
  FindsBack d pos = find_before opening closing text d pos ≡ some start

  back_open :
      (d pos : ℕ) → 0 < d → byte text pos ≡ opening → FindsBack d pos → FindsBack (d + 1) (suc pos)
  unfolding find_before
  back_open d pos h e b =
      let not_close : (byte text pos == closing) ≡ false = ground arith in
      let is_open : (byte text pos == opening) ≡ true = ground arith in
      let deep : (d + 1 - 1 == 0) ≡ false = ground arith in
      let same : d + 1 - 1 ≡ d = omega arith in rw (not_close, is_open, deep, same) b

  back_close : (d pos : ℕ) → byte text pos ≡ closing → FindsBack (d + 1) pos → FindsBack d (suc pos)
  unfolding find_before
  back_close d pos e b =
      let is_close : (byte text pos == closing) ≡ true = ground arith in rw is_close b

  back_other :
      (d pos : ℕ)
      → (byte text pos == opening) ≡ false
      → (byte text pos == closing) ≡ false
      → FindsBack d pos
      → FindsBack d (suc pos)
  unfolding find_before
  back_other d pos o c b = rw (c, o) b

  -- What a search forward finds is a closing bracket, from where a search back finds the start.
  pub forward-back :
      (d n pos q : ℕ)
      → 0 < d
      → find_from opening closing text d n pos ≡ some q
      → FindsBack d pos
      → (byte text q ≡ closing) × (pos ≤ q) × (q < pos + n) × FindsBack 1 q
  unfolding find_from
  forward-back d zero pos q h e b = absurd (cc e)
  forward-back d (suc n) pos q h e b = elim (Bool-cases (byte text pos == opening)) [
    | inl o ↦
        let (c, l, u, k) =
          forward-back (d + 1) n (suc pos) q (omega arith) (rw o at e)
            (back_open d pos h ((==_iff _ _).0 o) b) in
        (c, omega (arith, l), omega (arith, u), k)
    | inr o ↦ elim (Bool-cases (byte text pos == closing)) [
      | inr c ↦
          let (c, l, u, k) =
            forward-back d n (suc pos) q h (rw (o, c) at e) (back_other d pos o c b) in
          (c, omega (arith, l), omega (arith, u), k)
      | inl c ↦ elim (Bool-cases (d - 1 == 0)) [
        | inl last ↦
            let here : pos ≡ q = cc (rw (o, c, last) at e) in
            let one : d ≡ 1 = ground arith in
            rw (sym here) ((==_iff _ _).0 c, omega arith, omega arith, rw one at b)
        | inr more ↦
            let d' : d - 1 + 1 ≡ d = omega (arith, h) in
            let (c, l, u, k) =
              forward-back (d - 1) n (suc pos) q (ground arith) (rw (o, c, more) at e)
                (back_close (d - 1) pos ((==_iff _ _).0 c) (rw d' b)) in
            (c, omega (arith, l), omega (arith, u), k)
      ]
    ]
  ]

  -- A search on from the position, at this depth, finds the start.
  abbrev FindsAhead : (depth n pos : ℕ) → Type 0
  FindsAhead d n pos = find_from opening closing text d n pos ≡ some start

  ahead_closing :
      (d n pos : ℕ)
      → 0 < d
      → byte text pos ≡ closing
      → FindsAhead d n (suc pos)
      → FindsAhead (d + 1) (suc n) pos
  unfolding find_from
  ahead_closing d n pos h e b =
      let not_open : (byte text pos == opening) ≡ false = ground arith in
      let is_close : (byte text pos == closing) ≡ true = ground arith in
      let deep : (d + 1 - 1 == 0) ≡ false = ground arith in
      let same : d + 1 - 1 ≡ d = omega arith in rw (not_open, is_close, deep, same) b

  ahead_opening :
      (d n pos : ℕ)
      → byte text pos ≡ opening
      → FindsAhead (d + 1) n (suc pos)
      → FindsAhead d (suc n) pos
  unfolding find_from
  ahead_opening d n pos e b =
      let is_open : (byte text pos == opening) ≡ true = ground arith in rw is_open b

  ahead_other :
      (d n pos : ℕ)
      → (byte text pos == opening) ≡ false
      → (byte text pos == closing) ≡ false
      → FindsAhead d n (suc pos)
      → FindsAhead d (suc n) pos
  unfolding find_from
  ahead_other d n pos o c b = rw (o, c) b

  -- What a search back finds is an opening bracket, from where a search forward finds the start.
  pub back-forward :
      (d n pos q : ℕ)
      → 0 < d
      → find_before opening closing text d pos ≡ some q
      → FindsAhead d n pos
      → (byte text q ≡ opening)
        × (q < pos)
        × ((k : ℕ) × (suc q + k ≡ pos + n) × FindsAhead 1 k (suc q))
  unfolding find_before
  back-forward d n zero q h e b = absurd (cc e)
  back-forward d n (suc pos) q h e b = elim (Bool-cases (byte text pos == closing)) [
    | inl c ↦
        let (o, u, (k, s, a)) =
          back-forward (d + 1) (suc n) pos q (omega arith) (rw c at e)
            (ahead_closing d n pos h ((==_iff _ _).0 c) b) in
        (o, omega (arith, u), (k, omega (arith, s), a))
    | inr c ↦ elim (Bool-cases (byte text pos == opening)) [
      | inr o ↦
          let (o', u, (k, s, a)) =
            back-forward d (suc n) pos q h (rw (c, o) at e) (ahead_other d n pos o c b) in
          (o', omega (arith, u), (k, omega (arith, s), a))
      | inl o ↦ elim (Bool-cases (d - 1 == 0)) [
        | inl last ↦
            let here : pos ≡ q = cc (rw (c, o, last) at e) in
            let one : d ≡ 1 = ground arith in
            rw (sym here) ((==_iff _ _).0 o, omega arith, (n, omega arith, rw one at b))
        | inr more ↦
            let d' : d - 1 + 1 ≡ d = omega (arith, h) in
            let (o', u, (k, s, a)) =
              back-forward (d - 1) (suc n) pos q (ground arith) (rw (c, o, more) at e)
                (ahead_opening (d - 1) n pos ((==_iff _ _).0 o) (rw d' b)) in
            (o', omega (arith, u), (k, omega (arith, s), a))
      ]
    ]
  ]

  pub back_start : byte text start ≡ opening → FindsBack 1 (suc start)
  unfolding find_before
  back_start e =
      let not_close : (byte text start == closing) ≡ false = ground arith in
      let is_open : (byte text start == opening) ≡ true = ground arith in
      rw (not_close, is_open) refl

  pub ahead_start : (n : ℕ) → byte text start ≡ closing → FindsAhead 1 (suc n) start
  unfolding find_from
  ahead_start n e =
      let not_open : (byte text start == opening) ≡ false = ground arith in
      let is_close : (byte text start == closing) ≡ true = ground arith in
      rw (not_open, is_close) refl
