-- ===== src/KeyValue/Receive/Fuel.antt =====
-- The loops of _check_cmd_complete2 come to an end.
use bo_atom.Prelude.{
  ℕ, zero, suc, ◌+◌, ◌-◌, ◌≤◌, ◌<◌, ◌≡◌, ◌≢◌, false, none, some, List, [], ◌∷◌, leb, arith, ◌⊎◌,
  inl, inr,
}
use mathlib.Core.Path.{subst}
use bo_atom.Ae.Files.{Api}
use bo_atom.KeyValue.Items.{Items}
use bo_atom.KeyValue.Store.{Bytes, Dict}
use bo_atom.KeyValue.Receive.{
  one_item, store_item, item_loop, current_cmd, start, header, header_line, finish, check_loop,
  check_cmd_complete,
}
use bo_atom.KeyValue.Receive.State.{
  Session, Verdict, accepted, rejected, stray, endless, proceed, and_then, recv_cmd_length,
}
use bo_atom.KeyValue.Receive.Lines.{ends_at, line_end, star_from}

module _ {ℓ} {C : Type ℓ} where
  -- Fuel is left, and `Q` is true of where the code goes on.
  abbrev pub Goes : (ℕ → C → Type 0) → Verdict C → Type 0
  Goes Q (accepted c) = Unit
  Goes Q (rejected c) = Unit
  Goes Q stray = Unit
  Goes Q endless = ⊥
  Goes Q (proceed pre c) = Q pre c

  and_then-Goes :
      (Q R : ℕ → C → Type 0) (v : Verdict C) (k : ℕ → C → Verdict C)
      → Goes Q v
      → ((pre : ℕ) (c : C) → Q pre c → Goes R (k pre c))
      → Goes R (and_then v k)
  and_then-Goes Q R (accepted c) k g h = tt
  and_then-Goes Q R (rejected c) k g h = tt
  and_then-Goes Q R stray k g h = tt
  and_then-Goes Q R endless k g h = elim g [ ]
  and_then-Goes Q R (proceed pre c) k g h = h pre c g

line_end-le : (i e : ℕ) (bs : List ℕ) → line_end i bs ≡ ends_at e → i ≤ e
unfolding line_end
line_end-le i e [] h = absurd (ground arith)
line_end-le i e (b ∷ bs) h = ground (arith, line_end-le (suc i) e bs)

star_from-le : (n i j : ℕ) (bs : List ℕ) → star_from n i bs ≡ some j → i ≤ j
unfolding star_from
star_from-le zero i j bs h = absurd (ground arith)
star_from-le (suc n) i j [] h = absurd (ground arith)
star_from-le (suc n) i j (b ∷ bs) h = ground (arith, star_from-le n (suc i) j bs)

module _ {ℓ} {P E S D : Type ℓ} where
  one_item-Goes :
      (total pre p : ℕ) (c : Items) (s : Session P E S D)
      → Goes (λ pre' s'. pre < pre') (one_item total pre p c s)
  unfolding one_item store_item
  one_item-Goes total pre p c s = ground arith

  -- An item is missing from the command that is being received.
  abbrev Open : Session P E S D → Type 0
  Open s = elim (current_cmd s) [ none ↦ ⊥ | some (p, c) ↦ leb c.args_num c.cur_item ≡ false ]

  item_loop-Goes :
      (fuel total pre : ℕ) (s : Session P E S D)
      → total - pre < fuel
      → Goes (λ pre' s'. pre ≤ pre') (item_loop fuel total pre s)
  unfolding item_loop
  item_loop-Goes zero total pre s le = absurd (omega arith)
  item_loop-Goes (suc fuel) total pre s le =
      grind (arith, one_item-Goes total pre, item_loop-Goes fuel total)

  item_loop-Open :
      (fuel total pre : ℕ) (s : Session P E S D)
      → total - pre < suc fuel
      → Open s
      → Goes (λ pre' s'. pre < pre') (item_loop (suc fuel) total pre s)
  unfolding item_loop
  item_loop-Open fuel total pre s le lacks =
      grind (arith, one_item-Goes total pre, item_loop-Goes fuel total)

module _ {ℓ} {P E S D : Type ℓ} (api : Api S) (send_proc : P) (client : E) (dict : Dict D)
    (stale : Items → Bytes) where
  finish-Goes :
      (total pre : ℕ) (s : Session P E S D)
      → Goes
          (λ pre' s'. (pre ≡ pre') × (pre < total))
          (finish api send_proc client dict stale total pre s)
  unfolding finish
  finish-Goes total pre s = ground arith

  module _ (malloc : List (ℕ × Items) → ℕ) where
    header_line-Goes :
        (pre end : ℕ) (s : Session P E S D)
        → pre ≤ end
        → Goes
            (λ pre' s'. pre < pre')
            (header_line api send_proc client dict stale malloc pre end s)
    unfolding header_line
    header_line-Goes pre end s le = ground arith

    header-Goes :
        (total pre : ℕ) (s : Session P E S D)
        → Goes (λ pre' s'. pre < pre') (header api send_proc client dict stale malloc total pre s)
    unfolding header
    header-Goes total pre s = grind (arith, line_end-le, star_from-le, header_line-Goes)

    start-Goes :
        (total pre : ℕ) (s : Session P E S D)
        → Goes
            (λ pre' s'. (pre < pre') ⊎ ((pre ≡ pre') × Open s'))
            (start api send_proc client dict stale malloc total pre s)
    unfolding start
    start-Goes total pre s = grind (arith, header-Goes total pre s)

    -- the two loops behind the start of a pass
    items-Goes :
        (fuel total pre pre₁ : ℕ) (s : Session P E S D)
        → total - pre < suc fuel
        → (pre < pre₁) ⊎ ((pre ≡ pre₁) × Open s)
        → Goes (λ pre' s'. pre < pre') (item_loop (suc fuel) total pre₁ s)
    items-Goes fuel total pre pre₁ s le (inl further) =
        grind (arith, item_loop-Goes (suc fuel) total pre₁ s)
    items-Goes fuel total pre pre₁ s le (inr (here, lacks)) =
        grind (arith, item_loop-Open fuel total pre₁ s)

    check_loop-Goes :
        (fuel total pre : ℕ) (s : Session P E S D)
        → total - pre < fuel
        → Goes (λ pre' s'. ⊥) (check_loop api send_proc client dict stale malloc fuel total pre s)
    unfolding check_loop
    check_loop-Goes zero total pre s le = absurd (omega arith)
    check_loop-Goes (suc fuel) total pre s le =
        and_then-Goes _ _ (start api send_proc client dict stale malloc total pre s) _
          (start-Goes total pre s)
          (λ pre₁ s₁ started.
            and_then-Goes _ _ (item_loop (suc fuel) total pre₁ s₁) _
              (items-Goes fuel total pre pre₁ s₁ le started)
              (λ pre₂ s₂ further.
                and_then-Goes _ _ (finish api send_proc client dict stale total pre₂ s₂) _
                  (finish-Goes total pre₂ s₂)
                  (λ pre₃ s₃ (same, more). check_loop-Goes fuel total pre₃ s₃ (omega arith))))

    -- However the bytes look, the loops of _check_cmd_complete2 end within the fuel: it returns 0 or -1, or
    -- it reaches outside an array or through a bad pointer.
    pub check_cmd_complete-ends :
        (total : ℕ) (s : Session P E S D)
        → total ≤ recv_cmd_length
        → (check_cmd_complete api send_proc client dict stale malloc total s ≢ endless)
          × ((pre : ℕ) (t : Session P E S D)
              → check_cmd_complete api send_proc client dict stale malloc total s ≢ proceed pre t)
    unfolding check_cmd_complete
    check_cmd_complete-ends total s le =
        let goes = check_loop-Goes (recv_cmd_length + 2) total 0 s (omega arith) in
        (λ e. subst (Goes (λ pre' s'. ⊥)) e goes, λ pre t e. subst (Goes (λ pre' s'. ⊥)) e goes)
