-- ===== src/SkipList/Edit.antt =====
-- A change of one column at the node where a search stopped is a change of the list there.
use bo_atom.Prelude.{
  ℕ, suc, ◌+◌, ◌≡◌, refl, ◌∙◌, sym, ap, false, Option, some, List, [], ◌∷◌, ◌++◌, ◌==◌, ltb, arith,
  length, Bool-cases, inl, inr, All,
}
use bo_atom.Server.Clients.Refines.{==_sym}
use bo_atom.SkipList.{Column}
use bo_atom.SkipList.Chain.{
  Entry, from, reach, stop, Linked, Absent, Distinct, from-zero, from-under, from-over,
}
use bo_atom.SkipList.Parts.{Absent-left}

-- `body` makes `after` of `before` in the links of column `i`, when the node `q` in front has the
-- level and sees `before` from `d` nodes before it; of the nodes at which `Free` holds it changes only `q`.
abbrev pub Edits {ℓ} :
    {A : Type ℓ}
    → (Column → Option Column)
    → ℕ
    → (ℕ → Type 0)
    → ℕ
    → Column
    → List (Entry A)
    → List (Entry A)
    → ℕ
    → ℕ × ℕ
    → Type 0
Edits body i Free m c before after d q =
    (c' : Column) × (body c ≡ some c')
    × (c' q.0 ≡ some (from d (reach i after)))
    × Linked i c' after
    × ((b : ℕ) → (q.0 == b) ≡ false → Free b → c' b ≡ c b)

module _ {ℓ} {A : Type ℓ} (body : Column → Option Column) (i : ℕ) (Free : ℕ → Type 0) (m : ℕ)
    (c : Column) (before after : List (Entry A)) where
  -- Such a change behind the last node of `mid` that has the level, or else behind `x`, changes
  -- the list behind `x`.
  pub edit_behind :
      (mid : List (Entry A)) (d r x k : ℕ)
      → ((d : ℕ) (q : ℕ × ℕ)
          → q ≡ stop i (x, r) k mid
          → m ≡ q.1 + d
          → c q.0 ≡ some (from d (reach i before))
          → Free q.0
          → Absent q.0 before
          → Edits body i Free m c before after d q)
      → k ≡ r + d
      → m ≡ k + length mid
      → c x ≡ some (from d (reach i (mid ++ before)))
      → Linked i c (mid ++ before)
      → Absent x (mid ++ before)
      → Distinct (mid ++ before)
      → All (λ e. Free e.at) mid
      → Free x
      → (c' : Column) × (body c ≡ some c')
        × (c' x ≡ some (from d (reach i (mid ++ after))))
        × Linked i c' (mid ++ after)
        × ((b : ℕ) → (x == b) ≡ false → Free b → Absent b mid → c' b ≡ c b)
  edit_behind [] d r x k base e em v l away dis new xp =
      let (c', run, at, linked, same) = base d (x, r) refl (omega arith) v xp away in
      (c', run, at, linked, λ b xb pb a. same b xb pb)
  edit_behind (n ∷ mid) d r x k base e em v l away dis new xp = elim (Bool-cases (ltb i n.height)) [
    | inl over ↦
        let (c', run, at, linked, same) =
          edit_behind mid 0 (suc k) n.at (suc k) (λ d q e'. base d q (e' ∙ rw over refl))
            (omega arith) (omega arith)
            (l.0 over ∙ ap some (sym (from-zero (reach i (mid ++ before))))) l.1 dis.0 dis.1 new.1
            new.0 in
        (
          c',
          run,
          same x (==_sym x n.at away.0) xp (Absent-left x mid before away.1)
              ∙ v
              ∙ ap some (
                  from-over i d n (mid ++ before) over ∙ sym (from-over i d n (mid ++ after) over)),
          (λ o. at ∙ ap some (from-zero (reach i (mid ++ after))), linked),
          λ b xb pb a. same b (==_sym b n.at a.0) pb a.1,
        )
    | inr under ↦
        let (c', run, at, linked, same) =
          edit_behind mid (d + 1) r x (suc k) (λ d q e'. base d q (e' ∙ rw under refl))
            (omega arith) (omega arith) (v ∙ ap some (from-under i d n (mid ++ before) under)) l.1
            away.1 dis.1 new.1 xp in
        (
          c',
          run,
          at ∙ ap some (sym (from-under i d n (mid ++ after) under)),
          (λ o. absurd (ground arith), linked),
          λ b xb pb a. same b xb pb a.1,
        )
  ]
