-- ===== src/SkipList/Columns.antt =====
-- A loop over the levels changes each column on its own.
use bo_atom.Prelude.{
  ℕ, zero, suc, ◌+◌, ◌≡◌, refl, ◌∙◌, sym, true, false, Option, some, ◌==◌, ltb, leb, arith,
  Bool-cases, inl, inr, ◌&&◌, Bool,
}
use mathlib.Core.Path.{subst}
use bo_atom.SkipList.{Column, put, each_level}

abbrev pub within : ℕ → ℕ → ℕ → Bool
within i n j = leb i j && ltb j (i + n)

-- When the body gives on each level of the range a column with the property, so does the loop, and
-- the other levels stay.
pub each_level-all {ℓ} :
    (n i : ℕ) (body : ℕ → Column → Option Column) (cs : ℕ → Column) (Q : ℕ → Column → Type ℓ)
    → ((j : ℕ) → within i n j ≡ true → (c : Column) × (body j (cs j) ≡ some c) × Q j c)
    → (cs' : ℕ → Column) × (each_level n i body cs ≡ some cs')
      × ((j : ℕ) → within i n j ≡ true → Q j (cs' j))
      × ((j : ℕ) → within i n j ≡ false → cs' j ≡ cs j)
unfolding each_level
each_level-all zero i body cs Q h = (cs, refl, λ j b. absurd (ground arith), λ j b. refl)
each_level-all (suc n) i body cs Q h =
    let (c, run, q) = h i (ground arith) in
    let (cs', run', all, kept) =
      each_level-all n (suc i) body (put cs i c) Q
        (λ j b. let other : (i == j) ≡ false = ground arith in rw other (h j (ground arith))) in
    (
      cs',
      rw run run',
      λ j b. elim (Bool-cases (within (suc i) n j)) [
        | inl more ↦ all j more
        | inr first ↦
            let e : i ≡ j = ground arith in
            let self : (i == j) ≡ true = ground arith in
            subst (λ d. Q j d) (sym (kept j first ∙ rw self refl)) (subst (λ k. Q k c) e q)
      ],
      λ j b. let other : (i == j) ≡ false = ground arith in kept j (ground arith) ∙ rw other refl,
    )
