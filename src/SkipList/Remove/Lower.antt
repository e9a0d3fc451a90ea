-- ===== src/SkipList/Remove/Lower.antt =====
-- The loop of zslDeleteNode that lowers the list's level.
use bo_atom.Prelude.{
  ℕ, zero, suc, ◌<◌, ◌≤◌, ◌≡◌, refl, ◌∙◌, sym, ap, true, false, none, some, List, [], ◌∷◌, ltb,
  arith, Bool-cases, Option-cases, inl, inr,
}
use bo_atom.SkipList.{Level, Column}
use bo_atom.SkipList.Chain.{Entry, reach, any_over, Heights, from-under, from-over}
use bo_atom.SkipList.Remove.{lower}

lower-none :
    (n : ℕ) (cs : ℕ → Column) (header : ℕ) (l : Level)
    → cs (suc n) header ≡ some l
    → l.forward ≡ none
    → lower (suc (suc n)) cs header ≡ lower (suc n) cs header
unfolding lower
lower-none n cs header l e f = rw (e, f) refl

lower-some :
    (n : ℕ) (cs : ℕ → Column) (header y : ℕ) (l : Level)
    → cs (suc n) header ≡ some l
    → l.forward ≡ some y
    → lower (suc (suc n)) cs header ≡ some (suc (suc n))
unfolding lower
lower-some n cs header y l e f = rw (e, f) refl

module _ {ℓ} {A : Type ℓ} where
  forward-none : (i : ℕ) (es : List (Entry A)) → (reach i es).forward ≡ none → any_over i es ≡ false
  forward-none i [] e = refl
  forward-none i (f ∷ es) e = elim (Bool-cases (ltb i f.height)) [
    | inl over ↦ let wrong = sym (ap (λ (l : Level). l.forward) (from-over i 0 f es over)) ∙ e in cc
    | inr under ↦
        rw under
          (forward-none i es (sym (ap (λ (l : Level). l.forward) (from-under i 0 f es under)) ∙ e))
  ]

  lowered :
      (n : ℕ) (es : List (Entry A)) → Heights (suc n) es → any_over n es ≡ false → Heights n es
  lowered n [] h a = tt
  lowered n (e ∷ es) h a = (h.0, ground (arith, h.1), lowered n es h.2 (ground arith))

  -- The level ends at the highest tower, or at 1.
  pub lower-Heights :
      (n : ℕ) (cs : ℕ → Column) (header : ℕ) (es : List (Entry A))
      → 0 < n
      → ((i : ℕ) → ltb i n ≡ true → cs i header ≡ some (reach i es))
      → Heights n es
      → (m : ℕ) × (lower n cs header ≡ some m) × (0 < m) × (m ≤ n) × Heights m es
  unfolding lower
  lower-Heights zero cs header es pos seen h = absurd (omega arith)
  lower-Heights (suc zero) cs header es pos seen h = (1, refl, omega arith, omega arith, h)
  lower-Heights (suc (suc n)) cs header es pos seen h =
      elim (Option-cases ((reach (suc n) es).forward)) [
        | inr (y, some_y) ↦ (
          suc (suc n),
          lower-some n cs header y (reach (suc n) es) (seen (suc n) (ground arith)) some_y,
          omega arith,
          omega arith,
          h,
        )
        | inl null ↦
            let (m, run, lo, hi, h') =
              lower-Heights (suc n) cs header es (omega arith) (λ i b. seen i (ground arith))
                (lowered (suc n) es h (forward-none (suc n) es null)) in
            (
              m,
              lower-none n cs header (reach (suc n) es) (seen (suc n) (ground arith)) null ∙ run,
              lo,
              omega arith,
              h',
            )
      ]
