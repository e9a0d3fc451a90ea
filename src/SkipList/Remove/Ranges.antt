-- ===== src/SkipList/Remove/Ranges.antt =====
-- The range deletions remove the nodes in the range and no others; zslDelete reads before an array.
use bo_atom.Prelude.{
  ℕ, suc, ◌+◌, ◌<◌, ◌≡◌, ◌&&◌, refl, ◌∙◌, sym, ap, Bool, true, false, some, List, [], ◌∷◌, ◌++◌,
  if◌then◌else◌, arith, length, Bool-cases, inl, inr,
}
use Prim.Native.Nat.{Ordering}
use mathlib.Core.Path.{subst}
use bo_atom.SkipList.{Zsl, u32_mod, u64_mod, is_at_most, is_less}
use bo_atom.SkipList.Chain.{Entry, IsSkip}
use bo_atom.SkipList.Order.{
  IsOrder, IsSorted, before, after, before-after, before-Passes, after-Fails, less_down,
}
use bo_atom.SkipList.Search.{Fails}
use bo_atom.SkipList.Remove.{Range, below_min, in_max, delete_range}
use bo_atom.SkipList.Remove.Loop.{freed_with, delete_found-IsSkip}

module _ {ℓ} {A : Type ℓ} where
  pub after-IsSorted :
      (cmp : A → A → Ordering) (holds : A → Bool) (es : List (Entry A))
      → IsSorted cmp es
      → IsSorted cmp (after holds es)
  after-IsSorted cmp holds [] s = tt
  after-IsSorted cmp holds (e ∷ es) s = elim (Bool-cases (holds e.obj)) [
    | inl t ↦ rw t (after-IsSorted cmp holds es s.1)
    | inr f ↦ rw f s
  ]

  module _ (low high : A → Bool) where
    -- the list without the nodes that are not below the range and not above it
    abbrev pub outside : List (Entry A) → List (Entry A)
    outside [] = []
    outside (e ∷ es) =
        let rest = outside es in
        if low e.obj then e ∷ rest else if high e.obj then rest else e ∷ rest

    -- the nodes that are neither below nor above
    abbrev pub inside : List (Entry A) → List (Entry A)
    inside [] = []
    inside (e ∷ es) =
        let rest = inside es in if low e.obj then rest else if high e.obj then e ∷ rest else rest

    untouched :
        (k m : ℕ) (es : List (Entry A))
        → Fails (λ a r. low a) k es
        → Fails (λ a r. high a) m es
        → (outside es ≡ es) × (inside es ≡ [])
    untouched k m [] f g = (refl, refl)
    untouched k m (e ∷ es) f g =
        let (o, n) = untouched (suc k) (suc m) es f.1 g.1 in
        (rw (f.0, g.0) (ap (λ l. e ∷ l) o), rw (f.0, g.0) n)

    behind_low :
        (k m : ℕ) (es : List (Entry A))
        → Fails (λ a r. low a) k es
        → Fails (λ a r. high a) m (after high es)
        → (outside es ≡ after high es) × (inside es ≡ before high es)
    behind_low k m [] f g = (refl, refl)
    behind_low k m (e ∷ es) f g = elim (Bool-cases (high e.obj)) [
      | inl t ↦
          let g' : Fails (λ a r. high a) m (after high es) =
            subst (λ b. Fails (λ a r. high a) m (if b then after high es else e ∷ es)) t g in
          let (o, n) = behind_low (suc k) m es f.1 g' in
          (rw (f.0, t) o, rw (f.0, t) (ap (λ l. e ∷ l) n))
      | inr h ↦
          let g' : Fails (λ a r. high a) m (e ∷ es) =
            subst (λ b. Fails (λ a r. high a) m (if b then after high es else e ∷ es)) h g in
          let (o, n) = untouched (suc k) (suc m) es f.1 g'.1 in
          (rw (f.0, h) (ap (λ l. e ∷ l) o), rw (f.0, h) n)
    ]

    pub split_range :
        (k m : ℕ) (es : List (Entry A))
        → Fails (λ a r. low a) k (after low es)
        → Fails (λ a r. high a) m (after high (after low es))
        → (outside es ≡ before low es ++ after high (after low es))
          × (inside es ≡ before high (after low es))
    split_range k m [] f g = (refl, refl)
    split_range k m (e ∷ es) f g = elim (Bool-cases (low e.obj)) [
      | inl t ↦
          let (o, n) =
            split_range k m es
              (subst (λ b. Fails (λ a r. low a) k (if b then after low es else e ∷ es)) t f)
              (subst
                (λ b. Fails (λ a r. high a) m (after high (if b then after low es else e ∷ es))) t
                g) in
          (rw t (ap (λ l. e ∷ l) o), rw t n)
      | inr h ↦
          let (o, n) =
            behind_low k m (e ∷ es)
              (subst (λ b. Fails (λ a r. low a) k (if b then after low es else e ∷ es)) h f)
              (subst
                (λ b. Fails (λ a r. high a) m (after high (if b then after low es else e ∷ es))) h
                g) in
          (
            o
                ∙ ap
                    (λ b.
                      (if b then e ∷ before low es else [])
                      ++ after high (if b then after low es else e ∷ es))
                    (sym h),
            n ∙ ap (λ b. before high (if b then after low es else e ∷ es)) (sym h),
          )
    ]

module _ {ℓ} {A : Type ℓ} (cmp : A → A → Ordering) (r : Range A) where
  -- The object lies between the two bounds; a bound that is excluded is not in the range itself.
  abbrev pub is_within : A → Bool
  is_within a =
      (if r.minex then is_less (cmp r.low a) else is_at_most (cmp r.low a))
      && (if r.maxex then is_less (cmp a r.high) else is_at_most (cmp a r.high))

  -- the nodes whose objects are in the range, and the others
  abbrev pub selected : List (Entry A) → List (Entry A)
  selected [] = []
  selected (e ∷ es) = let rest = selected es in if is_within e.obj then e ∷ rest else rest

  abbrev pub unselected : List (Entry A) → List (Entry A)
  unselected [] = []
  unselected (e ∷ es) = let rest = unselected es in if is_within e.obj then rest else e ∷ rest

module _ {ℓ} {A : Type ℓ} (cmp : A → A → Ordering) (o : IsOrder cmp) where
  below_min-is_within : (r : Range A) (a : A) → below_min cmp r a ≡ true → is_within cmp r a ≡ false
  below_min-is_within r a h = ground (arith, o.swap a r.low)

  above_min-is_within :
      (r : Range A) (a : A) → below_min cmp r a ≡ false → is_within cmp r a ≡ in_max cmp r a
  above_min-is_within r a h = ground (arith, o.swap a r.low)

  -- The two tests of the code cut the list at the two bounds.
  pub cuts :
      (r : Range A) (es : List (Entry A))
      → (outside (below_min cmp r) (in_max cmp r) es ≡ unselected cmp r es)
        × (inside (below_min cmp r) (in_max cmp r) es ≡ selected cmp r es)
  cuts r [] = (refl, refl)
  cuts r (e ∷ es) =
      let (out, within) = cuts r es in
      elim (Bool-cases (below_min cmp r e.obj)) [
        | inl t ↦
            let no = below_min-is_within r e.obj t in
            (rw (t, no) (ap (λ l. e ∷ l) out), rw (t, no) within)
        | inr f ↦
            let same = above_min-is_within r e.obj f in
            elim (Bool-cases (in_max cmp r e.obj)) [
              | inl t ↦ (rw (f, same, t) out, rw (f, same, t) (ap (λ l. e ∷ l) within))
              | inr g ↦ (rw (f, same, g) (ap (λ l. e ∷ l) out), rw (f, same, g) within)
            ]
      ]

  pub below_min-down :
      (r : Range A) (a b : A)
      → is_at_most (cmp a b) ≡ true
      → below_min cmp r b ≡ true
      → below_min cmp r a ≡ true
  below_min-down r a b h k = elim (Bool-cases r.minex) [
    | inl ex ↦ rw ex (o.trans a b r.low h (rw ex at k))
    | inr inc ↦ rw inc (less_down cmp o a b r.low h (rw inc at k))
  ]

  pub in_max-down :
      (r : Range A) (a b : A)
      → is_at_most (cmp a b) ≡ true
      → in_max cmp r b ≡ true
      → in_max cmp r a ≡ true
  in_max-down r a b h k = elim (Bool-cases r.maxex) [
    | inl ex ↦ rw ex (less_down cmp o a b r.high h (rw ex at k))
    | inr inc ↦ rw inc (o.trans a b r.high h (rw inc at k))
  ]

  -- On a sorted list zslDeleteRange follows no bad pointer, and deletes, frees and counts exactly the
  -- nodes whose objects are in the range: not less than the lower bound, or greater than it if
  -- `minex` excludes it, and not greater than the upper bound, or less than it if `maxex` excludes
  -- it. The range may be empty.
  pub delete_range-IsSkip :
      (z : Zsl A) (es : List (Entry A)) (r : Range A)
      → IsSkip z es
      → IsSorted cmp es
      → length es < u32_mod
      → (z' : Zsl A) × (delete_range cmp r z ≡ some (z', length (selected cmp r es)))
        × IsSkip z' (unselected cmp r es)
        × (z'.freed ≡ freed_with z (selected cmp r es))
  unfolding delete_range
  delete_range-IsSkip z es r s sorted w =
      let low = below_min cmp r in
      let high = in_max cmp r in
      let front = before low es in
      let rest = after low es in
      let mid = before high rest in
      let back = after high rest in
      let cut : front ++ (mid ++ back) ≡ es =
        ap (λ l. front ++ l) (before-after high rest) ∙ before-after low es in
      let w' : length (front ++ (mid ++ back)) < u32_mod =
        subst (λ (l : List (Entry A)). length l < u32_mod) (sym cut) w in
      let sorted' = after-IsSorted cmp low es sorted in
      let low_fails = after-Fails low cmp (below_min-down r) (length front) es sorted in
      let high_fails =
        after-Fails high cmp (in_max-down r) (length front + length mid) rest sorted' in
      let (out_cut, within_cut) = cuts r es in
      let (out_split, within_split) =
        split_range low high (length front) (length front + length mid) es low_fails high_fails in
      let out = sym out_cut ∙ out_split in
      let within = sym within_cut ∙ within_split in
      let (z', run, done, freed) =
        delete_found-IsSkip u64_mod (λ a k. low a) (λ a k. high a) z front mid back
          (subst (λ l. IsSkip z l) (sym cut) s) w' (omega arith) (before-Passes low 0 es)
          (subst (λ l. Fails (λ a k. low a) (length front) l) (sym (before-after high rest))
            low_fails)
          (before-Passes high (length front) rest) high_fails in
      (
        z',
        run ∙ ap (λ (l : List (Entry A)). some (z', length l)) (sym within),
        subst (λ l. IsSkip z' l) (sym out) done,
        freed ∙ ap (λ l. freed_with z l) (sym within),
      )
