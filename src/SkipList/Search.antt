-- ===== src/SkipList/Search.antt =====
-- The searches stop, on each level, at the last node in front of the place that they look for.
use bo_atom.Prelude.{
  ℕ, zero, suc, ◌+◌, ◌<◌, ◌≤◌, ◌≡◌, refl, ◌∙◌, Bool, true, false, some, List, [], ◌∷◌, ◌++◌, ◌==◌,
  ◌%◌, ltb, if◌then◌else◌, arith, length, length-append, Bool-cases, inl, inr, ap, sym,
}
use bo_atom.SkipList.{Zsl, Updates, put, walk, descend}
use bo_atom.SkipList.Chain.{
  Entry, IsSkip, from, reach, stop, any_over, Linked, Holds, from-under, from-over, from-zero,
}
use bo_atom.SkipList.Parts.{any_over-append}
use bo_atom.SkipList.Stops.{stop-stays, stop-forget}

module _ {ℓ} {A : Type ℓ} (test : A → ℕ → Bool) where
  -- The test holds at every object of the list, at its rank; `k` nodes are before the list.
  abbrev pub Passes : ℕ → List (Entry A) → Type 0
  Passes k [] = Unit
  Passes k (e ∷ es) = (test e.obj (suc k) ≡ true) × Passes (suc k) es

  abbrev pub Fails : ℕ → List (Entry A) → Type 0
  Fails k [] = Unit
  Fails k (e ∷ es) = (test e.obj (suc k) ≡ false) × Fails (suc k) es

module _ {ℓ} {A : Type ℓ} (word : ℕ) (test : A → ℕ → Bool) where
  module _ (z : Zsl A) (i : ℕ) where
    -- The next node that has the level fails the test.
    stays :
        (f d r x k : ℕ) (es : List (Entry A))
        → k ≡ r + d
        → z.column i x ≡ some (from d (reach i es))
        → Holds z.obj es
        → Fails test k es
        → k + length es < word
        → walk word test (suc f) z i (x, r) ≡ some (x, r)
    unfolding walk
    stays f d r x k [] e c o t w = rw c
    stays f d r x k (n ∷ es) e c o t w = elim (Bool-cases (ltb i n.height)) [
      | inl over ↦
          let at : (r + (d + 1)) % word ≡ suc k = grind arith in
          rw (c ∙ ap some (from-over i d n es over), o.0, at, t.0)
      | inr under ↦
          stays f (d + 1) r x (suc k) es (omega arith) (c ∙ ap some (from-under i d n es under)) o.1
            t.1 (omega arith)
    ]

    moves :
        (f x r y s k : ℕ) (a : A)
        → z.column i x ≡ some (record { forward = some y; span = s })
        → z.obj y ≡ some (some a)
        → (r + s) % word ≡ k
        → test a k ≡ true
        → walk word test (suc f) z i (x, r) ≡ walk word test f z i (y, k)
    unfolding walk
    moves f x r y s k a c o e t = rw (c, o, e, t, e)

    -- When the test holds at `front` and fails at `back`, the loop goes on to the last node of
    -- `front` that has the level.
    passes :
        (f d r x k m : ℕ) (front back : List (Entry A))
        → k ≡ r + d
        → m ≡ k + length front
        → z.column i x ≡ some (from d (reach i (front ++ back)))
        → Linked i (z.column i) (front ++ back)
        → Holds z.obj (front ++ back)
        → Passes test k front
        → Fails test m back
        → k + length (front ++ back) < word
        → length front ≤ f
        → walk word test (suc f) z i (x, r) ≡ some (stop i (x, r) k front)
    passes f d r x k m [] back e em c l o p t w le =
        stays f d r x m back (omega arith) c o t (omega arith)
    passes zero d r x k m (n ∷ front) back e em c l o p t w le = absurd (omega arith)
    passes (suc f) d r x k m (n ∷ front) back e em c l o p t w le =
        elim (Bool-cases (ltb i n.height)) [
          | inl over ↦
              let at : (r + (d + 1)) % word ≡ suc k = grind arith in
              moves (suc f) x r n.at (d + 1) (suc k) n.obj
                (c ∙ ap some (from-over i d n (front ++ back) over)) o.0 at p.0
              ∙ passes f 0 (suc k) n.at (suc k) m front back (omega arith) (omega arith)
                  (l.0 over ∙ ap some (sym (from-zero (reach i (front ++ back))))) l.1 o.1 p.1 t
                  (omega arith) (omega arith)
              ∙ ap some (rw over refl)
          | inr under ↦ rw under (
              passes (suc f) (d + 1) r x (suc k) m front back (omega arith) (omega arith)
                (c ∙ ap some (from-under i d n (front ++ back) under)) l.1 o.1 p.1 t (omega arith)
                (omega arith))
        ]

    -- From where the level above stopped, the loop goes on to where this level stops.
    pub level_below :
        (f d r x k m : ℕ) (front back : List (Entry A))
        → k ≡ r + d
        → m ≡ k + length front
        → z.column i x ≡ some (from d (reach i (front ++ back)))
        → Linked i (z.column i) (front ++ back)
        → Holds z.obj (front ++ back)
        → Passes test k front
        → Fails test m back
        → k + length (front ++ back) < word
        → length front ≤ f
        → walk word test (suc f) z i (stop (suc i) (x, r) k front) ≡ some (stop i (x, r) k front)
    level_below f d r x k m [] back e em c l o p t w le =
        passes f d r x k m [] back e em c l o p t w le
    level_below f d r x k m (n ∷ front) back e em c l o p t w le =
        elim (Bool-cases (ltb i n.height)) [
          | inr under ↦
              let under' : ltb (suc i) n.height ≡ false = ground arith in
              rw (under, under')
                (level_below f (d + 1) r x (suc k) m front back (omega arith) (omega arith)
                  (c ∙ ap some (from-under i d n (front ++ back) under)) l.1 o.1 p.1 t (omega arith)
                  (omega arith))
          | inl over ↦
              let below =
                level_below f 0 (suc k) n.at (suc k) m front back (omega arith) (omega arith)
                  (l.0 over ∙ ap some (sym (from-zero (reach i (front ++ back))))) l.1 o.1 p.1 t
                  (omega arith) (omega arith) in
              elim (Bool-cases (any_over (suc i) front)) [
                | inl taller ↦
                    let same =
                      stop-forget (suc i) (suc i) (suc k)
                        (if ltb (suc i) n.height then (n.at, suc k) else (x, r)) (n.at, suc k) front
                        taller (omega arith) in
                    rw (over, same) below
                | inr none_taller ↦ elim (Bool-cases (ltb (suc i) n.height)) [
                  | inl over' ↦ rw (over, over') below
                  | inr under' ↦
                      rw (under', stop-stays (suc i) (suc k) (x, r) front none_taller)
                        (passes f d r x k m (n ∷ front) back e em c l o p t w le)
                ]
              ]
        ]

  module _ (z : Zsl A) (front back : List (Entry A)) (s : IsSkip z (front ++ back))
      (p : Passes test 0 front) (t : Fails test (length front) back)
      (w : length (front ++ back) < word) where
    -- The search records on each level the last node of `front` that has the level, and its rank.
    pub descend-stops :
        (n : ℕ) (u : Updates)
        → n ≤ z.level
        → (u' : Updates) × (descend word test n z (stop n (z.header, 0) 0 front) u
            ≡ some (u', (stop 0 (z.header, 0) 0 front).0, (stop 0 (z.header, 0) 0 front).1))
          × ((i : ℕ) → ltb i n ≡ true → u' i ≡ some (stop i (z.header, 0) 0 front))
          × ((i : ℕ) → ltb i n ≡ false → u' i ≡ u i)
    unfolding descend
    descend-stops zero u le = (u, refl, λ i h. absurd (ground arith), λ i h. refl)
    descend-stops (suc n) u le =
        let here = stop n (z.header, 0) 0 front in
        let (u', run, found, kept) = descend-stops n (put u n (some here)) (omega arith) in
        let step =
          level_below z n z.length 0 0 z.header 0 (length front) front back (omega arith)
            (omega arith)
            (s.head n (ground arith) ∙ ap some (sym (from-zero (reach n (front ++ back)))))
            (s.linked n) s.holds p t (omega arith)
            (omega (arith, s.counted, length-append front back)) in
        let add_one : z.length + 1 ≡ suc z.length = omega arith in
        (
          u',
          rw (add_one, step) run,
          λ i h. elim (Bool-cases (ltb i n)) [
            | inl below ↦ found i below
            | inr at ↦
                let e : i ≡ n = ground arith in
                let self : (n == n) ≡ true = ground arith in kept i at ∙ rw (e, self) refl
          ],
          λ i h.
              kept i (ground arith)
              ∙ (let other : (n == i) ≡ false = ground arith in rw other refl),
        )

    -- No tower is above the list's level, so the search starts at the header.
    pub search-stops :
        (u : Updates)
        → (u' : Updates) × (descend word test z.level z (z.header, 0) u
            ≡ some (u', (stop 0 (z.header, 0) 0 front).0, (stop 0 (z.header, 0) 0 front).1))
          × ((i : ℕ) → ltb i z.level ≡ true → u' i ≡ some (stop i (z.header, 0) 0 front))
          × ((i : ℕ) → ltb i z.level ≡ false → u' i ≡ u i)
    search-stops u =
        let (u', run, found, kept) = descend-stops z.level u (omega arith) in
        let start =
          stop-stays z.level 0 (z.header, 0) front (any_over-append z.level front back s.heights) in
        (u', ap (λ x. descend word test z.level z x u) (sym start) ∙ run, found, kept)
