-- ===== src/SkipList/Remove/Loop.antt =====
-- The loop of the range deletions.
use bo_atom.Prelude.{
  ℕ, zero, suc, ◌+◌, ◌<◌, ◌≤◌, ◌≡◌, refl, ◌∙◌, sym, ap, Bool, true, Option, none, some, List, [],
  ◌∷◌, ◌++◌, ◌==◌, ltb, if◌then◌else◌, arith, length, Bool-cases, inl, inr, length-append,
}
use mathlib.Core.List.{append_assoc, append-nil}
use mathlib.Core.Path.{subst}
use bo_atom.SkipList.{Level, Updates, Zsl, u32_mod, free_node}
use bo_atom.SkipList.Chain.{Entry, IsSkip, reach, stop, Holds, first, reach-first, from-zero}
use bo_atom.SkipList.Parts.{Absent-append, Distinct-middle, Heights-left, Heights-right}
use bo_atom.SkipList.Stops.{stop-rank, stop-cell}
use bo_atom.SkipList.Search.{Passes, Fails, search-stops}
use bo_atom.SkipList.Insert.Backs.{Linked-at}
use bo_atom.SkipList.Insert.Keeps.{bind-some}
use bo_atom.SkipList.Remove.{delete_node, delete_while, delete_found}
use bo_atom.SkipList.Remove.Parts.{Holds-remove, Heights-remove, Absent-remove, free_node-IsSkip}
use bo_atom.SkipList.Remove.Node.{delete_node-IsSkip}

module _ {ℓ} {A : Type ℓ} where
  abbrev pub objects : List (Entry A) → List A
  objects [] = []
  objects (e ∷ es) = e.obj ∷ objects es

  -- the calls of free_obj when these nodes are deleted
  abbrev pub freed_with : Zsl A → List (Entry A) → List A
  freed_with z es = if z.has_free then z.freed ++ objects es else z.freed

  pub freed_with-cons :
      (z z' : Zsl A) (e : Entry A) (es : List (Entry A))
      → z'.has_free ≡ z.has_free
      → z'.freed ≡ (if z.has_free then z.freed ++ e.obj ∷ [] else z.freed)
      → freed_with z' es ≡ freed_with z (e ∷ es)
  freed_with-cons z z' e es h f = elim (Bool-cases z.has_free) [
    | inl yes_free ↦
        rw (h, yes_free)
          (ap (λ (l : List A). l ++ objects es)
              (f ∙ ap (λ b. if b then z.freed ++ e.obj ∷ [] else z.freed) yes_free)
            ∙ append_assoc z.freed (e.obj ∷ []) (objects es))
    | inr no_free ↦
        rw (h, no_free) (f ∙ ap (λ b. if b then z.freed ++ e.obj ∷ [] else z.freed) no_free)
  ]

  pub freed_with-nil : (z : Zsl A) → z.freed ≡ freed_with z []
  freed_with-nil z = elim (Bool-cases z.has_free) [
    | inl yes_free ↦ rw (yes_free, append-nil) refl
    | inr no_free ↦ rw no_free refl
  ]

  module _ (more : A → ℕ → Bool) (front : List (Entry A)) (u : Updates) where
    abbrev pub Correct : Zsl A → Type 0
    Correct z = (i : ℕ) → ltb i z.level ≡ true → u i ≡ some (stop i (z.header, 0) 0 front)

    step :
        (z z₁ z₂ : Zsl A) (x f t removed : ℕ) (a : A) (l : Level)
        → z.obj x ≡ some (some a)
        → more a t ≡ true
        → z.column 0 x ≡ some l
        → delete_node x u z ≡ some z₁
        → free_node x z₁ ≡ some z₂
        → delete_while more (suc f) u (some x) t removed z
          ≡ delete_while more f u l.forward (t + 1) (removed + 1) z₂
    unfolding delete_while
    step z z₁ z₂ x f t removed a l o m c d e =
        bind-some o _ ∙ rw m (bind-some c _ ∙ bind-some d _ ∙ bind-some e _)

    -- one round of the loop
    round :
        (z : Zsl A) (rest : List (Entry A)) (old : Entry A) (f t removed : ℕ)
        → IsSkip z (front ++ old ∷ rest)
        → Correct z
        → length (front ++ old ∷ rest) < u32_mod
        → more old.obj t ≡ true
        → (z' : Zsl A) × (delete_while more (suc f) u (some old.at) t removed z
            ≡ delete_while more f u (first rest) (t + 1) (removed + 1) z')
          × IsSkip z' (front ++ rest)
          × Correct z'
          × ((es : List (Entry A)) → freed_with z' es ≡ freed_with z (old ∷ es))
    round z rest old f t removed s stops w holds =
        let (z₁, run, s₁, objs, h₁, le, frees, freed) =
          delete_node-IsSkip z front rest old s u stops w in
        let (o, os) = Holds-remove z.obj front rest old s.holds in
        let (lo, hs) = Heights-remove z.level front rest old s.heights in
        let (hp, away) = Absent-remove z.header front rest old s.distinct.0 in
        let (a, b, d) = Distinct-middle front rest old s.distinct.1 in
        let (z₂, run₂, s₂, h₂, l₂, frees₂, freed₂) =
          free_node-IsSkip z₁ (front ++ rest) old.at old.obj s₁
            (ap (λ (f : ℕ → Option (Option A)). f old.at) objs ∙ o) (ap (λ h. h == old.at) h₁ ∙ hp)
            (Absent-append old.at front rest a b) in
        (
          z₂,
          step z z₁ z₂ old.at f t removed old.obj (reach 0 rest) o holds
                (Linked-at 0 (z.column 0) front rest old (s.linked 0) (ground arith)) run run₂
              ∙ ap (λ n. delete_while more f u n (t + 1) (removed + 1) z₂)
                  (reach-first z.level rest (Heights-right z.level front rest hs)),
          s₂,
          λ i b.
              stops i (ground (arith, le, l₂))
              ∙ ap (λ h. some (stop i (h, 0) 0 front)) (sym (h₂ ∙ h₁)),
          λ es. freed_with-cons z z₂ old es (frees₂ ∙ frees) (
              freed₂
              ∙ ap (λ b. if b then z₁.freed ++ old.obj ∷ [] else z₁.freed) frees
              ∙ ap (λ (l : List A). if z.has_free then l ++ old.obj ∷ [] else l) freed),
        )

    stopped :
        (back : List (Entry A)) (z : Zsl A) (f k removed : ℕ)
        → Holds z.obj back
        → Fails more k back
        → delete_while more (suc f) u (first back) (suc k) removed z ≡ some (z, removed)
    unfolding delete_while
    stopped [] z f k removed o t = refl
    stopped (e ∷ back) z f k removed o t = rw (o.0, t.0) refl

    Holds-right :
        (obj : ℕ → Option (Option A)) (xs ys : List (Entry A)) → Holds obj (xs ++ ys) → Holds obj ys
    Holds-right obj [] ys h = h
    Holds-right obj (x ∷ xs) ys h = Holds-right obj xs ys h.1

    -- The loop ends in front of the first object at which `more` is false, and the structure then
    -- stands for the list without the nodes before that.
    pub delete_while-IsSkip :
        (mid back : List (Entry A)) (z : Zsl A) (f k removed : ℕ)
        → IsSkip z (front ++ (mid ++ back))
        → Correct z
        → length (front ++ (mid ++ back)) < u32_mod
        → Passes more k mid
        → Fails more (k + length mid) back
        → length mid ≤ f
        → (z' : Zsl A) × (delete_while more (suc f) u (first (mid ++ back)) (suc k) removed z
            ≡ some (z', removed + length mid))
          × IsSkip z' (front ++ back)
          × (z'.freed ≡ freed_with z mid)
    delete_while-IsSkip [] back z f k removed s stops w p t le = (
      z,
      stopped back z f k removed (Holds-right z.obj front back s.holds)
            (subst (λ n. Fails more n back) (omega arith) t)
          ∙ ap (λ n. some (z, n)) (omega arith),
      s,
      freed_with-nil z,
    )
    delete_while-IsSkip (old ∷ mid) back z zero k removed s stops w p t le = absurd (omega arith)
    delete_while-IsSkip (old ∷ mid) back z (suc f) k removed s stops w p t le =
        let (z₁, run, s₁, stops₁, frees) =
          round z (mid ++ back) old (suc f) (suc k) removed s stops w p.0 in
        let (z₂, run₂, s₂, freed) =
          delete_while-IsSkip mid back z₁ f (suc k) (removed + 1) s₁ stops₁
            (omega
              (arith, length-append front (mid ++ back), length-append front (old ∷ mid ++ back)))
            p.1 (subst (λ n. Fails more n back) (omega arith) t) (omega arith) in
        (
          z₂,
          run
              ∙ ap (λ n. delete_while more (suc f) u (first (mid ++ back)) n (removed + 1) z₁)
                  (omega arith)
              ∙ run₂
              ∙ ap (λ n. some (z₂, n)) (omega arith),
          s₂,
          freed ∙ frees mid,
        )

  -- When the first search passes `front` and stops there, and the loop's test holds at `mid` and not
  -- behind it, exactly the nodes of `mid` are deleted and freed, and counted.
  pub delete_found-IsSkip :
      (word : ℕ) (skip more : A → ℕ → Bool) (z : Zsl A) (front mid back : List (Entry A))
      → IsSkip z (front ++ (mid ++ back))
      → length (front ++ (mid ++ back)) < u32_mod
      → length (front ++ (mid ++ back)) < word
      → Passes skip 0 front
      → Fails skip (length front) (mid ++ back)
      → Passes more (length front) mid
      → Fails more (length front + length mid) back
      → (z' : Zsl A) × (delete_found word skip more z ≡ some (z', length mid))
        × IsSkip z' (front ++ back)
        × (z'.freed ≡ freed_with z mid)
  unfolding delete_found
  delete_found-IsSkip word skip more z front mid back s w w' p t p' t' =
      let (u, found, stops, kept) =
        search-stops word skip z front (mid ++ back) s p t w' (λ i. none) in
      let add_one : z.length + 1 ≡ suc z.length = omega arith in
      let (d, there) =
        stop-cell 0 (z.column 0) 0 0 z.header 0 front (mid ++ back)
          (s.head 0 (ground (arith, s.low))
            ∙ ap some (sym (from-zero (reach 0 (front ++ (mid ++ back))))))
          (s.linked 0) in
      let rank =
        stop-rank z.level 0 0 z.header front (Heights-left z.level front (mid ++ back) s.heights)
          refl in
      let (z', run, done, freed) =
        delete_while-IsSkip more front u mid back z z.length (length front) 0 s stops w p' t'
          (omega (arith, s.counted, length-append front (mid ++ back), length-append mid back)) in
      (
        z',
        bind-some found _
            ∙ bind-some there _
            ∙ ap
                (λ o.
                  delete_while more (z.length + 1) u o ((stop 0 (z.header, 0) 0 front).1 + 1) 0 z)
                (reach-first z.level (mid ++ back)
                  (Heights-right z.level front (mid ++ back) s.heights))
            ∙ ap (λ n. delete_while more (z.length + 1) u (first (mid ++ back)) n 0 z)
                (omega (arith, rank))
            ∙ ap (λ n. delete_while more n u (first (mid ++ back)) (suc (length front)) 0 z) add_one
            ∙ run
            ∙ ap (λ n. some (z', n)) (omega arith),
        done,
        freed,
      )
