-- ===== src/SkipList/Query/Ends.antt =====
-- The ends of a sorted list, and what zslIsInRange says about the nodes in the range.
use bo_atom.Prelude.{
  ℕ, ◌≡◌, refl, ◌∙◌, ap, Bool, true, false, not, ◌&&◌, ◌||◌, Option, none, some, List, [], ◌∷◌,
  ◌++◌, arith, All, All-map, Bool-cases, inl, inr, ◌>>=◌,
}
use Prim.Native.Nat.{Ordering}
use bo_atom.SkipList.{Level, Zsl, is_at_most}
use bo_atom.SkipList.Chain.{Entry, IsSkip, Holds, last_of, reach, reach-first}
use bo_atom.SkipList.Order.{IsOrder, IsSorted}
use bo_atom.SkipList.Query.{value_gte_min, value_lte_max, is_in_range, object_at}
use bo_atom.SkipList.Remove.{Range, below_min, in_max}
use bo_atom.SkipList.Remove.Ranges.{inside, below_min-down, in_max-down}

module _ {ℓ} {A : Type ℓ} where
  -- the last of `e` and the nodes behind it
  abbrev pub final : Entry A → List (Entry A) → Entry A
  final e [] = e
  final e (f ∷ es) = final f es

  pub last_of-final :
      (pre : Option ℕ) (e : Entry A) (es : List (Entry A))
      → last_of pre (e ∷ es) ≡ some (final e es).at
  last_of-final pre e [] = refl
  last_of-final pre e (f ∷ es) = last_of-final (some e.at) f es

  pub Holds-final :
      (obj : ℕ → Option (Option A)) (e : Entry A) (es : List (Entry A))
      → Holds obj (e ∷ es)
      → obj (final e es).at ≡ some (some (final e es).obj)
  Holds-final obj e [] h = h.0
  Holds-final obj e (f ∷ es) h = Holds-final obj f es h.1

  module _ (cmp : A → A → Ordering) (holds : A → Bool)
      (down : (a b : A) → is_at_most (cmp a b) ≡ true → holds b ≡ true → holds a ≡ true) where
    -- What holds at the last node holds at all.
    pub final-All :
        (e : Entry A) (es : List (Entry A))
        → IsSorted cmp (e ∷ es)
        → holds (final e es).obj ≡ true
        → All (λ f. holds f.obj ≡ true) (e ∷ es)
    final-All e [] s h = (h, tt)
    final-All e (f ∷ es) s h =
        let rest = final-All f es s.1 h in (down e.obj f.obj s.0.0 rest.0, rest)

    -- What does not hold at the first node holds at none.
    pub head-None :
        (e : Entry A) (es : List (Entry A))
        → IsSorted cmp (e ∷ es)
        → holds e.obj ≡ false
        → All (λ f. holds f.obj ≡ false) (e ∷ es)
    head-None e es s h = (h, All-map _ _ es (λ f le. not_there f.obj le) s.0)
      where
        not_there : (b : A) → is_at_most (cmp e.obj b) ≡ true → holds b ≡ false
        not_there b le = elim (Bool-cases (holds b)) [
          | inl t ↦ absurd (ground (arith, down e.obj b))
          | inr f ↦ f
        ]

  module _ (low high : A → Bool) where
    pub inside-low :
        (es : List (Entry A)) → All (λ f. low f.obj ≡ true) es → inside low high es ≡ []
    inside-low [] all = refl
    inside-low (e ∷ es) all = rw (all.0) (inside-low es all.1)

    pub inside-not_high :
        (es : List (Entry A)) → All (λ f. high f.obj ≡ false) es → inside low high es ≡ []
    inside-not_high [] all = refl
    inside-not_high (e ∷ es) all = elim (Bool-cases (low e.obj)) [
      | inl t ↦ rw t (inside-not_high es all.1)
      | inr f ↦ rw (f, all.0) (inside-not_high es all.1)
    ]

    pub inside-never :
        (es : List (Entry A)) → ((v : A) → low v ≡ false → high v ≡ false) → inside low high es ≡ []
    inside-never [] h = refl
    inside-never (e ∷ es) h = elim (Bool-cases (low e.obj)) [
      | inl t ↦ rw t (inside-never es h)
      | inr f ↦ rw (f, h e.obj f) (inside-never es h)
    ]

    pub inside-append :
        (xs ys : List (Entry A))
        → inside low high (xs ++ ys) ≡ inside low high xs ++ inside low high ys
    inside-append [] ys = refl
    inside-append (x ∷ xs) ys = elim (Bool-cases (low x.obj)) [
      | inl t ↦ rw t (inside-append xs ys)
      | inr f ↦ elim (Bool-cases (high x.obj)) [
        | inl g ↦ rw (f, g) (ap (λ l. x ∷ l) (inside-append xs ys))
        | inr g ↦ rw (f, g) (inside-append xs ys)
      ]
    ]

    pub inside-final :
        (pre : Option ℕ) (e : Entry A) (es : List (Entry A))
        → low (final e es).obj ≡ false
        → high (final e es).obj ≡ true
        → last_of pre (inside low high (e ∷ es)) ≡ some (final e es).at
    inside-final pre e [] l h = rw (l, h) refl
    inside-final pre e (f ∷ es) l h = elim (Bool-cases (low e.obj)) [
      | inl t ↦ rw t (inside-final pre f es l h)
      | inr n ↦ elim (Bool-cases (high e.obj)) [
        | inl g ↦ rw (n, g) (inside-final (some e.at) f es l h)
        | inr g ↦ rw (n, g) (inside-final pre f es l h)
      ]
    ]

module _ {ℓ} {A : Type ℓ} (cmp : A → A → Ordering) (o : IsOrder cmp) (r : Range A) where
  pub gte_min-below : (v : A) → not (value_gte_min cmp r v) ≡ below_min cmp r v
  gte_min-below v = ground arith

  never_in_range :
      r.low ≡ r.high
      → (r.minex || r.maxex) ≡ true
      → (v : A) → below_min cmp r v ≡ false
      → in_max cmp r v ≡ false
  never_in_range e ex v l = ground (arith, ap (λ c. cmp v c) e)

  range_head :
      (z : Zsl A) (l : Level) (x : ℕ) (v : A)
      → z.column 0 z.header ≡ some l
      → l.forward ≡ some x
      → z.obj x ≡ some (some v)
      → (z.column 0 z.header >>= (λ l. elim (l.forward) as (λ _. Option Bool) [
        | none ↦ some false
        | some x ↦ object_at z x >>= λ v. some (value_lte_max cmp r v)
      ]))
        ≡ some (in_max cmp r v)
  range_head z l x v h f o = rw (h, f, o) refl

  -- When zslIsInRange says no, no node is in the range; else the last node is not below the range and
  -- the first is not above it.
  abbrev pub Tells : Zsl A → List (Entry A) → Bool → Type ℓ
  Tells z es same =
      (b : Bool) × (is_in_range cmp same r z ≡ some b)
      × (b ≡ false → inside (below_min cmp r) (in_max cmp r) es ≡ [])
      × (b ≡ true
          → (e : Entry A) × (rest : List (Entry A)) × (es ≡ e ∷ rest)
            × (below_min cmp r (final e rest).obj ≡ false)
            × (in_max cmp r e.obj ≡ true))

  pub is_in_range_lem :
      (z : Zsl A) (es : List (Entry A)) (same : Bool)
      → IsSkip z es
      → IsSorted cmp es
      → (same ≡ true → r.low ≡ r.high)
      → Tells z es same
  unfolding is_in_range
  is_in_range_lem z es same s sorted ptr = elim (Bool-cases (same && (r.minex || r.maxex))) [
    | inl never ↦ (
      false,
      rw never refl,
      λ n.
          inside-never (below_min cmp r) (in_max cmp r) es
            (never_in_range (ptr (ground arith)) (ground arith)),
      λ t. absurd (ground arith),
    )
    | inr may ↦ not_empty es s sorted may
  ]
    where
      not_empty :
          (es : List (Entry A))
          → IsSkip z es
          → IsSorted cmp es
          → (same && (r.minex || r.maxex)) ≡ false
          → Tells z es same
      not_empty [] s sorted may =
          (false, rw (may, s.tail) refl, λ n. refl, λ t. absurd (ground arith))
      not_empty (e ∷ rest) s sorted may =
          let l = final e rest in
          let low = below_min cmp r in
          let t : z.tail ≡ some l.at = s.tail ∙ last_of-final none e rest in
          let at_last = Holds-final z.obj e rest s.holds in
          let gte = gte_min-below l.obj in
          elim (Bool-cases (low l.obj)) [
            | inl below ↦ (
              false,
              rw (may, t, at_last, gte, below) refl,
              λ n.
                  inside-low low (in_max cmp r) (e ∷ rest)
                    (final-All cmp low (below_min-down cmp o r) e rest sorted below),
              λ t. absurd (ground arith),
            )
            | inr enough ↦
                let head = s.head 0 (ground (arith, s.low)) in
                let forward = reach-first z.level (e ∷ rest) s.heights in
                (
                  in_max cmp r e.obj,
                  rw (may, t, at_last, gte, enough)
                      (range_head z (reach 0 (e ∷ rest)) e.at e.obj head forward s.holds.0),
                  λ n.
                      inside-not_high low (in_max cmp r) (e ∷ rest)
                        (head-None cmp (in_max cmp r) (in_max-down cmp o r) e rest sorted n),
                  λ y. (e, rest, refl, enough, y),
                )
          ]
