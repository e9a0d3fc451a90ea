-- ===== src/SkipList/Order.antt =====
-- What the operations expect of the comparison, and lists that are sorted by it.
use Prim.Native.Nat.{Ordering}
use Prim.Native.Nat.Ordering.{lt, eq, gt}
use bo_atom.Prelude.{
  ℕ, suc, ◌≡◌, refl, ap, Bool, true, false, List, [], ◌∷◌, ◌++◌, if◌then◌else◌, arith, All, All-map,
  Bool-cases, inl, inr,
}
use bo_atom.SkipList.{is_less, is_at_most}
use bo_atom.SkipList.Chain.{Entry}
use bo_atom.SkipList.Search.{Passes, Fails}

abbrev pub opposite : Ordering → Ordering
opposite o = elim o [ lt ↦ gt | eq ↦ eq | gt ↦ lt ]

-- A total order on objects, up to objects that compare as equal.
pub record IsOrder {ℓ} {A : Type ℓ} (cmp : A → A → Ordering) : Type ℓ where
  pub swap : (a b : A) → cmp b a ≡ opposite (cmp a b)
  pub trans :
      (a b c : A)
      → is_at_most (cmp a b) ≡ true
      → is_at_most (cmp b c) ≡ true
      → is_at_most (cmp a c) ≡ true

module _ {ℓ} {A : Type ℓ} (cmp : A → A → Ordering) where
  abbrev pub IsSorted : List (Entry A) → Type ℓ
  IsSorted [] = Unit
  IsSorted (e ∷ es) = All (λ f. is_at_most (cmp e.obj f.obj) ≡ true) es × IsSorted es

  module _ (o : IsOrder cmp) where
    pub less_down :
        (a b c : A)
        → is_at_most (cmp a b) ≡ true
        → is_less (cmp b c) ≡ true
        → is_less (cmp a c) ≡ true
    less_down a b c h k = ground (arith, o.swap a c, o.swap b c, o.trans c a b, o.trans a b c)

    pub most_down :
        (a b c : A)
        → is_at_most (cmp a b) ≡ true
        → is_at_most (cmp b c) ≡ true
        → is_at_most (cmp a c) ≡ true
    most_down = o.trans

    pub not_less : (a b : A) → is_less (cmp a b) ≡ false → is_at_most (cmp b a) ≡ true
    not_less a b h = ground (arith, o.swap a b)

    pub less-le : (a b : A) → is_less (cmp a b) ≡ true → is_at_most (cmp a b) ≡ true
    less-le a b h = ground arith

    -- `holds` is true at an object whenever it is at one that is not less.
    abbrev pub IsDown : (A → Bool) → Type ℓ
    IsDown holds = (a b : A) → is_at_most (cmp a b) ≡ true → holds b ≡ true → holds a ≡ true

module _ {ℓ} {A : Type ℓ} (holds : A → Bool) where
  -- the list up to the first object at which `holds` is false, and the rest
  abbrev pub before : List (Entry A) → List (Entry A)
  before [] = []
  before (e ∷ es) = if holds e.obj then e ∷ before es else []

  abbrev pub after : List (Entry A) → List (Entry A)
  after [] = []
  after (e ∷ es) = if holds e.obj then after es else e ∷ es

  pub before-after : (es : List (Entry A)) → before es ++ after es ≡ es
  before-after [] = refl
  before-after (e ∷ es) = elim (Bool-cases (holds e.obj)) [
    | inl t ↦ rw t (ap (λ l. e ∷ l) (before-after es))
    | inr f ↦ rw f refl
  ]

  pub before-Passes : (k : ℕ) (es : List (Entry A)) → Passes (λ a r. holds a) k (before es)
  before-Passes k [] = tt
  before-Passes k (e ∷ es) = elim (Bool-cases (holds e.obj)) [
    | inl t ↦ rw t (t, before-Passes (suc k) es)
    | inr f ↦ rw f tt
  ]

  module _ (cmp : A → A → Ordering)
      (down : (a b : A) → is_at_most (cmp a b) ≡ true → holds b ≡ true → holds a ≡ true) where
    above-Fails :
        (k : ℕ) (a : A) (es : List (Entry A))
        → holds a ≡ false
        → All (λ f. is_at_most (cmp a f.obj) ≡ true) es
        → Fails (λ a r. holds a) k es
    above-Fails k a [] h all = tt
    above-Fails k a (e ∷ es) h all = (
      elim (Bool-cases (holds e.obj)) [ inl t ↦ absurd (ground (arith, down a e.obj)) | inr f ↦ f ],
      above-Fails (suc k) a es h all.1,
    )

    pub after-Fails :
        (k : ℕ) (es : List (Entry A)) → IsSorted cmp es → Fails (λ a r. holds a) k (after es)
    after-Fails k [] s = tt
    after-Fails k (e ∷ es) s = elim (Bool-cases (holds e.obj)) [
      | inl t ↦ rw t (after-Fails k es s.1)
      | inr f ↦ rw f (f, above-Fails (suc k) e.obj es f s.0)
    ]

module _ {ℓ} {A : Type ℓ} (cmp : A → A → Ordering) where
  -- The new node goes behind the nodes whose objects are less.
  abbrev pub insert_sorted : Entry A → List (Entry A) → List (Entry A)
  insert_sorted new [] = new ∷ []
  insert_sorted new (e ∷ es) =
      if is_less (cmp e.obj new.obj) then e ∷ insert_sorted new es else new ∷ e ∷ es

  pub insert_sorted-split :
      (new : Entry A) (es : List (Entry A))
      → before (λ a. is_less (cmp a new.obj)) es ++ new ∷ after (λ a. is_less (cmp a new.obj)) es
        ≡ insert_sorted new es
  insert_sorted-split new [] = refl
  insert_sorted-split new (e ∷ es) = elim (Bool-cases (is_less (cmp e.obj new.obj))) [
    | inl t ↦ rw t (ap (λ l. e ∷ l) (insert_sorted-split new es))
    | inr f ↦ rw f refl
  ]

  All-insert {κ} :
      (P : Entry A → Type κ) (new : Entry A) (es : List (Entry A))
      → P new
      → All P es
      → All P (insert_sorted new es)
  All-insert P new [] p all = (p, tt)
  All-insert P new (e ∷ es) p all = elim (Bool-cases (is_less (cmp e.obj new.obj))) [
    | inl t ↦ rw t (all.0, All-insert P new es p all.1)
    | inr f ↦ rw f (p, all)
  ]

  pub insert_sorted-IsSorted :
      (o : IsOrder cmp) (new : Entry A) (es : List (Entry A))
      → IsSorted cmp es
      → IsSorted cmp (insert_sorted new es)
  insert_sorted-IsSorted o new [] s = (tt, tt)
  insert_sorted-IsSorted o new (e ∷ es) s = elim (Bool-cases (is_less (cmp e.obj new.obj))) [
    | inl t ↦ rw t (
      All-insert (λ f. is_at_most (cmp e.obj f.obj) ≡ true) new es (less-le cmp o e.obj new.obj t)
          s.0,
      insert_sorted-IsSorted o new es s.1,
    )
    | inr f ↦
        let le = not_less cmp o e.obj new.obj f in
        rw f ((le, All-map _ _ es (λ x h. o.trans new.obj e.obj x.obj le h) s.0), s)
  ]
