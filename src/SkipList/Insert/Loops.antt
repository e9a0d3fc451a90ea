-- ===== src/SkipList/Insert/Loops.antt =====
-- The two loops of zslInsert over the update array, on all levels.
use bo_atom.Prelude.{
  ℕ, ◌+◌, ◌-◌, ◌<◌, ◌≤◌, ◌≡◌, refl, ◌∙◌, true, false, none, some, List, ◌∷◌, ◌++◌, ◌==◌, ltb,
  if◌then◌else◌, arith, length, Bool-cases, inl, inr,
}
use bo_atom.Server.Clients.Refines.{==_sym}
use bo_atom.SkipList.{Column, Updates, Zsl, u32_mod, put, each_level}
use bo_atom.SkipList.Chain.{Entry, IsSkip, reach, stop, Linked, Absent, put-same, put-other}
use bo_atom.SkipList.Parts.{Linked-put, Heights-left}
use bo_atom.SkipList.Stops.{stop-rank}
use bo_atom.SkipList.Columns.{within, each_level-all}
use bo_atom.SkipList.Insert.{link_level, bump_level}
use bo_atom.SkipList.Insert.Links.{link-Linked, bump-Linked}

module _ {ℓ} {A : Type ℓ} (z : Zsl A) (front back : List (Entry A)) (s : IsSkip z (front ++ back))
    (new : Entry A) (u : Updates)
    (stops : (i : ℕ) → ltb i z.level ≡ true → u i ≡ some (stop i (z.header, 0) 0 front))
    (lo : 0 < new.height) (hi : new.height ≤ z.level) (away : Absent new.at (front ++ back))
    (hp : (z.header == new.at) ≡ false) (w : length (front ++ back) + 1 < u32_mod) where
  -- the columns behind zslCreateNode
  abbrev pub made : ℕ → Column
  made i =
      put (z.column i) new.at
        (if ltb i new.height then some (record { forward = none; span = 0 }) else none)

  made-Linked : (i : ℕ) → Linked i (made i) (front ++ back)
  made-Linked i = Linked-put i new.at (z.column i) _ (front ++ back) away (s.linked i)

  made-head : (i : ℕ) → ltb i z.level ≡ true → made i z.header ≡ some (reach i (front ++ back))
  made-head i b = put-other (z.column i) new.at z.header _ (==_sym z.header new.at hp) ∙ s.head i b

  abbrev pub Right : ℕ → Column → Type 0
  Right i c = (c z.header ≡ some (reach i (front ++ new ∷ back))) × Linked i c (front ++ new ∷ back)

  abbrev rank₀ : ℕ
  rank₀ = (stop 0 (z.header, 0) 0 front).1

  rank₀-length : rank₀ ≡ length front
  rank₀-length =
      stop-rank z.level 0 0 z.header front (Heights-left z.level front back s.heights) refl
      ∙ omega arith

  linked_here :
      (i : ℕ)
      → within 0 new.height i ≡ true
      → (c : Column) × (link_level new.at u rank₀ i (made i) ≡ some c) × Right i c
  linked_here i b =
      let over : ltb i new.height ≡ true = ground arith in
      let inside : ltb i z.level ≡ true = ground arith in
      let fresh : made i new.at ≡ some (record { forward = none; span = 0 }) =
        put-same (z.column i) new.at _ ∙ rw over refl in
      let (c, run, at, l) =
        link-Linked u new i rank₀ (made i) back z.header front (stops i inside) rank₀-length w
          (made-head i inside) (made-Linked i) s.distinct.0 s.distinct.1 away hp
          (record { forward = none; span = 0 }) over fresh in
      (c, run, (at, l))

  bumped_here :
      (i : ℕ)
      → within new.height (z.level - new.height) i ≡ true
      → (c : Column) × (bump_level u i (made i) ≡ some c) × Right i c
  bumped_here i b =
      let under : ltb i new.height ≡ false = ground arith in
      let inside : ltb i z.level ≡ true = ground arith in
      let (c, run, at, l) =
        bump-Linked u new i rank₀ (made i) back z.header front (stops i inside) rank₀-length w
          (made-head i inside) (made-Linked i) s.distinct.0 s.distinct.1 away hp under in
      (c, run, (at, l))

  -- Both loops end, and make the links of the list with the new node; above the list's level they
  -- change nothing.
  pub loops-Right :
      (cs : ℕ → Column) × (cs' : ℕ → Column) × (each_level new.height 0
          (link_level new.at u rank₀)
          made
        ≡ some cs)
      × (each_level (z.level - new.height) new.height (bump_level u) cs ≡ some cs')
      × ((i : ℕ) → ltb i z.level ≡ true → Right i (cs' i))
      × ((i : ℕ) → ltb i z.level ≡ false → cs' i ≡ made i)
  loops-Right =
      let (cs, run, all, kept) =
        each_level-all new.height 0 (link_level new.at u rank₀) made Right linked_here in
      let (cs', run', all', kept') =
        each_level-all (z.level - new.height) new.height (bump_level u) cs Right
          (λ i b. rw (kept i (ground arith)) (bumped_here i b)) in
      (
        cs,
        cs',
        run,
        run',
        λ i b. elim (Bool-cases (ltb i new.height)) [
          | inl over ↦ rw (kept' i (ground arith)) (all i (ground arith))
          | inr under ↦ all' i (ground arith)
        ],
        λ i b. kept' i (ground arith) ∙ kept i (ground arith),
      )
