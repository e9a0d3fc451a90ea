-- ===== src/SkipList/Insert/Raise.antt =====
-- When zslInsert raises the list's level, the header gets links to the end on the new levels.
use bo_atom.Prelude.{
  ℕ, ◌-◌, ◌%◌, ◌<◌, ◌≤◌, ◌≡◌, refl, ◌∙◌, sym, ap, true, none, some, List, ◌++◌, ltb, if◌then◌else◌,
  arith, length, Bool-cases, inl, inr,
}
use bo_atom.SkipList.{Column, Updates, Zsl, u32_mod, max_level, put}
use bo_atom.SkipList.Chain.{Entry, IsSkip, reach, stop, Linked, put-same, reach-none}
use bo_atom.SkipList.Parts.{Linked-put, none_over, Heights-le, Heights-left}
use bo_atom.SkipList.Stops.{stop-stays}
use bo_atom.SkipList.Columns.{within, each_level-all}
use bo_atom.SkipList.Insert.{raise_level, raise, raised_updates}

module _ {ℓ} {A : Type ℓ} (z : Zsl A) (es : List (Entry A)) (s : IsSkip z es) (level : ℕ)
    (max : level ≤ max_level) (w : length es < u32_mod) where
  abbrev pub raised : (ℕ → Column) → Zsl A
  raised cs = record z { column = cs; level = if ltb z.level level then level else z.level }

  abbrev Right : ℕ → Column → Type 0
  Right i c = (c z.header ≡ some (reach i es)) × Linked i c es

  raise_level-Right :
      (i : ℕ)
      → within z.level (level - z.level) i ≡ true
      → (c : Column) × (raise_level z.header z.length i (z.column i) ≡ some c) × Right i c
  unfolding raise_level
  raise_level-Right i b =
      let (h, there) = s.above i (ground arith) (ground arith) in
      let small : z.length % u32_mod ≡ length es = omega (arith, s.counted) in
      (
        put (z.column i) z.header (some (record { forward = none; span = length es })),
        rw (there, small) refl,
        (
          put-same (z.column i) z.header _
              ∙ ap some (sym (reach-none i es (none_over z.level i es s.heights (ground arith)))),
          Linked-put i z.header (z.column i) _ es s.distinct.0 (s.linked i),
        ),
      )

  -- The raise ends, and the structure stands for the same list.
  pub raise-IsSkip : (cs : ℕ → Column) × (raise level z ≡ some (raised cs)) × IsSkip (raised cs) es
  unfolding raise
  raise-IsSkip =
      let (cs, run, all, kept) =
        each_level-all (level - z.level) z.level (raise_level z.header z.length) z.column Right
          raise_level-Right in
      (
        cs,
        rw run refl,
        record {
          head_obj = s.head_obj;
          head = λ i b. elim (Bool-cases (within z.level (level - z.level) i)) [
            | inl new ↦ (all i new).0
            | inr old ↦ rw (kept i old) (s.head i (ground arith))
          ];
          above = λ i b c. rw (kept i (ground arith)) (s.above i (ground arith) c);
          linked = λ i. elim (Bool-cases (within z.level (level - z.level) i)) [
            | inl new ↦ (all i new).1
            | inr old ↦ rw (kept i old) (s.linked i)
          ];
          holds = s.holds;
          backs = s.backs;
          tail = s.tail;
          distinct = s.distinct;
          heights = Heights-le z.level _ es (ground arith) s.heights;
          low = ground (arith, s.low);
          high = ground (arith, s.high);
          counted = s.counted;
        },
      )

module _ {ℓ} {A : Type ℓ} (z : Zsl A) (front back : List (Entry A)) (s : IsSkip z (front ++ back))
    (level : ℕ) (u : Updates)
    (stops : (i : ℕ) → ltb i z.level ≡ true → u i ≡ some (stop i (z.header, 0) 0 front)) where
  -- On the new levels the search would have stopped at the header.
  pub raised-stops :
      (i : ℕ)
      → ltb i (if ltb z.level level then level else z.level) ≡ true
      → raised_updates level z u i ≡ some (stop i (z.header, 0) 0 front)
  raised-stops i b = elim (Bool-cases (ltb i z.level)) [
    | inl old ↦ rw old (stops i old)
    | inr new ↦
        let inside : ltb i level ≡ true = ground arith in
        rw (new, inside)
          (ap some (
            sym (
              stop-stays i 0 (z.header, 0) front
                (none_over z.level i front (Heights-left z.level front back s.heights) new))))
  ]
