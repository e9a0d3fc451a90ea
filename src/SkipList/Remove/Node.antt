-- ===== src/SkipList/Remove/Node.antt =====
-- zslDeleteNode takes the node out of the list that the structure stands for.
use bo_atom.Prelude.{
  ℕ, ◌+◌, ◌-◌, ◌%◌, ◌<◌, ◌≤◌, ◌≡◌, refl, ◌∙◌, ap, true, none, some, List, [], ◌∷◌, ◌++◌, ltb, arith,
  length, Bool-cases, inl, inr, length-append,
}
use bo_atom.SkipList.{Column, Updates, Zsl, u32_mod, u64_mod}
use bo_atom.SkipList.Chain.{Entry, IsSkip, reach, stop, Linked, last_of, reach-none, reach-first}
use bo_atom.SkipList.Parts.{Linked-none, Distinct-middle, Heights-right, none_over}
use bo_atom.SkipList.Columns.{within, each_level-all}
use bo_atom.SkipList.Insert.Keeps.{bind-some}
use bo_atom.SkipList.Remove.{unlink_level, unlink_back, delete_node}
use bo_atom.SkipList.Remove.Unlink.{unlink-Linked}
use bo_atom.SkipList.Remove.Lower.{lower-Heights}
use bo_atom.SkipList.Remove.Parts.{
  Holds-remove, Heights-remove, Absent-remove, backward_of, Backs-remove, unlink_back_lem,
  tail-remove,
}

module _ {ℓ} {A : Type ℓ} (z : Zsl A) (front back : List (Entry A)) (old : Entry A)
    (s : IsSkip z (front ++ old ∷ back)) (u : Updates)
    (stops : (i : ℕ) → ltb i z.level ≡ true → u i ≡ some (stop i (z.header, 0) 0 front))
    (w : length (front ++ old ∷ back) < u32_mod) where
  abbrev Right : ℕ → Column → Type 0
  Right i c =
      (c z.header ≡ some (reach i (front ++ back)))
      × Linked i c (front ++ back)
      × (ltb i old.height ≡ true → c old.at ≡ some (reach i back))

  unlinked_here :
      (i : ℕ)
      → within 0 z.level i ≡ true
      → (c : Column) × (unlink_level old.at u i (z.column i) ≡ some c) × Right i c
  unlinked_here i b =
      let inside : ltb i z.level ≡ true = ground arith in
      let (c, run, at, l, kept) =
        unlink-Linked u old i (length front) (z.column i) back z.header front (stops i inside) refl
          w (s.head i inside) (s.linked i) s.distinct.0 s.distinct.1 in
      (c, run, (at, l, kept))

  -- zslDeleteNode of the node behind the place where the search stopped follows no bad pointer; the
  -- structure then stands for the list without the node, and the node is still allocated.
  pub delete_node-IsSkip :
      (z' : Zsl A) × (delete_node old.at u z ≡ some z')
      × IsSkip z' (front ++ back)
      × (z'.obj ≡ z.obj)
      × (z'.header ≡ z.header)
      × (z'.level ≤ z.level)
      × (z'.has_free ≡ z.has_free)
      × (z'.freed ≡ z.freed)
  unfolding delete_node
  delete_node-IsSkip =
      let (cs, run, all, kept) =
        each_level-all z.level 0 (unlink_level old.at u) z.column Right unlinked_here in
      let (high, hs) = Heights-remove z.level front back old s.heights in
      let first_level : ltb 0 old.height ≡ true = ground arith in
      let (o, os) = Holds-remove z.obj front back old s.holds in
      let (b, bs, backs) = Backs-remove z.backward none front back old s.distinct.1 s.backs in
      let v = last_of none front in
      let heads : (i : ℕ) → ltb i z.level ≡ true → cs i z.header ≡ some (reach i (front ++ back)) =
        λ i b. (all i (ground arith)).0 in
      let (m, run', lo, hi, hs') =
        lower-Heights z.level cs z.header (front ++ back) s.low heads hs in
      let z₁ : Zsl A = record z {
        column = cs;
        backward = backward_of z.backward v back;
        tail = elim back [ [] ↦ v | _ ∷ _ ↦ z.tail ];
        length = (z.length + u64_mod - 1) % u64_mod;
        level = m;
      } in
      (
        z₁,
        bind-some run _
            ∙ bind-some ((all 0 (ground (arith, s.low))).2 first_level) _
            ∙ bind-some b _
            ∙ bind-some
                (ap (λ f. unlink_back f v (record z { column = cs }))
                    (reach-first z.level back (Heights-right z.level front back hs))
                  ∙ unlink_back_lem back v (some old.at) (record z { column = cs }) bs)
                _
            ∙ bind-some run' _,
        record {
          head_obj = s.head_obj;
          head = λ i b. heads i (ground arith);
          above = λ i b c. elim (Bool-cases (ltb i z.level)) [
            | inl inside ↦ (
              length (front ++ back),
              heads i inside
                  ∙ ap some (reach-none i (front ++ back) (none_over m i (front ++ back) hs' b)),
            )
            | inr outside ↦
                let (h, there) = s.above i outside c in
                (h, ap (λ (f : Column). f z.header) (kept i (ground arith)) ∙ there)
          ];
          linked = λ i. elim (Bool-cases (ltb i z.level)) [
            | inl inside ↦ (all i (ground arith)).1
            | inr outside ↦
                Linked-none i (cs i) (front ++ back)
                  (none_over z.level i (front ++ back) hs outside)
          ];
          holds = os;
          backs = backs;
          tail = tail-remove front back old z.tail s.tail;
          distinct = (
            (Absent-remove z.header front back old s.distinct.0).1,
            (Distinct-middle front back old s.distinct.1).2,
          );
          heights = hs';
          low = lo;
          high = omega (arith, s.high);
          counted =
              omega (arith, s.counted, length-append front (old ∷ back), length-append front back);
        },
        refl,
        refl,
        hi,
        refl,
        refl,
      )
