-- ===== src/SkipList/Insert/Keeps.antt =====
-- zslInsert behind its search puts the new node into the list that the structure stands for.
use bo_atom.Prelude.{
  ℕ, ◌+◌, ◌%◌, ◌<◌, ◌≤◌, ◌≡◌, refl, ◌∙◌, sym, ap, true, false, Option, none, some, List, [], ◌∷◌,
  ◌++◌, ◌==◌, ltb, if◌then◌else◌, arith, length, length-append, Bool-cases, inl, inr, ◌>>=◌,
}
use bo_atom.Server.Clients.Refines.{==_sym}
use bo_atom.SkipList.{Column, Updates, Zsl, u32_mod, u64_mod, max_level, put, create_node}
use bo_atom.SkipList.Chain.{
  Entry, IsSkip, stop, Linked, Absent, Backs, first, last_of, put-same, put-other, reach-first,
}
use bo_atom.SkipList.Parts.{
  Linked-none, Absent-right, Heights-left, Heights-right, none_over, Absent-left,
}
use bo_atom.SkipList.Stops.{before-last}
use bo_atom.SkipList.Insert.{link_back, insert_raised, insert_at, raised_updates}
use bo_atom.SkipList.Insert.Backs.{
  Holds-put, Holds-insert, Absent-insert, Distinct-insert, Heights-insert, Linked-at, Backs-put,
  backward_of, Backs-insert, last_of-insert, last_of-append,
}
use bo_atom.SkipList.Insert.Raise.{raised, raise-IsSkip, raised-stops}
use bo_atom.SkipList.Insert.Loops.{loops-Right}

pub bind-some {ℓ κ} :
    {A : Type ℓ} {B : Type κ} {o : Option A} {a : A}
    → o ≡ some a
    → (f : A → Option B) → (o >>= f) ≡ f a
bind-some e f = ap (λ o. o >>= f) e

module _ {ℓ} {A : Type ℓ} where
  link_back_lem :
      (p : ℕ) (back : List (Entry A)) (pre : Option ℕ) (y : Zsl A)
      → Backs y.backward pre back
      → link_back p (first back) y
        ≡ some (record y {
          backward = backward_of y.backward p back;
          tail = elim back [ [] ↦ some p | _ ∷ _ ↦ y.tail ];
        })
  unfolding link_back
  link_back_lem p [] pre y b = refl
  link_back_lem p (e ∷ back) pre y b = rw (b.0) refl

  Backs-right :
      (b : ℕ → Option (Option ℕ)) (pre : Option ℕ) (front back : List (Entry A))
      → Backs b pre (front ++ back)
      → Backs b (last_of pre front) back
  Backs-right b pre [] back k = k
  Backs-right b pre (e ∷ front) back k = Backs-right b (some e.at) front back k.1

  tail-insert :
      (front back : List (Entry A)) (p : ℕ) (t : Option ℕ)
      → t ≡ last_of none (front ++ back)
      → elim back [ [] ↦ some p | _ ∷ _ ↦ t ] ≡ last_of (some p) back
  tail-insert front [] p t e = refl
  tail-insert front (y ∷ back) p t e = e ∙ last_of-append none front back y

module _ {ℓ} {A : Type ℓ} (z : Zsl A) (front back : List (Entry A)) (s : IsSkip z (front ++ back))
    (new : Entry A) (u : Updates)
    (stops : (i : ℕ) → ltb i z.level ≡ true → u i ≡ some (stop i (z.header, 0) 0 front))
    (lo : 0 < new.height) (hi : new.height ≤ z.level) (away : Absent new.at (front ++ back))
    (hp : (z.header == new.at) ≡ false) (w : length (front ++ back) + 1 < u32_mod) where
  abbrev before : Option ℕ
  before = let q = (stop 0 (z.header, 0) 0 front).0 in if q == z.header then none else some q

  abbrev with_links : (ℕ → Column) → Zsl A
  with_links cs = record (create_node new.at new.height new.obj z) {
    column = cs;
    backward =
        backward_of (put (create_node new.at new.height new.obj z).backward new.at (some before))
          new.at back;
    tail = elim back [ [] ↦ some new.at | _ ∷ _ ↦ z.tail ];
    length = (z.length + 1) % u64_mod;
  }

  pub insert_raised-IsSkip :
      (z' : Zsl A) × (insert_raised new.at new.height new.obj u z ≡ some z')
      × IsSkip z' (front ++ new ∷ back)
  unfolding insert_raised
  insert_raised-IsSkip =
      let (cs, cs', run, run', right, beyond) =
        loops-Right z front back s new u stops lo hi away hp w in
      let es' = front ++ new ∷ back in
      let backward' = put (put z.backward new.at (some none)) new.at (some before) in
      let all_backs : Backs backward' none (front ++ back) =
        Backs-put (put z.backward new.at (some none)) none new.at _ (front ++ back) away
          (Backs-put z.backward none new.at _ (front ++ back) away s.backs) in
      let backs' = Backs-right backward' none front back all_backs in
      let over : ltb 0 new.height ≡ true = ground arith in
      let low : ltb 0 z.level ≡ true = ground (arith, s.low) in
      let linked : (i : ℕ) → Linked i (cs' i) es' = λ i. elim (Bool-cases (ltb i z.level)) [
        | inl inside ↦ (right i inside).1
        | inr outside ↦ Linked-none i (cs' i) es' (
            none_over z.level i es' (Heights-insert z.level front back new lo hi s.heights) outside)
      ] in
      (
        with_links cs',
        bind-some (stops 0 low) _
            ∙ bind-some run _
            ∙ bind-some run' _
            ∙ bind-some (Linked-at 0 (cs' 0) front back new (linked 0) over) _
            ∙ ap
                (λ f.
                  link_back new.at f
                    (record (with_links cs') { backward = backward'; tail = z.tail }))
                (reach-first z.level back (Heights-right z.level front back s.heights))
            ∙ link_back_lem new.at back (last_of none front)
                (record (with_links cs') { backward = backward'; tail = z.tail }) backs'
            ∙ refl,
        record {
          head_obj = put-other z.obj new.at z.header _ (==_sym z.header new.at hp) ∙ s.head_obj;
          head = λ i b. (right i b).0;
          above = λ i b c.
              let (h, there) = s.above i b c in
              (
                h,
                ap (λ (f : Column). f z.header) (beyond i b)
                    ∙ put-other (z.column i) new.at z.header _ (==_sym z.header new.at hp)
                    ∙ there,
              );
          linked = linked;
          holds =
              Holds-insert (put z.obj new.at (some (some new.obj))) front back new
                (put-same z.obj new.at _) (Holds-put z.obj new.at _ (front ++ back) away s.holds);
          backs =
              Backs-insert backward' none front back new
                (put-same (put z.backward new.at (some none)) new.at _
                  ∙ ap some (
                      before-last z.level z.header front
                        (Absent-left z.header front back s.distinct.0)
                        (Heights-left z.level front back s.heights)))
                (Absent-right new.at front back away) s.distinct.1 all_backs;
          tail =
              tail-insert front back new.at z.tail s.tail
              ∙ sym (last_of-insert none front back new);
          distinct = (
            Absent-insert z.header front back new hp s.distinct.0,
            Distinct-insert front back new away s.distinct.1,
          );
          heights = Heights-insert z.level front back new lo hi s.heights;
          low = s.low;
          high = s.high;
          counted =
              omega (arith, s.counted, length-append front back, length-append front (new ∷ back));
        },
      )

module _ {ℓ} {A : Type ℓ} (z : Zsl A) (front back : List (Entry A)) (s : IsSkip z (front ++ back))
    (new : Entry A) (u : Updates)
    (stops : (i : ℕ) → ltb i z.level ≡ true → u i ≡ some (stop i (z.header, 0) 0 front))
    (lo : 0 < new.height) (hi : new.height ≤ max_level) (away : Absent new.at (front ++ back))
    (hp : (z.header == new.at) ≡ false) (w : length (front ++ back) + 1 < u32_mod) where
  pub insert_at-IsSkip :
      (z' : Zsl A) × (insert_at new.at new.height new.obj u z ≡ some z')
      × IsSkip z' (front ++ new ∷ back)
  unfolding insert_at
  insert_at-IsSkip =
      let (cs, run, s') = raise-IsSkip z (front ++ back) s new.height hi (omega arith) in
      let (z', run', done) =
        insert_raised-IsSkip (raised z (front ++ back) s new.height hi (omega arith) cs) front back
          s' new (raised_updates new.height z u) (raised-stops z front back s new.height u stops) lo
          (ground arith) away hp w in
      (z', bind-some run _ ∙ run', done)
