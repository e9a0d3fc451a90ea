-- ===== src/SkipList/History.antt =====
-- Histories of a skip list: any sequence of insertions and deletions of ranges, from zslCreate on.
use bo_atom.Prelude.{
  ℕ, suc, ◌+◌, ◌-◌, ◌<◌, ◌≤◌, ◌≡◌, refl, sym, ap, ◌∙◌, Bool, true, false, Option, none, some, List,
  [], ◌∷◌, ◌++◌, ◌==◌, arith, length, length-append, take, drop, take-append-drop, All, Bool-cases,
  inl, inr,
}
use Prim.Native.Nat.{Ordering}
use mathlib.Core.Path.{subst}
use mathlib.Core.Option.{some-injective}
use bo_atom.SkipList.{Zsl, create, random_level, u32_mod, is_at_most}
use bo_atom.SkipList.Chain.{Entry, IsSkip, Absent, Holds}
use bo_atom.SkipList.Order.{IsOrder, IsSorted, insert_sorted}
use bo_atom.SkipList.Insert.{zsl_insert}
use bo_atom.SkipList.Insert.Sorted.{zsl_insert-IsSkip}
use bo_atom.SkipList.Lifetime.{create-IsSkip}
use bo_atom.SkipList.Remove.{Range, below_min, in_max, delete_range, delete_range_by_rank}
use bo_atom.SkipList.Remove.Ranges.{outside, unselected, cuts, delete_range-IsSkip}
use bo_atom.SkipList.Remove.Ranks.{delete_range_by_rank-IsSkip}

module _ {ℓ} {A : Type ℓ} where
  -- An address that is not allocated is not in the list.
  fresh-Absent :
      (obj : ℕ → Option (Option A)) (p : ℕ) (es : List (Entry A))
      → obj p ≡ none
      → Holds obj es
      → Absent p es
  fresh-Absent obj p [] free h = tt
  fresh-Absent obj p (e ∷ es) free h = (
    elim (Bool-cases (p == e.at)) [
      | inl same ↦
          let at : p ≡ e.at = ground (arith, same) in
          let wrong : none ≡ some (some e.obj) = sym free ∙ ap obj at ∙ h.0 in absurd (ground arith)
      | inr other ↦ other
    ],
    fresh-Absent obj p es free h.1,
  )

  module _ (cmp : A → A → Ordering) where
    All-outside :
        (low high P : A → Bool) (es : List (Entry A))
        → All (λ e. P e.obj ≡ true) es
        → All (λ e. P e.obj ≡ true) (outside low high es)
    All-outside low high P [] all = tt
    All-outside low high P (e ∷ es) all = elim (Bool-cases (low e.obj)) [
      | inl t ↦ rw t (all.0, All-outside low high P es all.1)
      | inr f ↦ elim (Bool-cases (high e.obj)) [
        | inl t ↦ rw (f, t) (All-outside low high P es all.1)
        | inr g ↦ rw (f, g) (all.0, All-outside low high P es all.1)
      ]
    ]

    outside-IsSorted :
        (low high : A → Bool) (es : List (Entry A))
        → IsSorted cmp es
        → IsSorted cmp (outside low high es)
    outside-IsSorted low high [] s = tt
    outside-IsSorted low high (e ∷ es) s =
        let kept = All-outside low high (λ b. is_at_most (cmp e.obj b)) es s.0 in
        elim (Bool-cases (low e.obj)) [
          | inl t ↦ rw t (kept, outside-IsSorted low high es s.1)
          | inr f ↦ elim (Bool-cases (high e.obj)) [
            | inl t ↦ rw (f, t) (outside-IsSorted low high es s.1)
            | inr g ↦ rw (f, g) (kept, outside-IsSorted low high es s.1)
          ]
        ]

    outside-length :
        (low high : A → Bool) (es : List (Entry A)) → length (outside low high es) ≤ length es
    outside-length low high [] = omega arith
    outside-length low high (e ∷ es) = ground (arith, outside-length low high es)

    All-middle :
        (P : A → Bool) (xs ys zs : List (Entry A))
        → All (λ e. P e.obj ≡ true) (xs ++ (ys ++ zs))
        → All (λ e. P e.obj ≡ true) (xs ++ zs)
    All-middle P [] [] zs all = all
    All-middle P [] (y ∷ ys) zs all = All-middle P [] ys zs all.1
    All-middle P (x ∷ xs) ys zs all = (all.0, All-middle P xs ys zs all.1)

    middle-IsSorted :
        (xs ys zs : List (Entry A)) → IsSorted cmp (xs ++ (ys ++ zs)) → IsSorted cmp (xs ++ zs)
    middle-IsSorted [] [] zs s = s
    middle-IsSorted [] (y ∷ ys) zs s = middle-IsSorted [] ys zs s.1
    middle-IsSorted (x ∷ xs) ys zs s =
        (All-middle (λ b. is_at_most (cmp x.obj b)) xs ys zs s.0, middle-IsSorted xs ys zs s.1)

    insert_sorted-length :
        (new : Entry A) (es : List (Entry A)) → length (insert_sorted cmp new es) ≡ suc (length es)
    insert_sorted-length new [] = refl
    insert_sorted-length new (e ∷ es) = ground (arith, insert_sorted-length new es)

    -- One call that returns. malloc gives an address that is not allocated, and the list does not grow to 2^32.
    pub data Step (z : Zsl A) : Zsl A → Type ℓ where
      inserts :
          {z' : Zsl A} (p level : ℕ) (rs : List ℕ) (a : A)
          → z.obj p ≡ none
          → z.length + 1 < u32_mod
          → random_level rs ≡ some level
          → zsl_insert cmp p rs a z ≡ some z'
          → Step z z'
      deletes : {z' : Zsl A} (r : Range A) (n : ℕ) → delete_range cmp r z ≡ some (z', n) → Step z z'
      deletes_ranks :
          {z' : Zsl A} (start end n : ℕ)
          → delete_range_by_rank start end z ≡ some (z', n)
          → Step z z'

    pub data Reach : Zsl A → Type ℓ where
      created : (p : ℕ) (has_free : Bool) → Reach (create p has_free)
      next : {z z' : Zsl A} → Reach z → Step z z' → Reach z'

    -- The structure stands for a sorted list, which is not too long.
    pub record IsSortedSkip (z : Zsl A) : Type ℓ where
      pub entries : List (Entry A)
      pub skip : IsSkip z entries
      pub sorted : IsSorted cmp entries
      pub short : length entries < u32_mod

    Step-IsSortedSkip :
        (o : IsOrder cmp) {z z' : Zsl A} → Step z z' → IsSortedSkip z → IsSortedSkip z'
    Step-IsSortedSkip o {z} (inserts {z'} p level rs a free small random run) i =
        let es = i.entries in
        let new : Entry A = record { at = p; obj = a; height = level } in
        let header : (z.header == p) ≡ false = elim (Bool-cases (z.header == p)) [
          | inl same ↦
              let at : z.header ≡ p = ground (arith, same) in
              let wrong : none ≡ some none = sym free ∙ ap z.obj (sym at) ∙ i.skip.head_obj in
              absurd (ground arith)
          | inr other ↦ other
        ] in
        let (z'', ran, skip, sorted) =
          zsl_insert-IsSkip cmp o z es p level rs a i.skip i.sorted random header
            (fresh-Absent z.obj p es free i.skip.holds) (omega (arith, small, i.skip.counted)) in
        let same = some-injective _ _ (sym ran ∙ run) in
        record {
          entries = insert_sorted cmp new es;
          skip = subst (λ z. IsSkip z (insert_sorted cmp new es)) same skip;
          sorted = sorted;
          short = omega (arith, insert_sorted-length new es, small, i.skip.counted);
        }
    Step-IsSortedSkip o {z} (deletes {z'} r n run) i =
        let es = i.entries in
        let (z'', ran, skip, freed) = delete_range-IsSkip cmp o z es r i.skip i.sorted i.short in
        let same = ap (λ (q : Zsl A × ℕ). q.0) (some-injective _ _ (sym ran ∙ run)) in
        let (cut, _) = cuts cmp o r es in
        record {
          entries = outside (below_min cmp r) (in_max cmp r) es;
          skip =
              subst (λ l. IsSkip z' l) (sym cut)
                (subst (λ z. IsSkip z (unselected cmp r es)) same skip);
          sorted = outside-IsSorted (below_min cmp r) (in_max cmp r) es i.sorted;
          short = omega (arith, outside-length (below_min cmp r) (in_max cmp r) es, i.short);
        }
    Step-IsSortedSkip o {z} (deletes_ranks {z'} start end n run) i =
        let es = i.entries in
        let front = take (start - 1) es in
        let rest = drop (start - 1) es in
        let mid = take (end - (start - 1)) rest in
        let back = drop (end - (start - 1)) rest in
        let (z'', ran, skip, freed) = delete_range_by_rank-IsSkip z es start end i.skip i.short in
        let same = ap (λ (q : Zsl A × ℕ). q.0) (some-injective _ _ (sym ran ∙ run)) in
        let cut : es ≡ front ++ (mid ++ back) = sym (
          ap (λ l. front ++ l) (take-append-drop (end - (start - 1)) rest)
          ∙ take-append-drop (start - 1) es) in
        record {
          entries = front ++ back;
          skip = subst (λ z. IsSkip z (front ++ back)) same skip;
          sorted = middle-IsSorted front mid back (subst (λ l. IsSorted cmp l) cut i.sorted);
          short = omega (
            arith,
            i.short,
            ap length cut,
            length-append front (mid ++ back),
            length-append mid back,
            length-append front back,
          );
        }

    -- From zslCreate on, every sequence of zslInsert, zslDeleteRange and zslDeleteRangeByRank leads to a
    -- structure whose links, spans, backward pointers, tail and length stand for a sorted list.
    pub Reach-IsSortedSkip : (o : IsOrder cmp) {z : Zsl A} → Reach z → IsSortedSkip z
    Reach-IsSortedSkip o (created p has_free) = record {
      entries = [];
      skip = create-IsSkip p has_free;
      sorted = tt;
      short = omega arith;
    }
    Reach-IsSortedSkip o (next r st) = Step-IsSortedSkip o st (Reach-IsSortedSkip o r)
