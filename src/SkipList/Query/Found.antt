-- ===== src/SkipList/Query/Found.antt =====
-- zslGetRank gives a rank at which an equal object is, and 0 when there is none.
use bo_atom.Prelude.{
  get_elem?, ℕ, zero, suc, ◌+◌, ◌-◌, ◌<◌, ◌≡◌, refl, ◌∙◌, sym, ap, Bool, true, false, Option, none,
  some, List, [], ◌∷◌, ◌++◌, arith, length, All, Bool-cases, inl, inr, ◌⊎◌,
}
use Prim.Native.Nat.{Ordering}
use mathlib.Core.Path.{subst}
use bo_atom.SkipList.{Zsl, u64_mod, is_at_most, is_same}
use bo_atom.SkipList.Chain.{Entry, IsSkip, Holds, stop}
use bo_atom.SkipList.Parts.{Heights-left}
use bo_atom.SkipList.Stops.{stop-rank}
use bo_atom.SkipList.Order.{
  IsOrder, IsSorted, before, after, before-after, before-Passes, after-Fails,
}
use bo_atom.SkipList.Search.{Passes, Fails}
use bo_atom.SkipList.Insert.Keeps.{bind-some}
use bo_atom.SkipList.Query.{rank_loop, get_rank}
use bo_atom.SkipList.Query.Ranks.{stop-entry, level_step, top, get_elem?-append}

module _ {ℓ} {A : Type ℓ} (cmp : A → A → Ordering) where
  pub before-IsSorted :
      (holds : A → Bool) (es : List (Entry A)) → IsSorted cmp es → IsSorted cmp (before holds es)
  before-IsSorted holds [] s = tt
  before-IsSorted holds (e ∷ es) s = elim (Bool-cases (holds e.obj)) [
    | inl t ↦ rw t (
      All-before (λ f. is_at_most (cmp e.obj f.obj) ≡ true) holds es s.0,
      before-IsSorted holds es s.1,
    )
    | inr f ↦ rw f tt
  ]
    where
      All-before :
          (P : Entry A → Type 0) (holds : A → Bool) (es : List (Entry A))
          → All P es
          → All P (before holds es)
      All-before P holds [] all = tt
      All-before P holds (e ∷ es) all = elim (Bool-cases (holds e.obj)) [
        | inl t ↦ rw t (all.0, All-before P holds es all.1)
        | inr f ↦ rw f tt
      ]

module _ {ℓ} {A : Type ℓ} (cmp : A → A → Ordering) (o : IsOrder cmp) (a : A) where
  -- `r` is the rank of an equal object, or 0 when there is no equal object
  abbrev pub IsRank : List (Entry A) → ℕ → Type ℓ
  IsRank es r =
      ((r ≡ 0) × All (λ e. is_same (cmp e.obj a) ≡ false) es)
      ⊎ ((j : ℕ) × (e : Entry A) × (r ≡ suc j)
          × (get_elem? es j ≡ some e)
          × (is_same (cmp e.obj a) ≡ true))

  abbrev less_or_same : A → Bool
  less_or_same v = is_at_most (cmp v a)

  Holds-at :
      (obj : ℕ → Option (Option A)) (es : List (Entry A)) (j : ℕ) (e : Entry A)
      → Holds obj es
      → get_elem? es j ≡ some e
      → obj e.at ≡ some (some e.obj)
  Holds-at obj [] j e h g = absurd (ground arith)
  Holds-at obj (f ∷ es) zero e h g =
      subst (λ f. f)
        (ap
          (λ (n : Option (Entry A)). elim n as (λ _. Type ℓ) [
            | none ↦ Unit
            | some e ↦ obj e.at ≡ some (some e.obj)
          ])
          g)
        h.0
  Holds-at obj (f ∷ es) (suc j) e h g = Holds-at obj es j e h.1 g

  behind :
      (k : ℕ) (es : List (Entry A))
      → Fails (λ v r. less_or_same v) k es
      → All (λ e. is_same (cmp e.obj a) ≡ false) es
  behind k [] f = tt
  behind k (e ∷ es) f = (ground (arith, f.0), behind (suc k) es f.1)

  -- If the last of these objects is not equal, none of them is.
  last_differs :
      (k j : ℕ) (es : List (Entry A)) (e : Entry A)
      → IsSorted cmp es
      → Passes (λ v r. less_or_same v) k es
      → get_elem? es j ≡ some e
      → suc j ≡ length es
      → is_same (cmp e.obj a) ≡ false
      → All (λ e. is_same (cmp e.obj a) ≡ false) es
  last_differs k j [] e s p g l n = tt
  last_differs k zero (x ∷ []) e s p g l n = (
    ap
          (λ (t : Option (Entry A)). elim t as (λ _. Bool) [
            | none ↦ false
            | some v ↦ is_same (cmp v.obj a)
          ])
          g
        ∙ n,
    tt,
  )
  last_differs k (suc j) (x ∷ []) e s p g l n = absurd (omega arith)
  last_differs k zero (x ∷ y ∷ es) e s p g l n = absurd (omega arith)
  last_differs k (suc j) (x ∷ y ∷ es) e s p g l n =
      let rest = last_differs (suc k) j (y ∷ es) e s.1 p.1 g (omega arith) n in
      let x_differs : is_same (cmp x.obj a) ≡ false =
        ground (
          arith,
          rest.0,
          s.0.0,
          p.0,
          p.1.0,
          o.swap x.obj a,
          o.swap y.obj a,
          o.trans a x.obj y.obj,
        ) in
      (x_differs, rest)

  All-append {κ} :
      (P : Entry A → Type κ) (xs ys : List (Entry A)) → All P xs → All P ys → All P (xs ++ ys)
  All-append P [] ys p q = q
  All-append P (x ∷ xs) ys p q = (p.0, All-append P xs ys p.1 q)

  module _ (z : Zsl A) (front back : List (Entry A)) (s : IsSkip z (front ++ back))
      (sorted : IsSorted cmp front) (p : Passes (λ v r. less_or_same v) 0 front)
      (t : Fails (λ v r. less_or_same v) (length front) back)
      (w : length (front ++ back) < u64_mod) where
    -- Not found at the last node that is not greater, the object is nowhere.
    nowhere :
        (stop 0 (z.header, 0) 0 front ≡ (z.header, 0))
          ⊎ ((e : Entry A) × (j : ℕ) × (get_elem? front j ≡ some e)
              × (stop 0 (z.header, 0) 0 front ≡ (e.at, suc (0 + j)))
              × (is_same (cmp e.obj a) ≡ false))
        → All (λ e. is_same (cmp e.obj a) ≡ false) (front ++ back)
    nowhere found =
        let last =
          stop-rank z.level 0 0 z.header front (Heights-left z.level front back s.heights) refl in
        All-append _ front back
          (elim found [
            | inl same ↦ none_there front (omega (arith, last, ap (λ (q : ℕ × ℕ). q.1) same))
            | inr (e, j, at, there, n) ↦
                last_differs 0 j front e sorted p at
                  (omega (arith, last, ap (λ (q : ℕ × ℕ). q.1) there)) n
          ])
          (behind (length front) back t)
      where
        none_there :
            (es : List (Entry A)) → length es ≡ 0 → All (λ e. is_same (cmp e.obj a) ≡ false) es
        none_there [] l = tt
        none_there (e ∷ es) l = absurd (omega arith)

    abbrev Answers : ℕ → Type ℓ
    Answers n =
        (r : ℕ) × (rank_loop cmp n a z (stop n (z.header, 0) 0 front) ≡ some r)
        × IsRank (front ++ back) r

    abbrev StopsOff : ℕ → Type ℓ
    StopsOff n =
        (stop n (z.header, 0) 0 front ≡ (z.header, 0))
        ⊎ ((e : Entry A) × (j : ℕ) × (get_elem? front j ≡ some e)
            × (stop n (z.header, 0) 0 front ≡ (e.at, suc (0 + j)))
            × (is_same (cmp e.obj a) ≡ false))

    round : (n : ℕ) → n < z.level → (StopsOff n → Answers n) → Answers (suc n)
    unfolding rank_loop
    round n le next =
        let step = level_step z front back s (λ v r. less_or_same v) p t w n le in
        elim (stop-entry n 0 (z.header, 0) front) [
          | inl same ↦
              let (r, run, is) = next (inl same) in
              let o' = ap (λ (q : ℕ × ℕ). z.obj q.0) same ∙ s.head_obj in
              (r, bind-some step _ ∙ bind-some o' _ ∙ run, is)
          | inr (e, j, at, there) ↦
              let o' =
                ap (λ (q : ℕ × ℕ). z.obj q.0) there
                ∙ Holds-at z.obj (front ++ back) j e s.holds (get_elem?-append front back j e at) in
              elim (Bool-cases (is_same (cmp e.obj a))) [
                | inl found ↦ (
                  suc j,
                  bind-some step _
                      ∙ bind-some o' _
                      ∙ rw found (ap (λ (q : ℕ × ℕ). some q.1) there ∙ ap some (omega arith)),
                  inr (j, e, refl, get_elem?-append front back j e at, found),
                )
                | inr off ↦
                    let (r, run, is) = next (inr (e, j, at, there, off)) in
                    (r, bind-some step _ ∙ bind-some o' _ ∙ rw off run, is)
              ]
        ]

    rank_loop_lem : (n : ℕ) → n < z.level → Answers (suc n)
    rank_loop_lem zero le =
        round 0 le (λ off. (0, unfold rank_loop in refl, inl (refl, nowhere off)))
    rank_loop_lem (suc n) le = round (suc n) le (λ off. rank_loop_lem n (omega arith))

  -- On a sorted list zslGetRank follows no bad pointer, and gives the rank of an object that compares
  -- as equal, counted from 1; it gives 0 just when there is none.
  pub get_rank_lem :
      (z : Zsl A) (es : List (Entry A))
      → IsSkip z es
      → IsSorted cmp es
      → length es < u64_mod
      → (r : ℕ) × (get_rank cmp a z ≡ some r) × IsRank es r
  unfolding get_rank
  get_rank_lem z es s sorted w =
      let front = before less_or_same es in
      let back = after less_or_same es in
      let cut = before-after less_or_same es in
      let s' : IsSkip z (front ++ back) = subst (λ l. IsSkip z l) (sym cut) s in
      let w' : length (front ++ back) < u64_mod =
        subst (λ (l : List (Entry A)). length l < u64_mod) (sym cut) w in
      let p = before-Passes less_or_same 0 es in
      let t = after-Fails less_or_same cmp (λ b c. o.trans b c a) (length front) es sorted in
      let level : z.level ≡ suc (z.level - 1) = omega (arith, s.low) in
      let (r, run, is) =
        rank_loop_lem z front back s' (before-IsSorted cmp less_or_same es sorted) p t w'
          (z.level - 1) (omega (arith, s.low)) in
      (
        r,
        ap (λ x. rank_loop cmp z.level a z x)
              (sym (top z front back s' (λ v r. less_or_same v) p t w'))
            ∙ ap (λ n. rank_loop cmp n a z (stop n (z.header, 0) 0 front)) level
            ∙ run,
        subst (λ l. IsRank l r) cut is,
      )
