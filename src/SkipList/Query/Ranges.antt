-- ===== src/SkipList/Query/Ranges.antt =====
-- zslFirstInRange and zslLastInRange give the first and the last node in the range.
use bo_atom.Prelude.{
  ℕ, suc, ◌+◌, ◌<◌, ◌≡◌, refl, ◌∙◌, sym, ap, Bool, true, false, not, Option, none, some, List, [],
  ◌∷◌, ◌++◌, if◌then◌else◌, arith, length, All, Bool-cases, inl, inr, ◌>>=◌,
}
use Prim.Native.Nat.{Ordering}
use mathlib.Core.Path.{subst, fun_ext}
use mathlib.Core.List.{append-nil}
use bo_atom.SkipList.{Zsl, u64_mod, descend}
use bo_atom.SkipList.Chain.{
  Entry, IsSkip, Holds, first, last_of, reach, reach-first, stop, from-zero,
}
use bo_atom.SkipList.Parts.{Heights-left, Heights-right}
use bo_atom.SkipList.Stops.{stop-cell, stop-last}
use bo_atom.SkipList.Order.{
  IsOrder, IsSorted, before, after, before-after, before-Passes, after-Fails,
}
use bo_atom.SkipList.Search.{Fails, search-stops}
use bo_atom.SkipList.Insert.Keeps.{bind-some}
use bo_atom.SkipList.Query.{value_gte_min, is_in_range, first_in_range, last_in_range, object_at}
use bo_atom.SkipList.Query.Found.{before-IsSorted}
use bo_atom.SkipList.Query.Ends.{
  final, last_of-final, Holds-final, inside-append, inside-not_high, inside-final, inside-low,
  final-All, gte_min-below, is_in_range_lem,
}
use bo_atom.SkipList.Remove.{Range, below_min, in_max}
use bo_atom.SkipList.Remove.Ranges.{
  inside, split_range, after-IsSorted, below_min-down, in_max-down,
}

module _ {ℓ} {A : Type ℓ} where
  Holds-right :
      (obj : ℕ → Option (Option A)) (xs ys : List (Entry A)) → Holds obj (xs ++ ys) → Holds obj ys
  Holds-right obj [] ys h = h
  Holds-right obj (x ∷ xs) ys h = Holds-right obj xs ys h.1

  Holds-left :
      (obj : ℕ → Option (Option A)) (xs ys : List (Entry A)) → Holds obj (xs ++ ys) → Holds obj xs
  Holds-left obj [] ys h = tt
  Holds-left obj (x ∷ xs) ys h = (h.0, Holds-left obj xs ys h.1)

  before-All :
      (holds : A → Bool) (es : List (Entry A)) → All (λ f. holds f.obj ≡ true) (before holds es)
  before-All holds [] = tt
  before-All holds (e ∷ es) = elim (Bool-cases (holds e.obj)) [
    | inl t ↦ rw t (t, before-All holds es)
    | inr f ↦ rw f tt
  ]

  Fails-All :
      (holds : A → Bool) (k : ℕ) (es : List (Entry A))
      → Fails (λ v r. holds v) k es
      → All (λ f. holds f.obj ≡ false) es
  Fails-All holds k [] f = tt
  Fails-All holds k (e ∷ es) f = (f.0, Fails-All holds (suc k) es f.1)

  final-holds :
      (holds : A → Bool) (e : Entry A) (es : List (Entry A))
      → All (λ f. holds f.obj ≡ true) (e ∷ es)
      → holds (final e es).obj ≡ true
  final-holds holds e [] all = all.0
  final-holds holds e (f ∷ es) all = final-holds holds f es all.1

  -- The nodes that pass stop short of the last one when that does not pass.
  after-final :
      (holds : A → Bool) (e : Entry A) (es : List (Entry A))
      → holds (final e es).obj ≡ false
      → (x : Entry A) × (rest : List (Entry A)) × (after holds (e ∷ es) ≡ x ∷ rest)
  after-final holds e [] f = (e, [], rw f refl)
  after-final holds e (g ∷ es) f = elim (Bool-cases (holds e.obj)) [
    | inl t ↦ let (x, rest, there) = after-final holds g es f in (x, rest, rw t there)
    | inr n ↦ (e, g ∷ es, rw n refl)
  ]

module _ {ℓ} {A : Type ℓ} (cmp : A → A → Ordering) (o : IsOrder cmp) (r : Range A) (z : Zsl A)
    (es : List (Entry A)) (same : Bool) (s : IsSkip z es) (sorted : IsSorted cmp es)
    (ptr : same ≡ true → r.low ≡ r.high) (w : length es < u64_mod) where
  abbrev in_range : List (Entry A)
  in_range = inside (below_min cmp r) (in_max cmp r) es

  first_found :
      (e : Entry A) (rest : List (Entry A))
      → es ≡ e ∷ rest
      → is_in_range cmp same r z ≡ some true
      → below_min cmp r (final e rest).obj ≡ false
      → first_in_range cmp same r z ≡ some (first in_range)
  unfolding first_in_range
  first_found e rest eq yes_some enough =
      let low = below_min cmp r in
      let high = in_max cmp r in
      let front = before low es in
      let back = after low es in
      let cut = before-after low es in
      let s' : IsSkip z (front ++ back) = subst (λ l. IsSkip z l) (sym cut) s in
      let w' : length (front ++ back) < u64_mod =
        subst (λ (l : List (Entry A)). length l < u64_mod) (sym cut) w in
      let fails = after-Fails low cmp (below_min-down cmp o r) (length front) es sorted in
      let (u, found, stops, kept) =
        search-stops u64_mod (λ v k. low v) z front back s' (before-Passes low 0 es) fails w'
          (λ i. none) in
      let test : (λ (v : A) (k : ℕ). not (value_gte_min cmp r v)) ≡ (λ (v : A) (k : ℕ). low v) =
        fun_ext λ v. fun_ext λ k. gte_min-below cmp o r v in
      let (x, more, at) = after-final low e rest enough in
      let at' : back ≡ x ∷ more = ap (λ l. after low l) eq ∙ at in
      let (d, there) =
        stop-cell 0 (z.column 0) 0 0 z.header 0 front back
          (s'.head 0 (ground (arith, s.low)) ∙ ap some (sym (from-zero (reach 0 (front ++ back)))))
          (s'.linked 0) in
      let forward : (reach 0 back).forward ≡ some x.at =
        reach-first z.level back (Heights-right z.level front back s'.heights) ∙ ap first at' in
      let obj : z.obj x.at ≡ some (some x.obj) =
        (subst (λ l. Holds z.obj l) at' (Holds-right z.obj front back s'.holds)).0 in
      let (out, only) =
        split_range low high (length front) (length front + length (before high back)) es fails
          (after-Fails high cmp (in_max-down cmp o r) _ back (after-IsSorted cmp low es sorted)) in
      let value : in_range ≡ (if high x.obj then x ∷ before high more else []) =
        only ∙ ap (λ l. before high l) at' in
      let run = ap (λ t. descend u64_mod t z.level z (z.header, 0) (λ i. none)) test ∙ found in
      bind-some yes_some _
      ∙ bind-some run _
      ∙ bind-some there _
      ∙ bind-some forward _
      ∙ bind-some (bind-some obj (λ o. o)) _
      ∙ ap some (elim (Bool-cases (high x.obj)) [
        | inl t ↦ rw t (sym (ap first (value ∙ ap (λ b. if b then x ∷ before high more else []) t)))
        | inr f ↦ rw f (sym (ap first (value ∙ ap (λ b. if b then x ∷ before high more else []) f)))
      ])

  last_found :
      (e : Entry A) (rest : List (Entry A))
      → es ≡ e ∷ rest
      → is_in_range cmp same r z ≡ some true
      → in_max cmp r e.obj ≡ true
      → last_in_range cmp same r z ≡ some (last_of none in_range)
  unfolding last_in_range
  last_found e rest eq yes_some enough =
      let low = below_min cmp r in
      let high = in_max cmp r in
      let front = before high es in
      let back = after high es in
      let cut = before-after high es in
      let s' : IsSkip z (front ++ back) = subst (λ l. IsSkip z l) (sym cut) s in
      let w' : length (front ++ back) < u64_mod =
        subst (λ (l : List (Entry A)). length l < u64_mod) (sym cut) w in
      let fails = after-Fails high cmp (in_max-down cmp o r) (length front) es sorted in
      let (u, found, stops, kept) =
        search-stops u64_mod (λ v k. high v) z front back s' (before-Passes high 0 es) fails w'
          (λ i. none) in
      let more = before high rest in
      let at : front ≡ e ∷ more =
        ap (λ l. before high l) eq ∙ ap (λ b. if b then e ∷ before high rest else []) enough in
      let l = final e more in
      let stopped : some ((stop 0 (z.header, 0) 0 front).0) ≡ some l.at =
        stop-last z.level 0 0 z.header front (Heights-left z.level front back s'.heights)
        ∙ ap (λ l. last_of (some z.header) l) at
        ∙ last_of-final (some z.header) e more in
      let obj : z.obj l.at ≡ some (some l.obj) =
        Holds-final z.obj e more
          (subst (λ l. Holds z.obj l) at (Holds-left z.obj front back s'.holds)) in
      let highs : All (λ f. high f.obj ≡ true) (e ∷ more) =
        subst (λ l. All (λ f. high f.obj ≡ true) l) at (before-All high es) in
      let sorted' : IsSorted cmp (e ∷ more) =
        subst (λ l. IsSorted cmp l) at (before-IsSorted cmp high es sorted) in
      let value : in_range ≡ inside low high (e ∷ more) =
        ap (λ l. inside low high l) (sym cut)
        ∙ inside-append low high front back
        ∙ ap (λ l. inside low high front ++ l)
            (inside-not_high low high back (Fails-All high (length front) back fails))
        ∙ append-nil (inside low high front)
        ∙ ap (λ l. inside low high l) at in
      let there : object_at z ((stop 0 (z.header, 0) 0 front).0) ≡ some l.obj =
        ap (λ x. x >>= object_at z) stopped ∙ bind-some obj (λ o. o) in
      bind-some yes_some _
      ∙ bind-some found _
      ∙ bind-some there _
      ∙ ap some (elim (Bool-cases (low l.obj)) [
        | inl t ↦
            ap (λ b. if b then none else some ((stop 0 (z.header, 0) 0 front).0))
              (gte_min-below cmp o r l.obj ∙ t)
            ∙ sym (
                ap (λ l. last_of none l)
                  (value
                    ∙ inside-low low high (e ∷ more)
                        (final-All cmp low (below_min-down cmp o r) e more sorted' t)))
        | inr f ↦
            ap (λ b. if b then none else some ((stop 0 (z.header, 0) 0 front).0))
              (gte_min-below cmp o r l.obj ∙ f)
            ∙ stopped
            ∙ sym (
                ap (λ l. last_of none l) value
                ∙ inside-final low high none e more f (final-holds high e more highs))
      ])

  -- On a sorted list zslFirstInRange follows no bad pointer, and gives the first node whose object is
  -- in the range, and NULL just when there is none; and zslLastInRange gives the last such node. This
  -- holds for each kind of bounds, when `min` and `max` are the same pointer only for equal bounds.
  pub in_range-ends :
      (first_in_range cmp same r z ≡ some (first in_range))
      × (last_in_range cmp same r z ≡ some (last_of none in_range))
  unfolding first_in_range last_in_range
  in_range-ends =
      let (b, run, no_range, has_range) = is_in_range_lem cmp o r z es same s sorted ptr in
      elim (Bool-cases b) [
        | inl t ↦
            let (e, rest, eq, enough, few) = has_range t in
            (
              first_found e rest eq (run ∙ ap some t) enough,
              last_found e rest eq (run ∙ ap some t) few,
            )
        | inr f ↦
            let empty = no_range f in
            (
              bind-some (run ∙ ap some f) _ ∙ ap (λ l. some (first l)) (sym empty),
              bind-some (run ∙ ap some f) _ ∙ ap (λ l. some (last_of none l)) (sym empty),
            )
      ]
