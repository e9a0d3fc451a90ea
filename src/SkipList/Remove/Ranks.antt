-- ===== src/SkipList/Remove/Ranks.antt =====
-- zslDeleteRangeByRank removes the nodes with these ranks; zslDelete reads in front of an array.
use bo_atom.Prelude.{
  ℕ, zero, suc, ◌+◌, ◌-◌, ◌<◌, ◌≤◌, ◌≡◌, ◌∙◌, sym, ap, Bool, true, false, Option, none, some, List,
  [], ◌∷◌, ◌++◌, ltb, leb, arith, length, take, drop, take-append-drop, length-take, length-drop,
}
use Prim.Native.Nat.{Ordering}
use mathlib.Core.Path.{subst}
use bo_atom.SkipList.{Zsl, u32_mod, u64_mod, is_less}
use bo_atom.SkipList.Chain.{Entry, IsSkip, first, reach, reach-first, from-zero}
use bo_atom.SkipList.Parts.{Heights-right}
use bo_atom.SkipList.Stops.{stop-cell}
use bo_atom.SkipList.Order.{
  IsOrder, IsSorted, before, after, before-after, before-Passes, after-Fails, less_down,
}
use bo_atom.SkipList.Search.{Passes, Fails, search-stops}
use bo_atom.SkipList.Insert.Keeps.{bind-some}
use bo_atom.SkipList.Remove.{delete_range_by_rank, zsl_delete}
use bo_atom.SkipList.Remove.Loop.{freed_with, delete_found-IsSkip}

module _ {ℓ} {A : Type ℓ} (holds : ℕ → Bool) where
  pub take-Passes :
      (n k : ℕ) (es : List (Entry A))
      → ((j : ℕ) → k < j → j ≤ k + n → holds j ≡ true)
      → Passes (λ (a : A) r. holds r) k (take n es)
  take-Passes zero k es h = tt
  take-Passes (suc n) k [] h = tt
  take-Passes (suc n) k (e ∷ es) h = (
    h (suc k) (omega arith) (omega arith),
    take-Passes n (suc k) es (λ j a b. h j (omega arith) (omega arith)),
  )

  all-Fails :
      (k : ℕ) (es : List (Entry A))
      → ((j : ℕ) → k < j → holds j ≡ false)
      → Fails (λ (a : A) r. holds r) k es
  all-Fails k [] h = tt
  all-Fails k (e ∷ es) h =
      (h (suc k) (omega arith), all-Fails (suc k) es (λ j a. h j (omega arith)))

  pub drop-Fails :
      (n m : ℕ) (es : List (Entry A))
      → (n < length es → (j : ℕ) → m < j → holds j ≡ false)
      → Fails (λ (a : A) r. holds r) m (drop n es)
  drop-Fails zero m [] h = tt
  drop-Fails zero m (e ∷ es) h = all-Fails m (e ∷ es) (h (omega arith))
  drop-Fails (suc n) m [] h = tt
  drop-Fails (suc n) m (e ∷ es) h = drop-Fails n m es (λ le. h (omega arith))

module _ {ℓ} {A : Type ℓ} where
  -- On a sound list zslDeleteRangeByRank follows no bad pointer, and deletes, frees and counts the
  -- nodes with the ranks from `start` to `end`, as many as there are; a `start` of 0 is as 1.
  pub delete_range_by_rank-IsSkip :
      (z : Zsl A) (es : List (Entry A)) (start end : ℕ)
      → IsSkip z es
      → length es < u32_mod
      → (z' : Zsl A) × (delete_range_by_rank start end z
          ≡ some (z', length (take (end - (start - 1)) (drop (start - 1) es))))
        × IsSkip z' (take (start - 1) es ++ drop (end - (start - 1)) (drop (start - 1) es))
        × (z'.freed ≡ freed_with z (take (end - (start - 1)) (drop (start - 1) es)))
  unfolding delete_range_by_rank
  delete_range_by_rank-IsSkip z es start end s w =
      let n = start - 1 in
      let front = take n es in
      let rest = drop n es in
      let mid = take (end - n) rest in
      let back = drop (end - n) rest in
      let cut : front ++ (mid ++ back) ≡ es =
        ap (λ l. front ++ l) (take-append-drop (end - n) rest) ∙ take-append-drop n es in
      let w' : length (front ++ (mid ++ back)) < u32_mod =
        subst (λ (l : List (Entry A)). length l < u32_mod) (sym cut) w in
      let few = length-take n es in
      delete_found-IsSkip u64_mod (λ a k. ltb k start) (λ a k. leb k end) z front mid back
        (subst (λ l. IsSkip z l) (sym cut) s) w' (omega arith)
        (take-Passes (λ k. ltb k start) n 0 es (λ j a b. ground arith))
        (subst (λ l. Fails (λ (a : A) k. ltb k start) (length front) l)
          (sym (take-append-drop (end - n) rest))
          (drop-Fails (λ k. ltb k start) n (length front) es (λ le j a. ground (arith, few))))
        (take-Passes (λ k. leb k end) (end - n) (length front) rest (λ j a b. ground (arith, few)))
        (drop-Fails (λ k. leb k end) (end - n) (length front + length mid) rest
          (λ le j a. ground (arith, few, length-take (end - n) rest, length-drop n es)))

  module _ (cmp : A → A → Ordering) (o : IsOrder cmp) where
    -- Whenever the list has an object that is not less than the one to delete, zslDelete reads
    -- `level[-1]`, also when the object is there; else it returns 0 and changes nothing.
    pub zsl_delete_out_of_bounds :
        (z : Zsl A) (es : List (Entry A)) (a : A)
        → IsSkip z es
        → IsSorted cmp es
        → length es < u32_mod
        → zsl_delete cmp a z
          ≡ elim (first (after (λ b. is_less (cmp b a)) es)) [ none ↦ some (z, 0) | some x ↦ none ]
    unfolding zsl_delete
    zsl_delete_out_of_bounds z es a s sorted w =
        let less = λ (b : A). is_less (cmp b a) in
        let front = before less es in
        let back = after less es in
        let cut = before-after less es in
        let s' : IsSkip z (front ++ back) = subst (λ l. IsSkip z l) (sym cut) s in
        let w' : length (front ++ back) < u64_mod =
          subst (λ (l : List (Entry A)). length l < u64_mod) (sym cut) (omega arith) in
        let (u, found, stops, kept) =
          search-stops u64_mod (λ b r. less b) z front back s' (before-Passes less 0 es)
            (after-Fails less cmp (λ b c. less_down cmp o b c a) (length front) es sorted) w'
            (λ i. none) in
        let (d, there) =
          stop-cell 0 (z.column 0) 0 0 z.header 0 front back
            (s'.head 0 (ground (arith, s.low))
              ∙ ap some (sym (from-zero (reach 0 (front ++ back)))))
            (s'.linked 0) in
        bind-some found _
        ∙ bind-some there _
        ∙ ap (λ f. elim f as (λ g. Option (Zsl A × ℕ)) [ none ↦ some (z, 0) | some x ↦ none ])
            (reach-first z.level back (Heights-right z.level front back s'.heights))
