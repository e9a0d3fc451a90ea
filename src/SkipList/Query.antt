-- ===== src/SkipList/Query.antt =====
-- The queries of data_structure/skiplist/skiplist.c: zslIsInRange, zslFirstInRange, zslLastInRange,
-- zslGetRank and zslGetElementByRank; and zslFree.
pub mod Ends
pub mod Found
pub mod Ranges
pub mod Ranks
use bo_atom.Prelude.{
  ℕ, zero, suc, ◌+◌, ◌%◌, Bool, true, false, not, ◌&&◌, ◌||◌, Option, none, some, List, [], ◌∷◌,
  ◌++◌, ◌==◌, leb, if◌then◌else◌, ◌>>=◌,
}
use Prim.Native.Nat.{Ordering}
use bo_atom.SkipList.{Zsl, u64_mod, walk, descend, is_less, is_at_most, is_same, free_node, release}
use bo_atom.SkipList.Remove.{Range, in_max}

module _ {ℓ} {A : Type ℓ} where
  -- the object at a node that is not the header
  abbrev pub object_at : Zsl A → ℕ → Option A
  object_at z x = z.obj x >>= λ o. o

module _ {ℓ} {A : Type ℓ} (cmp : A → A → Ordering) where
  -- zslValueGteMin and zslValueLteMax
  abbrev pub value_gte_min : Range A → A → Bool
  value_gte_min r v =
      if r.minex then not (is_at_most (cmp v r.low)) else not (is_less (cmp v r.low))

  abbrev pub value_lte_max : Range A → A → Bool
  value_lte_max r v = in_max cmp r v

  -- zslIsInRange; `same` says whether `min` and `max` are the same pointer
  unfoldable pub is_in_range : Bool → Range A → Zsl A → Option Bool
  is_in_range same r z = if same && (r.minex || r.maxex) then some false else (elim (z.tail) [
    | none ↦ some false
    | some t ↦ object_at z t >>= (λ v.
        if not (value_gte_min r v)
        then some false
        else (z.column 0 z.header >>= (λ l. elim (l.forward) [
          | none ↦ some false
          | some x ↦ object_at z x >>= λ v. some (value_lte_max r v)
        ])))
  ])

  -- zslFirstInRange; the result is NULL or a node
  unfoldable pub first_in_range : Bool → Range A → Zsl A → Option (Option ℕ)
  unfolding is_in_range descend
  first_in_range same r z = is_in_range same r z >>= (λ b. elim b [
    | false ↦ some none
    | true ↦
        descend u64_mod (λ v k. not (value_gte_min r v)) z.level z (z.header, 0) (λ i. none)
        >>= (λ found. z.column 0 found.1 >>= (λ l. l.forward >>= (λ x.
            object_at z x >>= (λ v. some (if not (value_lte_max r v) then none else some x)))))
  ])

  -- zslLastInRange
  unfoldable pub last_in_range : Bool → Range A → Zsl A → Option (Option ℕ)
  unfolding is_in_range descend
  last_in_range same r z = is_in_range same r z >>= (λ b. elim b [
    | false ↦ some none
    | true ↦
        descend u64_mod (λ v k. value_lte_max r v) z.level z (z.header, 0) (λ i. none) >>= (λ found.
          object_at z found.1
          >>= (λ v. some (if not (value_gte_min r v) then none else some found.1)))
  ])

  -- the loop of zslGetRank over the levels below n
  unfoldable pub rank_loop : ℕ → A → Zsl A → ℕ × ℕ → Option ℕ
  unfolding walk
  rank_loop zero a z x = some 0
  rank_loop (suc i) a z x =
      walk u64_mod (λ v k. is_at_most (cmp v a)) (z.length + 1) z i x >>= (λ x'.
        z.obj x'.0 >>= (λ o. elim o [
          | none ↦ rank_loop i a z x'
          | some v ↦ elim (is_same (cmp v a)) [ true ↦ some x'.1 | false ↦ rank_loop i a z x' ]
        ]))

  -- zslGetRank
  unfoldable pub get_rank : A → Zsl A → Option ℕ
  unfolding rank_loop
  get_rank a z = rank_loop z.level a z (z.header, 0)

module _ {ℓ} {A : Type ℓ} where
  -- the loop of zslGetElementByRank over the levels below n
  unfoldable pub element_loop : ℕ → ℕ → Zsl A → ℕ × ℕ → Option (Option ℕ)
  unfolding walk
  element_loop zero rank z x = some none
  element_loop (suc i) rank z x =
      walk u64_mod (λ v k. leb k rank) (z.length + 1) z i x
      >>= (λ x'. elim (x'.1 == rank) [ true ↦ some (some x'.0) | false ↦ element_loop i rank z x' ])

  -- zslGetElementByRank
  unfoldable pub get_element_by_rank : ℕ → Zsl A → Option (Option ℕ)
  unfolding element_loop
  get_element_by_rank rank z = element_loop z.level rank z (z.header, 0)

  -- the loop of zslFree
  unfoldable pub free_loop : ℕ → Option ℕ → Zsl A → Option (Zsl A)
  unfolding free_node
  free_loop zero x z = none
  free_loop (suc fuel) none z = some z
  free_loop (suc fuel) (some x) z =
      z.column 0 x >>= (λ l. free_node x z >>= λ z'. free_loop fuel l.forward z')

  -- zslFree, up to free of the list's record
  unfoldable pub zsl_free : Zsl A → Option (Zsl A)
  unfolding free_loop
  zsl_free z = z.column 0 z.header >>= λ l. free_loop (z.length + 1) l.forward (release z.header z)
