-- ===== src/SkipList/Remove.antt =====
-- zslDeleteNode, zslDelete, zslDeleteRange and zslDeleteRangeByRank of data_structure/skiplist/skiplist.c.
pub mod Lower
pub mod Loop
pub mod Node
pub mod Parts
pub mod Ranges
pub mod Ranks
pub mod Unlink
use bo_atom.Prelude.{
  ℕ, zero, suc, ◌+◌, ◌-◌, ◌%◌, Bool, true, false, Option, none, some, List, [], ◌∷◌, ◌==◌, ltb, leb,
  if◌then◌else◌, ◌>>=◌,
}
use Prim.Native.Nat.{Ordering}
use bo_atom.SkipList.{
  Level, Column, Updates, Zsl, u32_mod, u64_mod, add32, sub32, put, assign, each_level, descend,
  walk, free_node, is_less, is_at_most,
}

-- `o == x`, for pointers
abbrev pub points_at : Option ℕ → ℕ → Bool
points_at none x = false
points_at (some y) x = y == x

-- the loop's body of zslDeleteNode at `level[i]`
unfoldable pub unlink_level : ℕ → Updates → ℕ → Column → Option Column
unfolding add32 sub32
unlink_level x u i c = u i >>= (λ q. c q.0 >>= (λ l.
    if points_at l.forward x
    then (c x >>= (λ m.
        assign q.0 (record { forward = m.forward; span = add32 l.span (sub32 m.span 1) }) c))
    else assign q.0 (record l { span = sub32 l.span 1 }) c))

-- `while (zsl->level > 1 && zsl->header->level[zsl->level-1].forward == NULL) zsl->level--;`
unfoldable pub lower : ℕ → (ℕ → Column) → ℕ → Option ℕ
lower zero cs header = some 0
lower (suc zero) cs header = some 1
lower (suc (suc n)) cs header = cs (suc n) header >>= λ l. elim (l.forward) [
  | none ↦ lower (suc n) cs header
  | some y ↦ some (suc (suc n))
]

-- zrangespec
pub record Range {ℓ} (A : Type ℓ) : Type ℓ where
  pub low : A
  pub high : A
  pub minex : Bool
  pub maxex : Bool

module _ {ℓ} {A : Type ℓ} where
  -- `if (x->level[0].forward) x->level[0].forward->backward = x->backward; else …`
  unfoldable pub unlink_back : Option ℕ → Option ℕ → Zsl A → Option (Zsl A)
  unlink_back none b z = some (record z { tail = b })
  unlink_back (some y) b z =
      z.backward y >>= λ o. some (record z { backward = put z.backward y (some b) })

  -- zslDeleteNode
  unfoldable pub delete_node : ℕ → Updates → Zsl A → Option (Zsl A)
  unfolding each_level unlink_level unlink_back lower
  delete_node x u z = each_level z.level 0 (unlink_level x u) z.column >>= (λ cs. cs 0 x >>= (λ l.
      z.backward x >>= (λ b. unlink_back l.forward b (record z { column = cs }) >>= (λ z'.
        lower z.level cs z.header
        >>= (λ n. some (record z' { level = n; length = (z.length + u64_mod - 1) % u64_mod }))))))

  -- `while (x && more)`: the nodes from `x` on are deleted while `more` holds at the object and the
  -- rank. Returns the number of nodes removed.
  unfoldable pub delete_while :
      (A → ℕ → Bool) → ℕ → Updates → Option ℕ → ℕ → ℕ → Zsl A → Option (Zsl A × ℕ)
  unfolding delete_node free_node
  delete_while more zero u x traversed removed z = none
  delete_while more (suc fuel) u none traversed removed z = some (z, removed)
  delete_while more (suc fuel) u (some x) traversed removed z = z.obj x >>= (λ o. o >>= (λ a.
      elim (more a traversed) [
        | false ↦ some (z, removed)
        | true ↦ z.column 0 x >>= (λ l. delete_node x u z >>= (λ z₁.
            free_node x z₁
            >>= (λ z₂. delete_while more fuel u l.forward (traversed + 1) (removed + 1) z₂)))
      ]))

  -- the search for the first node to delete, and the loop
  unfoldable pub delete_found : ℕ → (A → ℕ → Bool) → (A → ℕ → Bool) → Zsl A → Option (Zsl A × ℕ)
  unfolding descend delete_while
  delete_found word skip more z =
      descend word skip z.level z (z.header, 0) (λ i. none) >>= (λ found.
        z.column 0 found.1
        >>= (λ l. delete_while more (z.length + 1) found.0 l.forward (found.2 + 1) 0 z))

  module _ (cmp : A → A → Ordering) where
    abbrev pub below_min : Range A → A → Bool
    below_min r a = if r.minex then is_at_most (cmp a r.low) else is_less (cmp a r.low)

    abbrev pub in_max : Range A → A → Bool
    in_max r a = if r.maxex then is_less (cmp a r.high) else is_at_most (cmp a r.high)

    -- zslDeleteRange
    unfoldable pub delete_range : Range A → Zsl A → Option (Zsl A × ℕ)
    unfolding delete_found
    delete_range r z = delete_found u64_mod (λ a k. below_min r a) (λ a k. in_max r a) z

    -- zslDelete. Behind its loop `i` is -1, and `level[-1]` lies before the array: none.
    unfoldable pub zsl_delete : A → Zsl A → Option (Zsl A × ℕ)
    unfolding descend
    zsl_delete a z =
        descend u64_mod (λ b k. is_less (cmp b a)) z.level z (z.header, 0) (λ i. none) >>= (λ found.
          z.column 0 found.1 >>= (λ l. elim (l.forward) [ none ↦ some (z, 0) | some x ↦ none ]))

  -- zslDeleteRangeByRank
  unfoldable pub delete_range_by_rank : ℕ → ℕ → Zsl A → Option (Zsl A × ℕ)
  unfolding delete_found
  delete_range_by_rank start end z = delete_found u64_mod (λ a k. ltb k start) (λ a k. leb k end) z
