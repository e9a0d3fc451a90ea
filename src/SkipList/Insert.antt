-- ===== src/SkipList/Insert.antt =====
-- zslInsert of data_structure/skiplist/skiplist.c.
pub mod Backs
pub mod Keeps
pub mod Links
pub mod Loops
pub mod Raise
pub mod Sorted
use bo_atom.Prelude.{
  ℕ, zero, suc, ◌+◌, ◌-◌, ◌%◌, Bool, true, false, Option, none, some, List, [], ◌∷◌, ◌==◌, ltb, leb,
  if◌then◌else◌, ◌>>=◌,
}
use Prim.Native.Nat.{Ordering}
use bo_atom.SkipList.{
  Level, Column, Updates, Zsl, u32_mod, u64_mod, add32, sub32, put, assign, each_level, create_node,
  descend, random_level, is_less,
}

-- the loop's body at `level[i]` for a new level: `update[i] = zsl->header; …span = zsl->length;`
unfoldable pub raise_level : ℕ → ℕ → ℕ → Column → Option Column
raise_level header length i c =
    c header >>= λ l. assign header (record l { span = length % u32_mod }) c

-- the first loop over the update array: the new node `p` goes behind `update[i]`
unfoldable pub link_level : ℕ → Updates → ℕ → ℕ → Column → Option Column
unfolding add32 sub32
link_level p u rank₀ i c = u i >>= (λ q. c q.0 >>= (λ l.
    assign p (record { forward = l.forward; span = sub32 l.span (sub32 rank₀ q.1) }) c
    >>= (λ c₁. assign q.0 (record { forward = some p; span = add32 (sub32 rank₀ q.1) 1 }) c₁)))

-- the second loop: `update[i]->level[i].span++` on the levels that the new node does not have
unfoldable pub bump_level : Updates → ℕ → Column → Option Column
unfolding add32
bump_level u i c = u i >>= λ q. c q.0 >>= λ l. assign q.0 (record l { span = add32 l.span 1 }) c

module _ {ℓ} {A : Type ℓ} where
  -- `if (level > zsl->level) …`
  unfoldable pub raise : ℕ → Zsl A → Option (Zsl A)
  unfolding each_level raise_level
  raise level z =
      each_level (level - z.level) z.level (raise_level z.header z.length) z.column >>= λ cs.
      some (record z { column = cs; level = if ltb z.level level then level else z.level })

  -- the part of the update array that the raise fills
  abbrev pub raised_updates : ℕ → Zsl A → Updates → Updates
  raised_updates level z u i =
      if ltb i z.level then u i else if ltb i level then some (z.header, 0) else u i

  -- `if (x->level[0].forward) x->level[0].forward->backward = x; else zsl->tail = x;`
  unfoldable pub link_back : ℕ → Option ℕ → Zsl A → Option (Zsl A)
  link_back p none z = some (record z { tail = some p })
  link_back p (some y) z =
      z.backward y >>= λ o. some (record z { backward = put z.backward y (some (some p)) })

  -- what follows the raise, with the new node at `p`
  unfoldable pub insert_raised : ℕ → ℕ → A → Updates → Zsl A → Option (Zsl A)
  unfolding create_node each_level link_level bump_level link_back
  insert_raised p level a u z = u 0 >>= (λ q.
      each_level level 0 (link_level p u q.1) (create_node p level a z).column >>= (λ cs.
        each_level (z.level - level) level (bump_level u) cs >>= (λ cs'. cs' 0 p >>= (λ l.
          link_back p l.forward (record (create_node p level a z) {
            column = cs';
            backward =
                put (create_node p level a z).backward p
                  (some (if q.0 == z.header then none else some q.0));
            length = (z.length + 1) % u64_mod;
          })))))

  -- what follows the search and the choice of the level
  unfoldable pub insert_at : ℕ → ℕ → A → Updates → Zsl A → Option (Zsl A)
  unfolding raise insert_raised
  insert_at p level a u z =
      raise level z >>= λ z'. insert_raised p level a (raised_updates level z u) z'

  -- zslInsert, where malloc gives the address `p`, and `rs` are the results of random()
  unfoldable pub zsl_insert : (A → A → Ordering) → ℕ → List ℕ → A → Zsl A → Option (Zsl A)
  unfolding insert_at descend random_level
  zsl_insert cmp p rs a z =
      descend u32_mod (λ b r. is_less (cmp b a)) z.level z (z.header, 0) (λ i. none)
      >>= (λ found. random_level rs >>= λ level. insert_at p level a found.0 z)
