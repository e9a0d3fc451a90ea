-- ===== src/SkipList/Insert/Sorted.antt =====
-- zslInsert is insertion into the sorted list.
use bo_atom.Prelude.{
  ℕ, ◌+◌, ◌*◌, ◌%◌, ◌<◌, ◌≤◌, ◌≡◌, ◌∙◌, sym, false, none, some, List, [], ◌∷◌, ◌++◌, ◌==◌, ltb,
  if◌then◌else◌, arith, length, Option-cases, inl, inr, All, min,
}
use Prim.Native.Nat.{Ordering}
use mathlib.Core.Path.{subst}
use bo_atom.SkipList.{Zsl, u32_mod, max_level, is_less, count_levels, random_level}
use bo_atom.SkipList.Chain.{Entry, IsSkip, Absent}
use bo_atom.SkipList.Order.{
  IsOrder, IsSorted, before, after, before-after, before-Passes, after-Fails, less_down,
  insert_sorted, insert_sorted-split, insert_sorted-IsSorted,
}
use bo_atom.SkipList.Search.{search-stops}
use bo_atom.SkipList.Insert.{zsl_insert}
use bo_atom.SkipList.Insert.Keeps.{insert_at-IsSkip, bind-some}

count_levels-le : (rs : List ℕ) (n l : ℕ) → count_levels rs n ≡ some l → n ≤ l
unfolding count_levels
count_levels-le [] n l e = absurd (ground arith)
count_levels-le (r ∷ rs) n l e = ground (arith, count_levels-le rs (n + 1) l)

pub random_level-bounds :
    (rs : List ℕ) (l : ℕ) → random_level rs ≡ some l → (0 < l) × (l ≤ max_level)
unfolding random_level
random_level-bounds rs l e = elim (Option-cases (count_levels rs 1)) [
  | inl none_left ↦ let wrong : none ≡ some l = sym (rw none_left) ∙ e in absurd (ground arith)
  | inr (k, counted) ↦
      let le = count_levels-le rs 1 k counted in
      let value : some (if ltb k max_level then k else max_level) ≡ some l =
        sym (bind-some counted _) ∙ e in
      ground arith
]

-- zslRandomLevel ends at the first result whose low 16 bits are not below a quarter of 65535, with one
-- more level than the results before it, and at most ZSKIPLIST_MAXLEVEL.
pub random_level-min :
    (low : List ℕ) (r : ℕ) (rs : List ℕ)
    → All (λ r. 4 * (r % 65536) < 65535) low
    → 65535 ≤ 4 * (r % 65536)
    → (random_level (low ++ r ∷ rs) ≡ some (min (length low + 1) max_level))
unfolding random_level
random_level-min low r rs all end = bind-some (counted low 1 all) _ ∙ ground arith
  where
    counted :
        (low : List ℕ) (n : ℕ)
        → All (λ r. 4 * (r % 65536) < 65535) low
        → count_levels (low ++ r ∷ rs) n ≡ some (length low + n)
    counted [] n a = ground arith
    counted (x ∷ low) n a = ground (arith, counted low (n + 1) a.1)

module _ {ℓ} {A : Type ℓ} (cmp : A → A → Ordering) (o : IsOrder cmp) where
  -- On a sorted list of fewer than 2^32 - 1 nodes zslInsert, with a fresh address from malloc, follows
  -- no bad pointer and reads nothing that is not set. The structure then stands, with its links,
  -- spans, backward pointers, tail and length, for the list with the new node behind the nodes
  -- whose objects are less, which is sorted.
  pub zsl_insert-IsSkip :
      (z : Zsl A) (es : List (Entry A)) (p level : ℕ) (rs : List ℕ) (a : A)
      → IsSkip z es
      → IsSorted cmp es
      → random_level rs ≡ some level
      → (z.header == p) ≡ false
      → Absent p es
      → length es + 1 < u32_mod
      → (z' : Zsl A) × (zsl_insert cmp p rs a z ≡ some z')
        × IsSkip z' (insert_sorted cmp (record { at = p; obj = a; height = level }) es)
        × IsSorted cmp (insert_sorted cmp (record { at = p; obj = a; height = level }) es)
  unfolding zsl_insert
  zsl_insert-IsSkip z es p level rs a s sorted random hp away w =
      let new : Entry A = record { at = p; obj = a; height = level } in
      let less = λ (b : A). is_less (cmp b a) in
      let front = before less es in
      let back = after less es in
      let split = before-after less es in
      let s' : IsSkip z (front ++ back) = subst (λ l. IsSkip z l) (sym split) s in
      let w' : length (front ++ back) + 1 < u32_mod =
        subst (λ (l : List (Entry A)). length l + 1 < u32_mod) (sym split) w in
      let (u, found, stops, kept) =
        search-stops u32_mod (λ b r. less b) z front back s' (before-Passes less 0 es)
          (after-Fails less cmp (λ b c. less_down cmp o b c a) (length front) es sorted)
          (omega arith) (λ i. none) in
      let (lo, hi) = random_level-bounds rs level random in
      let (z', run, done) =
        insert_at-IsSkip z front back s' new u stops lo hi
          (subst (λ l. Absent p l) (sym split) away) hp w' in
      (
        z',
        bind-some found _ ∙ bind-some random _ ∙ run,
        subst (λ l. IsSkip z' l) (insert_sorted-split cmp new es) done,
        insert_sorted-IsSorted cmp o new es sorted,
      )
