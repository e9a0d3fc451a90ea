-- ===== src/SkipList.antt =====
-- data_structure/skiplist/skiplist.c: an ordered list with towers of forward links, and the number of
-- elements that each link skips.
pub mod Chain
pub mod Parts
pub mod Stops
pub mod Order
pub mod Search
pub mod Query
pub mod Remove
pub mod Columns
pub mod Lifetime
pub mod History
pub mod Edit
pub mod Insert
use bo_atom.Prelude.{
  ℕ, zero, suc, ◌+◌, ◌-◌, ◌*◌, ◌%◌, ◌^◌, Bool, true, false, ◌&&◌, Option, none, some, List, [], ◌∷◌,
  ◌++◌, ◌==◌, ltb, leb, if◌then◌else◌, ◌>>=◌,
}
use Prim.Native.Nat.{Ordering}
use Prim.Native.Nat.Ordering.{lt, eq, gt}

-- ZSKIPLIST_MAXLEVEL
abbrev pub max_level : ℕ
max_level = 32

-- `unsigned int` and `unsigned long`
abbrev pub u32_mod : ℕ
u32_mod = 2 ^ 32

abbrev pub u64_mod : ℕ
u64_mod = 2 ^ 64

unfoldable pub add32 : ℕ → ℕ → ℕ
add32 a b = (a + b) % u32_mod

unfoldable pub sub32 : ℕ → ℕ → ℕ
sub32 a b = (a + u32_mod - b) % u32_mod

-- `cmp(…) < 0`, `cmp(…) <= 0` and `cmp(…) == 0`
abbrev pub is_less : Ordering → Bool
is_less o = elim o [ lt ↦ true | _ ↦ false ]

abbrev pub is_at_most : Ordering → Bool
is_at_most o = elim o [ gt ↦ false | _ ↦ true ]

abbrev pub is_same : Ordering → Bool
is_same o = elim o [ eq ↦ true | _ ↦ false ]

-- zskiplistLevel
pub record Level : Type 0 where
  pub forward : Option ℕ
  pub span : ℕ

-- `level[i]` of all nodes, for one i; `none` at a node that has no such level.
abbrev pub Column : Type 0
Column = ℕ → Option Level

-- zskiplist, with one map from addresses for each field of zskiplistNode. `obj` of the header is
-- NULL; `freed` lists the calls of free_obj.
pub record Zsl {ℓ} (A : Type ℓ) : Type ℓ where
  pub obj : ℕ → Option (Option A)
  pub backward : ℕ → Option (Option ℕ)
  pub column : ℕ → Column
  pub header : ℕ
  pub tail : Option ℕ
  pub length : ℕ
  pub level : ℕ
  pub has_free : Bool
  pub freed : List A

abbrev pub put {ℓ} : {A : Type ℓ} → (ℕ → A) → ℕ → A → ℕ → A
put f p v i = if p == i then v else f i

-- `q->level[i] = v;` in column i
abbrev pub assign : ℕ → Level → Column → Option Column
assign q v c = c q >>= λ l. some (put c q (some v))

-- `for (i = i; i < i + n; i++)` with a body that works on `level[i]` of the nodes
unfoldable pub each_level :
    ℕ → ℕ → (ℕ → Column → Option Column) → (ℕ → Column) → Option (ℕ → Column)
each_level zero i body cs = some cs
each_level (suc n) i body cs = body i (cs i) >>= λ c. each_level n (suc i) body (put cs i c)

-- An array of ZSKIPLIST_MAXLEVEL entries, of nodes and their ranks; `none` is not initialised.
abbrev pub Updates : Type 0
Updates = ℕ → Option (ℕ × ℕ)

-- the first index i from which random()&0xFFFF fails `< ZSKIPLIST_P * 0xFFFF`, and so the level
unfoldable pub count_levels : List ℕ → ℕ → Option ℕ
count_levels [] level = none
count_levels (r ∷ rs) level =
    let more = count_levels rs (level + 1) in
    if ltb (4 * (r % 65536)) 65535 then more else some level

-- zslRandomLevel on the results of random()
unfoldable pub random_level : List ℕ → Option ℕ
unfolding count_levels
random_level rs =
    count_levels rs 1 >>= λ level. some (if ltb level max_level then level else max_level)

module _ {ℓ} {A : Type ℓ} where
  -- zslCreate, with the header at `p`
  unfoldable pub create : ℕ → Bool → Zsl A
  create p has_free = record {
    obj = put (λ i. none) p (some none);
    backward = put (λ i. none) p (some none);
    column = λ i.
        if ltb i max_level
        then put (λ q. none) p (some (record { forward = none; span = 0 }))
        else (λ q. none);
    header = p;
    tail = none;
    length = 0;
    level = 1;
    has_free = has_free;
    freed = [];
  }

  -- zslCreateNode, at the address `p` that malloc gives
  unfoldable pub create_node : ℕ → ℕ → A → Zsl A → Zsl A
  create_node p level a z = record z {
    obj = put z.obj p (some (some a));
    backward = put z.backward p (some none);
    column = λ i.
        put (z.column i) p
          (if ltb i level then some (record { forward = none; span = 0 }) else none);
  }

  -- free of the node at `p`, and zslFreeNode
  abbrev pub release : ℕ → Zsl A → Zsl A
  release p z = record z {
    obj = put z.obj p none;
    backward = put z.backward p none;
    column = λ i. put (z.column i) p none;
  }

  abbrev pub called_free : Option A → Zsl A → List A
  called_free none z = z.freed
  called_free (some a) z = if z.has_free then z.freed ++ a ∷ [] else z.freed

  unfoldable pub free_node : ℕ → Zsl A → Option (Zsl A)
  free_node p z = z.obj p >>= λ o. some (record (release p z) { freed = called_free o z })

  module _ (word : ℕ) (test : A → ℕ → Bool) where
    -- The inner loop of the searches: `while (x->level[i].forward && test)`, where the test sees the
    -- next object, and the rank at which it is. The rank is a word of that modulus.
    unfoldable pub walk : ℕ → Zsl A → ℕ → ℕ × ℕ → Option (ℕ × ℕ)
    walk zero z i x = none
    walk (suc fuel) z i x = z.column i x.0 >>= (λ l. elim (l.forward) [
      | none ↦ some x
      | some y ↦ z.obj y >>= (λ o. o >>= λ a. elim (test a ((x.1 + l.span) % word)) [
        | true ↦ walk fuel z i (y, (x.1 + l.span) % word)
        | false ↦ some x
      ])
    ])

    -- The outer loop, `for (i = n - 1; i >= 0; i--)`, with `update[i] = x; rank[i] = …`
    unfoldable pub descend : ℕ → Zsl A → ℕ × ℕ → Updates → Option (Updates × ℕ × ℕ)
    unfolding walk
    descend zero z x u = some (u, x.0, x.1)
    descend (suc i) z x u = walk (z.length + 1) z i x >>= λ x'. descend i z x' (put u i (some x'))
