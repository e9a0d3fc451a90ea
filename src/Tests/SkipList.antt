-- ===== src/Tests/SkipList.antt =====
-- A skip list of numbers: the header is at 0, the nodes at 1 and 2, and the first node has two levels.
use Prim.Native.Nat.{compare}
use bo_atom.Prelude.{
  ℕ, ◌-◌, ◌≡◌, refl, true, false, Option, none, some, List, [], ◌∷◌, ◌++◌, ◌==◌, ltb, if◌then◌else◌,
  arith, length, take, drop, All, ◌+◌, ◌<◌,
}
use bo_atom.SkipList.{Level, Zsl, max_level, random_level, create, u32_mod}
use bo_atom.SkipList.Chain.{Entry, IsSkip, first, last_of}
use bo_atom.SkipList.Order.{IsOrder, IsSorted, insert_sorted}
use bo_atom.SkipList.Insert.{zsl_insert}
use bo_atom.SkipList.Insert.Sorted.{zsl_insert-IsSkip}
use bo_atom.SkipList.Lifetime.{create-IsSkip, zsl_free_lem}
use bo_atom.SkipList.History.{IsSortedSkip, Reach-IsSortedSkip, next, created, inserts}
use bo_atom.SkipList.Query.{get_rank, get_element_by_rank, first_in_range, last_in_range, zsl_free}
use bo_atom.SkipList.Query.Found.{IsRank, get_rank_lem}
use bo_atom.SkipList.Query.Ranges.{in_range-ends}
use bo_atom.SkipList.Query.Ranks.{node_of, get_element_by_rank_lem}
use bo_atom.SkipList.Remove.{
  Range, below_min, in_max, delete_range, delete_range_by_rank, zsl_delete,
}
use bo_atom.SkipList.Remove.Loop.{freed_with}
use bo_atom.SkipList.Remove.Ranges.{inside, selected, unselected, delete_range-IsSkip}
use bo_atom.SkipList.Remove.Ranks.{delete_range_by_rank-IsSkip, zsl_delete_out_of_bounds}

numbers : IsOrder compare
numbers = record { swap = λ a b. ground arith; trans = λ a b c p q. ground arith }

abbrev to_node : ℕ → ℕ → Option Level
to_node p n = some (record { forward = some p; span = n })

abbrev end_link : ℕ → Option Level
end_link n = some (record { forward = none; span = n })

abbrev two : Zsl ℕ
two = record {
  obj = λ q.
      if q == 0
      then some none
      else if q == 1
      then some (some 10)
      else if q == 2
      then some (some 20)
      else none;
  backward = λ q.
      if q == 0
      then some none
      else if q == 1
      then some none
      else if q == 2
      then some (some 1)
      else none;
  column = λ i q.
      if q == 0
      then (if ltb i 2 then to_node 1 1 else if ltb i max_level then end_link 0 else none)
      else if q == 1
      then (if i == 0 then to_node 2 1 else if i == 1 then end_link 1 else none)
      else if q == 2
      then (if i == 0 then end_link 0 else none)
      else none;
  header = 0;
  tail = some 2;
  length = 2;
  level = 2;
  has_free = true;
  freed = [];
}

abbrev nodes : List (Entry ℕ)
nodes = record { at = 1; obj = 10; height = 2 } ∷ record { at = 2; obj = 20; height = 1 } ∷ []

two-IsSkip : IsSkip two nodes
two-IsSkip = record {
  head_obj = refl;
  head = λ i b. ground arith;
  above = λ i b c. (0, ground arith);
  linked = λ i. (λ o. ground arith, (λ o. ground arith, tt));
  holds = (refl, (refl, tt));
  backs = (refl, (refl, tt));
  tail = refl;
  distinct = ((refl, (refl, tt)), ((refl, tt), (tt, tt)));
  heights = (omega arith, omega arith, (omega arith, omega arith, tt));
  low = omega arith;
  high = omega arith;
  counted = refl;
}

nodes-IsSorted : IsSorted compare nodes
nodes-IsSorted = ((refl, tt), (tt, tt))

zsl_insert-IsSkip_example :
    (z' : Zsl ℕ) × (zsl_insert compare 3 (16383 ∷ 16384 ∷ []) 15 two ≡ some z')
    × IsSkip z' (insert_sorted compare (record { at = 3; obj = 15; height = 2 }) nodes)
    × IsSorted compare (insert_sorted compare (record { at = 3; obj = 15; height = 2 }) nodes)
zsl_insert-IsSkip_example =
    zsl_insert-IsSkip compare numbers two nodes 3 2 (16383 ∷ 16384 ∷ []) 15 two-IsSkip
      nodes-IsSorted (unfold random_level in refl) refl (refl, (refl, tt)) (omega arith)

-- the range that excludes 10 and includes 20
abbrev upper : Range ℕ
upper = record { low = 10; high = 20; minex = true; maxex = false }

delete_range-IsSkip_example :
    (z' : Zsl ℕ) × (delete_range compare upper two
      ≡ some (z', length (selected compare upper nodes)))
    × IsSkip z' (unselected compare upper nodes)
    × (z'.freed ≡ freed_with two (selected compare upper nodes))
delete_range-IsSkip_example =
    delete_range-IsSkip compare numbers two nodes upper two-IsSkip nodes-IsSorted (omega arith)

delete_range_by_rank-IsSkip_example :
    (z' : Zsl ℕ) × (delete_range_by_rank 1 1 two
      ≡ some (z', length (take (1 - (1 - 1)) (drop (1 - 1) nodes))))
    × IsSkip z' (take (1 - 1) nodes ++ drop (1 - (1 - 1)) (drop (1 - 1) nodes))
    × (z'.freed ≡ freed_with two (take (1 - (1 - 1)) (drop (1 - 1) nodes)))
delete_range_by_rank-IsSkip_example =
    delete_range_by_rank-IsSkip two nodes 1 1 two-IsSkip (omega arith)

zsl_delete_out_of_bounds_example : zsl_delete compare 10 two ≡ none
zsl_delete_out_of_bounds_example =
    zsl_delete_out_of_bounds compare numbers two nodes 10 two-IsSkip nodes-IsSorted (omega arith)

get_element_by_rank_lem_example : get_element_by_rank 2 two ≡ some (node_of 0 nodes 2)
get_element_by_rank_lem_example = get_element_by_rank_lem two nodes 2 two-IsSkip (omega arith)

get_rank_lem_example :
    (r : ℕ) × (get_rank compare 20 two ≡ some r) × IsRank compare numbers 20 nodes r
get_rank_lem_example =
    get_rank_lem compare numbers 20 two nodes two-IsSkip nodes-IsSorted (omega arith)

in_range-ends_example :
    (first_in_range compare false upper two
      ≡ some (first (inside (below_min compare upper) (in_max compare upper) nodes)))
    × (last_in_range compare false upper two
        ≡ some (last_of none (inside (below_min compare upper) (in_max compare upper) nodes)))
in_range-ends_example =
    in_range-ends compare numbers upper two nodes false two-IsSkip nodes-IsSorted
      (λ e. absurd (ground arith)) (omega arith)

zsl_free_lem_example :
    (z' : Zsl ℕ) × (zsl_free two ≡ some z')
    × (z'.freed ≡ freed_with two nodes)
    × (z'.obj two.header ≡ none)
    × All (λ e. z'.obj e.at ≡ none) nodes
zsl_free_lem_example = zsl_free_lem two nodes two-IsSkip

-- One insertion into the empty list.
abbrev made : Zsl ℕ
made = create 0 true

one_step :
    (z : Zsl ℕ) × (zsl_insert compare 1 (16384 ∷ []) 10 made ≡ some z)
    × IsSkip z (record { at = 1; obj = 10; height = 1 } ∷ [])
    × IsSorted compare (record { at = 1; obj = 10; height = 1 } ∷ [])
unfolding create
one_step =
    zsl_insert-IsSkip compare numbers made [] 1 1 (16384 ∷ []) 10 (create-IsSkip 0 true) tt
      (unfold random_level in refl) refl tt (omega arith)

made_length : made.length + 1 < u32_mod
unfolding create
made_length = omega arith

made_fresh : made.obj 1 ≡ none
unfolding create
made_fresh = refl

Reach-IsSortedSkip_example : IsSortedSkip compare one_step.0
Reach-IsSortedSkip_example = Reach-IsSortedSkip compare numbers (
    next (created 0 true)
      (inserts 1 1 (16384 ∷ []) 10 made_fresh made_length (unfold random_level in refl) one_step.1))
