-- ===== src/SkipList/Chain.antt =====
-- The ordered list that the towers of a skip list stand for.
use bo_atom.Prelude.{
  ℕ, suc, ◌+◌, ◌<◌, ◌≤◌, ◌≡◌, refl, Bool, true, false, ◌||◌, Option, none, some, List, [], ◌∷◌,
  ◌==◌, ltb, if◌then◌else◌, arith, length, Bool-cases, inl, inr, ap,
}
use bo_atom.SkipList.{Level, Column, Zsl, max_level, put}

-- a node of the list: its address, its object, and the height of its tower
pub record Entry {ℓ} (A : Type ℓ) : Type ℓ where
  pub at : ℕ
  pub obj : A
  pub height : ℕ

abbrev pub from : ℕ → Level → Level
from d l = record { forward = l.forward; span = d + l.span }

pub from-zero : (l : Level) → from 0 l ≡ l
from-zero l = ap (λ n. record { forward = l.forward; span = n }) (omega arith)

pub put-same {ℓ} : {A : Type ℓ} (f : ℕ → A) (p : ℕ) (v : A) → put f p v p ≡ v
put-same f p v = ground arith

pub put-other {ℓ} :
    {A : Type ℓ} (f : ℕ → A) (p i : ℕ) (v : A) → (p == i) ≡ false → put f p v i ≡ f i
put-other f p i v other = rw other

module _ {ℓ} {A : Type ℓ} where
  -- The link on level `i` of a node behind which the list is `es`: to the first that is taller
  -- than `i`, with its distance; NULL with the distance to the end.
  abbrev pub reach : ℕ → List (Entry A) → Level
  reach i [] = record { forward = none; span = 0 }
  reach i (e ∷ es) =
      if ltb i e.height then record { forward = some e.at; span = 1 } else from 1 (reach i es)

  -- The last node of `es` that is taller than `i`, with its rank, or else the node `x`; `k` nodes
  -- are before `es`.
  abbrev pub stop : ℕ → ℕ × ℕ → ℕ → List (Entry A) → ℕ × ℕ
  stop i x k [] = x
  stop i x k (e ∷ es) = stop i (if ltb i e.height then (e.at, suc k) else x) (suc k) es

  abbrev pub any_over : ℕ → List (Entry A) → Bool
  any_over i [] = false
  any_over i (e ∷ es) = ltb i e.height || any_over i es

  -- In column `i` the nodes that are taller than `i` have the right links.
  abbrev pub Linked : ℕ → Column → List (Entry A) → Type 0
  Linked i c [] = Unit
  Linked i c (e ∷ es) = (ltb i e.height ≡ true → c e.at ≡ some (reach i es)) × Linked i c es

  abbrev pub Holds : (ℕ → Option (Option A)) → List (Entry A) → Type ℓ
  Holds obj [] = Unit
  Holds obj (e ∷ es) = (obj e.at ≡ some (some e.obj)) × Holds obj es

  abbrev pub Absent : ℕ → List (Entry A) → Type 0
  Absent p [] = Unit
  Absent p (e ∷ es) = ((p == e.at) ≡ false) × Absent p es

  abbrev pub Distinct : List (Entry A) → Type 0
  Distinct [] = Unit
  Distinct (e ∷ es) = Absent e.at es × Distinct es

  abbrev pub Heights : ℕ → List (Entry A) → Type 0
  Heights n [] = Unit
  Heights n (e ∷ es) = (0 < e.height) × (e.height ≤ n) × Heights n es

  -- Each node's `backward` is the node before it.
  abbrev pub Backs : (ℕ → Option (Option ℕ)) → Option ℕ → List (Entry A) → Type 0
  Backs b pre [] = Unit
  Backs b pre (e ∷ es) = (b e.at ≡ some pre) × Backs b (some e.at) es

  abbrev pub last_of : Option ℕ → List (Entry A) → Option ℕ
  last_of pre [] = pre
  last_of pre (e ∷ es) = last_of (some e.at) es

  -- The structure stands for the list `es`.
  pub record IsSkip (z : Zsl A) (es : List (Entry A)) : Type ℓ where
    pub head_obj : z.obj z.header ≡ some none
    pub head : (i : ℕ) → ltb i z.level ≡ true → z.column i z.header ≡ some (reach i es)
    pub above :
        (i : ℕ)
        → ltb i z.level ≡ false
        → i < max_level
        → (s : ℕ) × (z.column i z.header ≡ some (record { forward = none; span = s }))
    pub linked : (i : ℕ) → Linked i (z.column i) es
    pub holds : Holds z.obj es
    pub backs : Backs z.backward none es
    pub tail : z.tail ≡ last_of none es
    pub distinct : Absent z.header es × Distinct es
    pub heights : Heights z.level es
    pub low : 0 < z.level
    pub high : z.level ≤ max_level
    pub counted : z.length ≡ length es

  pub span-le : (i : ℕ) (es : List (Entry A)) → (reach i es).span ≤ length es
  span-le i [] = omega arith
  span-le i (e ∷ es) = ground (arith, span-le i es)

  -- the view over a node that is too low, from `d` nodes before it
  pub from-under :
      (i d : ℕ) (e : Entry A) (es : List (Entry A))
      → ltb i e.height ≡ false
      → from d (reach i (e ∷ es)) ≡ from (d + 1) (reach i es)
  from-under i d e es under =
      rw under (ap (λ n. record { forward = (reach i es).forward; span = n }) (omega arith))

  pub from-over :
      (i d : ℕ) (e : Entry A) (es : List (Entry A))
      → ltb i e.height ≡ true
      → from d (reach i (e ∷ es)) ≡ record { forward = some e.at; span = d + 1 }
  from-over i d e es over = rw over

  pub reach-none :
      (i : ℕ) (es : List (Entry A))
      → any_over i es ≡ false
      → reach i es ≡ record { forward = none; span = length es }
  reach-none i [] h = refl
  reach-none i (e ∷ es) h = elim (Bool-cases (ltb i e.height)) [
    | inl over ↦ absurd (ground arith)
    | inr under ↦
        rw (under, reach-none i es (ground arith))
          (ap (λ n. record { forward = none; span = n }) (omega arith))
  ]

  abbrev pub first : List (Entry A) → Option ℕ
  first [] = none
  first (e ∷ es) = some e.at

  pub reach-first : (n : ℕ) (es : List (Entry A)) → Heights n es → (reach 0 es).forward ≡ first es
  reach-first n [] h = refl
  reach-first n (e ∷ es) h = let over : ltb 0 e.height ≡ true = ground arith in rw over refl
