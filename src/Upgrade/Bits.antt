-- ===== src/Upgrade/Bits.antt =====
-- Machine words as lists of bits, the lowest first.
use mathlib.Core.Bool.{false≢true}
use bo_atom.Prelude.{
  arith, ℕ, zero, suc, ◌+◌, ◌*◌, ◌/◌, ◌%◌, ◌≡◌, refl, ap, Bool, true, false, not, List, [], ◌∷◌,
  ◌==◌, if◌then◌else◌, length, ◌&&◌,
}

-- the lowest bits of a number, and the number that bits stand for
abbrev pub bits : ℕ → ℕ → List Bool
bits zero n = []
bits (suc w) n = (n % 2 == 1) ∷ bits w (n / 2)

abbrev pub number : List Bool → ℕ
number [] = 0
number (b ∷ bs) = (if b then 1 else 0) + 2 * number bs

-- `^` and `~`
abbrev pub xor : Bool → Bool → Bool
xor true b = not b
xor false b = b

abbrev pub xor_bits : List Bool → List Bool → List Bool
xor_bits (a ∷ u) (b ∷ v) = xor a b ∷ xor_bits u v
xor_bits _ _ = []

-- The test holds for every list of `k` bits.
abbrev pub for_all : ℕ → (List Bool → Bool) → Bool
for_all zero f = f []
for_all (suc k) f = for_all k (λ l. f (true ∷ l)) && for_all k (λ l. f (false ∷ l))

and-left : (a b : Bool) → (a && b) ≡ true → a ≡ true
and-left true b h = refl
and-left false b h = h

and-right : (a b : Bool) → (a && b) ≡ true → b ≡ true
and-right true b h = h
and-right false true h = refl
and-right false false h = h

pub for_all_holds :
    (k : ℕ) (f : List Bool → Bool) (l : List Bool) → for_all k f ≡ true → length l ≡ k → f l ≡ true
for_all_holds zero f [] h e = h
for_all_holds zero f (b ∷ l) h e = absurd (omega arith)
for_all_holds (suc k) f [] h e = absurd (omega arith)
for_all_holds (suc k) f (true ∷ l) h e =
    for_all_holds k (λ l. f (true ∷ l)) l
      (and-left (for_all k (λ l. f (true ∷ l))) (for_all k (λ l. f (false ∷ l))) h) (omega arith)
for_all_holds (suc k) f (false ∷ l) h e =
    for_all_holds k (λ l. f (false ∷ l)) l
      (and-right (for_all k (λ l. f (true ∷ l))) (for_all k (λ l. f (false ∷ l))) h) (omega arith)

abbrev pub same_bits : List Bool → List Bool → Bool
same_bits [] [] = true
same_bits (a ∷ u) (b ∷ v) = not (xor a b) && same_bits u v
same_bits _ _ = false

pub same_bits_eq : (u v : List Bool) → same_bits u v ≡ true → u ≡ v
same_bits_eq [] [] h = refl
same_bits_eq [] (b ∷ v) h = absurd (false≢true h)
same_bits_eq (a ∷ u) [] h = absurd (false≢true h)
same_bits_eq (true ∷ u) (true ∷ v) h = ap (λ l. true ∷ l) (same_bits_eq u v h)
same_bits_eq (true ∷ u) (false ∷ v) h = absurd (false≢true h)
same_bits_eq (false ∷ u) (true ∷ v) h = absurd (false≢true h)
same_bits_eq (false ∷ u) (false ∷ v) h = ap (λ l. false ∷ l) (same_bits_eq u v h)
