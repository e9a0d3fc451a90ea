-- ===== src/KeyValue/Send/Middle.antt =====
-- Lists that are split at the item that is written now.
use bo_atom.Prelude.{
  ℕ, suc, ◌+◌, ◌≡◌, refl, ap, List, [], ◌∷◌, ◌++◌, take, set, length, map, get_or, length-append,
  arith,
}

pub get_or-middle {ℓ} :
    {A : Type ℓ} (xs : List (List ℕ)) (f : List ℕ → A) (y : A) (ys : List A) (d : A)
    → get_or (map f xs ++ y ∷ ys) (length xs) d ≡ y
get_or-middle [] f y ys d = refl
get_or-middle (x ∷ xs) f y ys d = get_or-middle xs f y ys d

pub set-middle :
    (xs : List (List ℕ)) (y z : ℕ) (ys : List ℕ)
    → set (map length xs ++ y ∷ ys) (length xs) z ≡ map length xs ++ z ∷ ys
set-middle [] y z ys = refl
set-middle (x ∷ xs) y z ys = ap (λ l. length x ∷ l) (set-middle xs y z ys)

pub length-middle :
    (xs ys : List (List ℕ)) (y : List ℕ) → length (xs ++ y ∷ ys) ≡ suc (length xs + length ys)
length-middle xs ys y = omega (arith, length-append xs (y ∷ ys))

pub value-middle :
    (done todo : List (List ℕ)) (v : List ℕ) → get_or (done ++ v ∷ todo) (length done) [] ≡ v
value-middle [] todo v = refl
value-middle (x ∷ done) todo v = value-middle done todo v

pub lengths-middle :
    (done todo : List (List ℕ)) (v : List ℕ)
    → get_or (map length (done ++ v ∷ todo)) (length done) 0 ≡ length v
lengths-middle [] todo v = refl
lengths-middle (x ∷ done) todo v = lengths-middle done todo v

pub map-snoc :
    (xs : List (List ℕ)) (x : List ℕ) (ys : List ℕ)
    → map length (xs ++ x ∷ []) ++ ys ≡ map length xs ++ length x ∷ ys
map-snoc [] x ys = refl
map-snoc (y ∷ xs) x ys = ap (λ l. length y ∷ l) (map-snoc xs x ys)

pub snoc-length : (xs : List (List ℕ)) (x : List ℕ) → length (xs ++ x ∷ []) ≡ length xs + 1
snoc-length xs x = length-append xs (x ∷ [])

pub take-all : (v : List ℕ) → take (length v) v ≡ v
take-all [] = refl
take-all (x ∷ v) = ap (λ l. x ∷ l) (take-all v)
