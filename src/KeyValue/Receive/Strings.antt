-- ===== src/KeyValue/Receive/Strings.antt =====
-- What the string functions of the receiving side find in well-formed bytes.
use bo_atom.Prelude.{
  ℕ, zero, suc, ◌+◌, ◌≤◌, ◌<◌, ◌≡◌, refl, sym, ap, ◌∙◌, true, false, some, List, [], ◌∷◌, ◌++◌,
  ◌==◌, leb, arith, length, take, drop, set, get_or, All,
}
use bo_atom.KeyValue.Receive.Lines.{
  ends_at, line_end, star_from, is_digit, is_space, digits, int_max, plus, atoi, item_size,
}

abbrev pub AllDigits : List ℕ → Type 0
AllDigits ds = All (λ b. is_digit b ≡ true) ds

pub line_end-digits :
    (i : ℕ) (ds rest : List ℕ)
    → AllDigits ds
    → line_end i (ds ++ 13 ∷ 10 ∷ rest) ≡ ends_at (i + length ds)
unfolding line_end
line_end-digits i [] rest a = ap ends_at (omega arith)
line_end-digits i (d ∷ ds) rest a =
    let b : (d == 0) ≡ false = ground (arith, a.0) in
    let c : (d == 13) ≡ false = ground (arith, a.0) in
    rw (b, c, line_end-digits (suc i) ds rest a.1) (ap ends_at (omega arith))

pub line_end-dollar :
    (i : ℕ) (ds rest : List ℕ)
    → AllDigits ds
    → line_end i (36 ∷ ds ++ 13 ∷ 10 ∷ rest) ≡ ends_at (i + 1 + length ds)
unfolding line_end
line_end-dollar i ds rest a = line_end-digits (suc i) ds rest a ∙ ap ends_at (omega arith)

pub line_end-star :
    (i : ℕ) (ds rest : List ℕ)
    → AllDigits ds
    → line_end i (42 ∷ ds ++ 13 ∷ 10 ∷ rest) ≡ ends_at (i + 1 + length ds)
unfolding line_end
line_end-star i ds rest a = line_end-digits (suc i) ds rest a ∙ ap ends_at (omega arith)

-- A row of digits is read as its number.
pub atoi-digits :
    (ds : List ℕ)
    → 0 < length ds
    → AllDigits ds
    → digits 0 ds ≤ int_max
    → atoi ds ≡ some (plus (digits 0 ds))
unfolding atoi
atoi-digits [] l a small = absurd (omega arith)
atoi-digits (d ∷ ds) l a small =
    let s : is_space d ≡ false = ground (arith, a.0) in
    let b : (d == 45) ≡ false = ground (arith, a.0) in
    let c : (d == 43) ≡ false = ground (arith, a.0) in
    let e : leb (digits 0 (d ∷ ds)) int_max ≡ true = ground arith in rw (s, b, c, e) refl

pub item_size-digits :
    (ds : List ℕ)
    → 0 < length ds
    → AllDigits ds
    → digits 0 ds + length ds + 5 ≤ int_max
    → item_size ds ≡ some (digits 0 ds + 1 + length ds + 2 + 2)
unfolding item_size
item_size-digits ds l a small =
    let e : leb (digits 0 ds + 1 + length ds + 2 + 2) int_max ≡ true = ground arith in
    rw (atoi-digits ds l a (omega arith), e) refl

pub star_from-here : (n i : ℕ) (bs : List ℕ) → star_from (suc n) i (42 ∷ bs) ≡ some i
unfolding star_from
star_from-here n i bs = refl

module _ {ℓ} {A : Type ℓ} where
  drop_nil : (n : ℕ) → drop {A = A} n [] ≡ []
  drop_nil zero = refl
  drop_nil (suc n) = refl

  pub drop-drop : (n m : ℕ) (xs : List A) → drop (n + m) xs ≡ drop m (drop n xs)
  drop-drop zero m xs = let e : 0 + m ≡ m = omega arith in ap (λ k. drop k xs) e
  drop-drop (suc n) m [] = drop_nil (suc n + m) ∙ sym (drop_nil m)
  drop-drop (suc n) m (x ∷ xs) =
      let e : suc n + m ≡ suc (n + m) = omega arith in
      ap (λ k. drop k (x ∷ xs)) e ∙ drop-drop n m xs

  pub get_or-drop : (n : ℕ) (xs ys : List A) (x d : A) → drop n xs ≡ x ∷ ys → get_or xs n d ≡ x
  get_or-drop zero [] ys x d e = absurd (ground arith)
  get_or-drop zero (z ∷ xs) ys x d e = ap (λ l. get_or l 0 d) e
  get_or-drop (suc n) [] ys x d e = absurd (ground arith)
  get_or-drop (suc n) (z ∷ xs) ys x d e = get_or-drop n xs ys x d e

  pub drop-set : (n i : ℕ) (xs : List A) (v : A) → i < n → drop n (set xs i v) ≡ drop n xs
  drop-set zero i xs v l = absurd (omega arith)
  drop-set (suc n) i [] v l = refl
  drop-set (suc n) zero (x ∷ xs) v l = refl
  drop-set (suc n) (suc i) (x ∷ xs) v l = drop-set n i xs v (omega arith)

  pub take-all : (n : ℕ) (xs : List A) → length xs ≤ n → take n xs ≡ xs
  take-all zero [] le = refl
  take-all (suc n) [] le = refl
  take-all zero (x ∷ xs) le = absurd (omega arith)
  take-all (suc n) (x ∷ xs) le = ap (λ l. x ∷ l) (take-all n xs (omega arith))
