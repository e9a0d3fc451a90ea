-- ===== src/SkipList/Parts.antt =====
-- Parts of the list that a skip list stands for.
use bo_atom.Prelude.{ℕ, ◌≤◌, ◌≡◌, refl, false, Option, List, [], ◌∷◌, ◌++◌, ◌==◌, ltb, arith, All}
use bo_atom.SkipList.{Level, Column, put}
use bo_atom.SkipList.Chain.{any_over, Linked, Absent, Distinct, Heights, Entry}

module _ {ℓ} {A : Type ℓ} where
  pub any_over-append :
      (i : ℕ) (xs ys : List (Entry A)) → Heights i (xs ++ ys) → any_over i xs ≡ false
  any_over-append i [] ys h = refl
  any_over-append i (x ∷ xs) ys h = ground (arith, any_over-append i xs ys h.2)

  pub Absent-left : (p : ℕ) (xs ys : List (Entry A)) → Absent p (xs ++ ys) → Absent p xs
  Absent-left p [] ys a = tt
  Absent-left p (x ∷ xs) ys a = (a.0, Absent-left p xs ys a.1)

  pub Absent-right : (p : ℕ) (xs ys : List (Entry A)) → Absent p (xs ++ ys) → Absent p ys
  Absent-right p [] ys a = a
  Absent-right p (x ∷ xs) ys a = Absent-right p xs ys a.1

  pub Linked-put :
      (i p : ℕ) (c : Column) (v : Option Level) (es : List (Entry A))
      → Absent p es
      → Linked i c es
      → Linked i (put c p v) es
  Linked-put i p c v [] a l = tt
  Linked-put i p c v (e ∷ es) a l = (λ over. rw (a.0) (l.0 over), Linked-put i p c v es a.1 l.1)

  pub Linked-right :
      (i : ℕ) (c : Column) (xs ys : List (Entry A)) → Linked i c (xs ++ ys) → Linked i c ys
  Linked-right i c [] ys l = l
  Linked-right i c (x ∷ xs) ys l = Linked-right i c xs ys l.1

  -- No node has the level, so there is nothing to link.
  pub Linked-none :
      (i : ℕ) (c : Column) (es : List (Entry A)) → any_over i es ≡ false → Linked i c es
  Linked-none i c [] h = tt
  Linked-none i c (e ∷ es) h = (λ over. absurd (ground arith), Linked-none i c es (ground arith))

  pub Heights-le : (n m : ℕ) (es : List (Entry A)) → n ≤ m → Heights n es → Heights m es
  Heights-le n m [] le h = tt
  Heights-le n m (e ∷ es) le h = (h.0, omega arith, Heights-le n m es le h.2)

  pub none_over :
      (n i : ℕ) (es : List (Entry A)) → Heights n es → ltb i n ≡ false → any_over i es ≡ false
  none_over n i [] h le = refl
  none_over n i (e ∷ es) h le = ground (arith, none_over n i es h.2)

  pub Heights-left : (n : ℕ) (xs ys : List (Entry A)) → Heights n (xs ++ ys) → Heights n xs
  Heights-left n [] ys h = tt
  Heights-left n (x ∷ xs) ys h = (h.0, h.1, Heights-left n xs ys h.2)

  pub Heights-right : (n : ℕ) (xs ys : List (Entry A)) → Heights n (xs ++ ys) → Heights n ys
  Heights-right n [] ys h = h
  Heights-right n (x ∷ xs) ys h = Heights-right n xs ys h.2

  pub Absent-append :
      (p : ℕ) (xs ys : List (Entry A)) → Absent p xs → Absent p ys → Absent p (xs ++ ys)
  Absent-append p [] ys a b = b
  Absent-append p (x ∷ xs) ys a b = (a.0, Absent-append p xs ys a.1 b)

  pub Absent-All : (p : ℕ) (es : List (Entry A)) → Absent p es → All (λ e. (p == e.at) ≡ false) es
  Absent-All p [] a = tt
  Absent-All p (e ∷ es) a = (a.0, Absent-All p es a.1)

  pub Distinct-right : (xs ys : List (Entry A)) → Distinct (xs ++ ys) → Distinct ys
  Distinct-right [] ys d = d
  Distinct-right (x ∷ xs) ys d = Distinct-right xs ys d.1

  -- The node in the middle is in neither part.
  pub Distinct-middle :
      (xs ys : List (Entry A)) (e : Entry A)
      → Distinct (xs ++ e ∷ ys)
      → Absent e.at xs × Absent e.at ys × Distinct (xs ++ ys)
  Distinct-middle [] ys e d = (tt, d.0, d.1)
  Distinct-middle (x ∷ xs) ys e d =
      let (a, b, c) = Distinct-middle xs ys e d.1 in
      let away = Absent-right x.at xs (e ∷ ys) d.0 in
      let sym_away : (e.at == x.at) ≡ false = ground (arith, away.0) in
      ((sym_away, a), b, (Absent-append x.at xs ys (Absent-left x.at xs (e ∷ ys) d.0) away.1, c))
