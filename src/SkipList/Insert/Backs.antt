-- ===== src/SkipList/Insert/Backs.antt =====
-- The fields of the nodes that are not per level, around the new node.
use bo_atom.Prelude.{
  ℕ, ◌<◌, ◌≤◌, ◌≡◌, refl, ◌∙◌, true, false, Option, some, List, [], ◌∷◌, ◌++◌, ◌==◌, ltb,
}
use bo_atom.Server.Clients.Refines.{==_sym}
use bo_atom.SkipList.{Column, put}
use bo_atom.SkipList.Chain.{
  Entry, reach, Linked, Holds, Absent, Distinct, Heights, Backs, last_of, put-same, put-other,
}

module _ {ℓ} {A : Type ℓ} where
  pub Holds-put :
      (obj : ℕ → Option (Option A)) (p : ℕ) (v : Option (Option A)) (es : List (Entry A))
      → Absent p es
      → Holds obj es
      → Holds (put obj p v) es
  Holds-put obj p v [] a h = tt
  Holds-put obj p v (e ∷ es) a h = (rw (a.0) (h.0), Holds-put obj p v es a.1 h.1)

  pub Holds-insert :
      (obj : ℕ → Option (Option A)) (front back : List (Entry A)) (new : Entry A)
      → obj new.at ≡ some (some new.obj)
      → Holds obj (front ++ back)
      → Holds obj (front ++ new ∷ back)
  Holds-insert obj [] back new n h = (n, h)
  Holds-insert obj (e ∷ front) back new n h = (h.0, Holds-insert obj front back new n h.1)

  pub Absent-insert :
      (p : ℕ) (front back : List (Entry A)) (new : Entry A)
      → (p == new.at) ≡ false
      → Absent p (front ++ back)
      → Absent p (front ++ new ∷ back)
  Absent-insert p [] back new n a = (n, a)
  Absent-insert p (e ∷ front) back new n a = (a.0, Absent-insert p front back new n a.1)

  pub Distinct-insert :
      (front back : List (Entry A)) (new : Entry A)
      → Absent new.at (front ++ back)
      → Distinct (front ++ back)
      → Distinct (front ++ new ∷ back)
  Distinct-insert [] back new a d = (a, d)
  Distinct-insert (e ∷ front) back new a d = (
    Absent-insert e.at front back new (==_sym new.at e.at a.0) d.0,
    Distinct-insert front back new a.1 d.1,
  )

  pub Heights-insert :
      (n : ℕ) (front back : List (Entry A)) (new : Entry A)
      → 0 < new.height
      → new.height ≤ n
      → Heights n (front ++ back)
      → Heights n (front ++ new ∷ back)
  Heights-insert n [] back new lo hi h = (lo, hi, h)
  Heights-insert n (e ∷ front) back new lo hi h =
      (h.0, h.1, Heights-insert n front back new lo hi h.2)

  pub Linked-at :
      (i : ℕ) (c : Column) (front back : List (Entry A)) (new : Entry A)
      → Linked i c (front ++ new ∷ back)
      → ltb i new.height ≡ true
      → c new.at ≡ some (reach i back)
  Linked-at i c [] back new l over = l.0 over
  Linked-at i c (e ∷ front) back new l over = Linked-at i c front back new l.1 over

  pub Backs-put :
      (b : ℕ → Option (Option ℕ)) (pre : Option ℕ) (p : ℕ) (v : Option (Option ℕ))
      (es : List (Entry A))
      → Absent p es
      → Backs b pre es
      → Backs (put b p v) pre es
  Backs-put b pre p v [] a k = tt
  Backs-put b pre p v (e ∷ es) a k = (rw (a.0) (k.0), Backs-put b (some e.at) p v es a.1 k.1)

  -- `backward` after the last statements of zslInsert
  abbrev pub backward_of : (ℕ → Option (Option ℕ)) → ℕ → List (Entry A) → ℕ → Option (Option ℕ)
  backward_of b p [] = b
  backward_of b p (e ∷ es) = put b e.at (some (some p))

  pub Backs-insert :
      (b : ℕ → Option (Option ℕ)) (pre : Option ℕ) (front back : List (Entry A)) (new : Entry A)
      → b new.at ≡ some (last_of pre front)
      → Absent new.at back
      → Distinct (front ++ back)
      → Backs b pre (front ++ back)
      → Backs (backward_of b new.at back) pre (front ++ new ∷ back)
  Backs-insert b pre [] [] new n a d k = (n, tt)
  Backs-insert b pre [] (y ∷ back) new n a d k = (
    put-other b y.at new.at _ (==_sym new.at y.at a.0) ∙ n,
    (put-same b y.at _, Backs-put b (some y.at) y.at _ back d.0 k.1),
  )
  Backs-insert b pre (e ∷ front) [] new n a d k =
      (k.0, Backs-insert b (some e.at) front [] new n a d.1 k.1)
  Backs-insert b pre (e ∷ front) (y ∷ back) new n a d k = (
    put-other b y.at e.at _ (==_sym e.at y.at (Absent-head e.at front back y d.0)) ∙ k.0,
    Backs-insert b (some e.at) front (y ∷ back) new n a d.1 k.1,
  )
    where
      Absent-head :
          (p : ℕ) (front back : List (Entry A)) (y : Entry A)
          → Absent p (front ++ y ∷ back)
          → (p == y.at) ≡ false
      Absent-head p [] back y a = a.0
      Absent-head p (e ∷ front) back y a = Absent-head p front back y a.1

  pub last_of-insert :
      (pre : Option ℕ) (front back : List (Entry A)) (new : Entry A)
      → last_of pre (front ++ new ∷ back) ≡ last_of (some new.at) back
  last_of-insert pre [] back new = refl
  last_of-insert pre (e ∷ front) back new = last_of-insert (some e.at) front back new

  pub last_of-append :
      (pre : Option ℕ) (front back : List (Entry A)) (y : Entry A)
      → last_of pre (front ++ y ∷ back) ≡ last_of (some y.at) back
  last_of-append pre front back y = last_of-insert pre front back y
