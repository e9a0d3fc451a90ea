-- ===== src/SkipList/Stops.antt =====
-- Where a search on one level of a skip list stops.
use bo_atom.Prelude.{
  ℕ, suc, ◌+◌, ◌≤◌, ◌≡◌, refl, sym, ◌∙◌, true, false, none, some, List, [], ◌∷◌, ◌++◌, ◌==◌, ltb,
  if◌then◌else◌, arith, length, Bool-cases, inl, inr, ap,
}
use bo_atom.SkipList.{Column}
use bo_atom.SkipList.Chain.{
  reach, stop, any_over, Linked, Absent, Heights, last_of, from-under, Entry, from, from-zero,
}

module _ {ℓ} {A : Type ℓ} where
  pub stop-stays :
      (i k : ℕ) (x : ℕ × ℕ) (es : List (Entry A)) → any_over i es ≡ false → stop i x k es ≡ x
  stop-stays i k x [] h = refl
  stop-stays i k x (e ∷ es) h = elim (Bool-cases (ltb i e.height)) [
    | inl over ↦ absurd (ground arith)
    | inr under ↦ rw under (stop-stays i (suc k) x es (ground arith))
  ]

  -- Behind a node that is taller than `j` the start no longer matters, on that level and below.
  pub stop-forget :
      (j i k : ℕ) (x y : ℕ × ℕ) (es : List (Entry A))
      → any_over j es ≡ true
      → i ≤ j
      → stop i x k es ≡ stop i y k es
  stop-forget j i k x y [] h le = absurd (ground arith)
  stop-forget j i k x y (e ∷ es) h le = elim (Bool-cases (ltb i e.height)) [
    | inl over ↦ rw over refl
    | inr under ↦ rw under (stop-forget j i (suc k) x y es (ground arith) le)
  ]

  pub stop-over :
      (i k : ℕ) (x : ℕ × ℕ) (e : Entry A) (es : List (Entry A))
      → ltb i e.height ≡ true
      → stop i x k (e ∷ es) ≡ stop i (e.at, suc k) (suc k) es
  stop-over i k x e es over = ap (λ b. stop i (if b then (e.at, suc k) else x) (suc k) es) over

  -- On the lowest level the search ends at the last node in front, whose rank is its place.
  pub stop-rank :
      (n r k : ℕ) (x : ℕ) (es : List (Entry A))
      → Heights n es
      → r ≡ k
      → (stop 0 (x, r) k es).1 ≡ k + length es
  stop-rank n r k x [] h e = omega arith
  stop-rank n r k x (f ∷ es) h e =
      ap (λ (q : ℕ × ℕ). q.1) (stop-over 0 k (x, r) f es (ground arith))
      ∙ omega (arith, stop-rank n (suc k) (suc k) f.at es h.2 refl)

  pub stop-last :
      (n r k x : ℕ) (es : List (Entry A))
      → Heights n es
      → some ((stop 0 (x, r) k es).0) ≡ last_of (some x) es
  stop-last n r k x [] h = refl
  stop-last n r k x (f ∷ es) h =
      ap (λ (q : ℕ × ℕ). some q.0) (stop-over 0 k (x, r) f es (ground arith))
      ∙ stop-last n (suc k) (suc k) f.at es h.2

  pub stop-away :
      (i p x r k : ℕ) (es : List (Entry A))
      → Absent p es
      → (x == p) ≡ false
      → ((stop i (x, r) k es).0 == p) ≡ false
  stop-away i p x r k [] a h = h
  stop-away i p x r k (e ∷ es) a h = elim (Bool-cases (ltb i e.height)) [
    | inl over ↦
        ap (λ (q : ℕ × ℕ). q.0 == p) (stop-over i k (x, r) e es over)
        ∙ stop-away i p e.at (suc k) (suc k) es a.1 (ground (arith, a.0))
    | inr under ↦
        ap (λ b. (stop i (if b then (e.at, suc k) else (x, r)) (suc k) es).0 == p) under
        ∙ stop-away i p x r (suc k) es a.1 h
  ]

  -- The node before the place: none where the search stopped at the header.
  pub before-last :
      (n p : ℕ) (es : List (Entry A))
      → Absent p es
      → Heights n es
      → (if (stop 0 (p, 0) 0 es).0 == p then none else some ((stop 0 (p, 0) 0 es).0))
        ≡ last_of none es
  before-last n p [] a h = let self : (p == p) ≡ true = ground arith in rw self refl
  before-last n p (e ∷ es) a h =
      let q = stop 0 (e.at, 1) 1 es in
      let other : (q.0 == p) ≡ false = stop-away 0 p e.at 1 1 es a.1 (ground (arith, a.0)) in
      ap (λ (q : ℕ × ℕ). if q.0 == p then none else some q.0)
        (stop-over 0 0 (p, 0) e es (ground arith))
      ∙ ap (λ b. if b then none else some q.0) other
      ∙ stop-last n 1 1 e.at es h.2

  -- Where a search stops, the node's link on that level leads into what is behind.
  pub stop-cell :
      (i : ℕ) (c : Column) (d r x k : ℕ) (front back : List (Entry A))
      → c x ≡ some (from d (reach i (front ++ back)))
      → Linked i c (front ++ back)
      → (d' : ℕ) × (c (stop i (x, r) k front).0 ≡ some (from d' (reach i back)))
  stop-cell i c d r x k [] back v l = (d, v)
  stop-cell i c d r x k (e ∷ front) back v l = elim (Bool-cases (ltb i e.height)) [
    | inl over ↦
        let (d', there) =
          stop-cell i c 0 (suc k) e.at (suc k) front back
            (l.0 over ∙ ap some (sym (from-zero (reach i (front ++ back))))) l.1 in
        (d', ap (λ (q : ℕ × ℕ). c q.0) (stop-over i k (x, r) e front over) ∙ there)
    | inr under ↦
        let (d', there) =
          stop-cell i c (d + 1) r x (suc k) front back
            (v ∙ ap some (from-under i d e (front ++ back) under)) l.1 in
        (
          d',
          ap (λ b. c (stop i (if b then (e.at, suc k) else (x, r)) (suc k) front).0) under ∙ there,
        )
  ]
