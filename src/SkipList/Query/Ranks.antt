-- ===== src/SkipList/Query/Ranks.antt =====
-- zslGetElementByRank gives the node of a rank, and zslGetRank a rank at which the object is.
use bo_atom.Prelude.{
  get_elem?, ℕ, zero, suc, ◌+◌, ◌-◌, ◌<◌, ◌≤◌, ◌≡◌, refl, ◌∙◌, sym, ap, Bool, Option, none, some,
  List, [], ◌∷◌, ◌++◌, ◌==◌, ltb, leb, if◌then◌else◌, arith, length, Bool-cases, inl, inr, ◌⊎◌, ◌≢◌,
  length-append, take, drop, take-append-drop, length-take,
}
use mathlib.Core.Path.{subst}
use bo_atom.SkipList.{Zsl, u64_mod, walk}
use bo_atom.SkipList.Chain.{Entry, IsSkip, reach, stop, from-zero}
use bo_atom.SkipList.Parts.{Heights-left, any_over-append}
use bo_atom.SkipList.Stops.{stop-stays, stop-over, stop-rank}
use bo_atom.SkipList.Search.{Passes, Fails, level_below}
use bo_atom.SkipList.Insert.Keeps.{bind-some}
use bo_atom.SkipList.Query.{element_loop, get_element_by_rank}
use bo_atom.SkipList.Remove.Ranks.{take-Passes, drop-Fails}

module _ {ℓ} {A : Type ℓ} where
  -- A search stops at its start or at one of the nodes, with its rank.
  pub stop-entry :
      (i k : ℕ) (x : ℕ × ℕ) (es : List (Entry A))
      → (stop i x k es ≡ x)
        ⊎ ((e : Entry A) × (j : ℕ) × (get_elem? es j ≡ some e)
            × (stop i x k es ≡ (e.at, suc (k + j))))
  stop-entry i k x [] = inl refl
  stop-entry i k x (e ∷ es) = elim (Bool-cases (ltb i e.height)) [
    | inl over ↦ elim (stop-entry i (suc k) (e.at, suc k) es) [
      | inl same ↦
          inr
            (e, 0, refl, stop-over i k x e es over ∙ same ∙ ap (λ (n : ℕ). (e.at, n)) (omega arith))
      | inr (f, j, at, there) ↦ inr (
        f,
        suc j,
        at,
        stop-over i k x e es over ∙ there ∙ ap (λ (n : ℕ). (f.at, n)) (omega arith),
      )
    ]
    | inr under ↦
        let low = ap (λ b. stop i (if b then (e.at, suc k) else x) (suc k) es) under in
        elim (stop-entry i (suc k) x es) [
          | inl same ↦ inl (low ∙ same)
          | inr (f, j, at, there) ↦
              inr (f, suc j, at, low ∙ there ∙ ap (λ (n : ℕ). (f.at, n)) (omega arith))
        ]
  ]

  -- the node with the rank: the header has rank 0
  abbrev pub node_of : ℕ → List (Entry A) → ℕ → Option ℕ
  node_of header es zero = some header
  node_of header es (suc j) = elim (get_elem? es j) [ none ↦ none | some e ↦ some e.at ]

  module _ (z : Zsl A) (front back : List (Entry A)) (s : IsSkip z (front ++ back))
      (test : A → ℕ → Bool) (p : Passes test 0 front) (t : Fails test (length front) back)
      (w : length (front ++ back) < u64_mod) where
    -- one round of a search
    pub level_step :
        (n : ℕ)
        → n < z.level
        → walk u64_mod test (z.length + 1) z n (stop (suc n) (z.header, 0) 0 front)
          ≡ some (stop n (z.header, 0) 0 front)
    level_step n le =
        let add_one : z.length + 1 ≡ suc z.length = omega arith in
        ap (λ m. walk u64_mod test m z n (stop (suc n) (z.header, 0) 0 front)) add_one
        ∙ level_below u64_mod test z n z.length 0 0 z.header 0 (length front) front back
            (omega arith) (omega arith)
            (s.head n (ground arith) ∙ ap some (sym (from-zero (reach n (front ++ back)))))
            (s.linked n) s.holds p t (omega arith)
            (omega (arith, s.counted, length-append front back))

    pub top : stop z.level (z.header, 0) 0 front ≡ (z.header, 0)
    top = stop-stays z.level 0 (z.header, 0) front (any_over-append z.level front back s.heights)

  pub get_elem?-append :
      (xs ys : List (Entry A)) (j : ℕ) (e : Entry A)
      → get_elem? xs j ≡ some e
      → get_elem? (xs ++ ys) j ≡ some e
  get_elem?-append [] ys j e h = absurd (ground arith)
  get_elem?-append (x ∷ xs) ys zero e h = h
  get_elem?-append (x ∷ xs) ys (suc j) e h = get_elem?-append xs ys j e h

  get_elem?-beyond : (es : List (Entry A)) (j : ℕ) → length es ≤ j → get_elem? es j ≡ none
  get_elem?-beyond [] j h = refl
  get_elem?-beyond (e ∷ es) zero h = absurd (omega arith)
  get_elem?-beyond (e ∷ es) (suc j) h = get_elem?-beyond es j (omega arith)

  node_of-beyond :
      (header : ℕ) (es : List (Entry A)) (r : ℕ) → length es < r → node_of header es r ≡ none
  node_of-beyond header es zero h = absurd (omega arith)
  node_of-beyond header es (suc j) h =
      ap (λ o. elim o as (λ _. Option ℕ) [ none ↦ none | some e ↦ some e.at ])
        (get_elem?-beyond es j (omega arith))

  nothing_left : (n : ℕ) (es : List (Entry A)) → length es ≤ n → drop n es ≡ []
  nothing_left zero [] h = refl
  nothing_left zero (e ∷ es) h = absurd (omega arith)
  nothing_left (suc n) [] h = refl
  nothing_left (suc n) (e ∷ es) h = nothing_left n es (omega arith)

  module _ (z : Zsl A) (front back : List (Entry A)) (s : IsSkip z (front ++ back)) (rank : ℕ)
      (p : Passes (λ (a : A) k. leb k rank) 0 front)
      (t : Fails (λ (a : A) k. leb k rank) (length front) back)
      (w : length (front ++ back) < u64_mod) (short : length front ≤ rank)
      (all : length front < rank → back ≡ []) where
    reached :
        (n : ℕ)
        → (stop n (z.header, 0) 0 front).1 ≡ rank
        → some ((stop n (z.header, 0) 0 front).0) ≡ node_of z.header (front ++ back) rank
    reached n e = elim (stop-entry n 0 (z.header, 0) front) [
      | inl same ↦
          ap (λ (q : ℕ × ℕ). some q.0) same
          ∙ ap (λ r. node_of z.header (front ++ back) r) (ap (λ (q : ℕ × ℕ). q.1) (sym same) ∙ e)
      | inr (f, j, at, there) ↦
          let found = get_elem?-append front back j f at in
          ap (λ (q : ℕ × ℕ). some q.0) there
          ∙ sym (ap (λ o. elim o as (λ _. Option ℕ) [ none ↦ none | some e ↦ some e.at ]) found)
          ∙ ap (λ r. node_of z.header (front ++ back) r)
              (let r : suc j ≡ rank = omega (arith, sym (ap (λ (q : ℕ × ℕ). q.1) there) ∙ e) in r)
    ]

    missed : (stop 0 (z.header, 0) 0 front).1 ≢ rank → node_of z.header (front ++ back) rank ≡ none
    missed ne =
        let last =
          stop-rank z.level 0 0 z.header front (Heights-left z.level front back s.heights) refl in
        let fewer : length front < rank = omega (arith, last) in
        node_of-beyond z.header (front ++ back) rank (
          omega
            (arith, length-append front back, ap (λ (l : List (Entry A)). length l) (all fewer)))

    element_loop_lem :
        (n : ℕ)
        → n < z.level
        → element_loop (suc n) rank z (stop (suc n) (z.header, 0) 0 front)
          ≡ some (node_of z.header (front ++ back) rank)
    unfolding element_loop
    element_loop_lem zero le =
        let step = level_step z front back s (λ a k. leb k rank) p t w 0 le in
        elim (Bool-cases ((stop 0 (z.header, 0) 0 front).1 == rank)) [
          | inl at ↦ bind-some step _ ∙ rw at (ap some (reached 0 (ground arith)))
          | inr off ↦ bind-some step _ ∙ rw off (ap some (sym (missed (ground arith))))
        ]
    element_loop_lem (suc n) le =
        let step = level_step z front back s (λ a k. leb k rank) p t w (suc n) le in
        elim (Bool-cases ((stop (suc n) (z.header, 0) 0 front).1 == rank)) [
          | inl at ↦ bind-some step _ ∙ rw at (ap some (reached (suc n) (ground arith)))
          | inr off ↦ bind-some step _ ∙ rw off (element_loop_lem n (omega arith))
        ]

  -- On a sound list zslGetElementByRank follows no bad pointer, and gives the node of that rank: the
  -- header for rank 0, the first node for rank 1, and NULL behind the end.
  pub get_element_by_rank_lem :
      (z : Zsl A) (es : List (Entry A)) (rank : ℕ)
      → IsSkip z es
      → length es < u64_mod
      → get_element_by_rank rank z ≡ some (node_of z.header es rank)
  unfolding get_element_by_rank
  get_element_by_rank_lem z es rank s w =
      let front = take rank es in
      let back = drop rank es in
      let cut = take-append-drop rank es in
      let few = length-take rank es in
      let s' : IsSkip z (front ++ back) = subst (λ l. IsSkip z l) (sym cut) s in
      let w' : length (front ++ back) < u64_mod =
        subst (λ (l : List (Entry A)). length l < u64_mod) (sym cut) w in
      let level : z.level ≡ suc (z.level - 1) = omega (arith, s.low) in
      ap (λ x. element_loop z.level rank z x)
        (sym (
          top z front back s' (λ a k. leb k rank)
            (take-Passes (λ k. leb k rank) rank 0 es (λ j a b. ground arith))
            (drop-Fails (λ k. leb k rank) rank (length front) es (λ le j a. ground (arith, few)))
            w'))
      ∙ ap (λ n. element_loop n rank z (stop n (z.header, 0) 0 front)) level
      ∙ element_loop_lem z front back s' rank
          (take-Passes (λ k. leb k rank) rank 0 es (λ j a b. ground arith))
          (drop-Fails (λ k. leb k rank) rank (length front) es (λ le j a. ground (arith, few))) w'
          (omega (arith, few)) (λ le. nothing_left rank es (omega (arith, few))) (z.level - 1)
          (omega (arith, s.low))
      ∙ ap (λ l. some (node_of z.header l rank)) cut
