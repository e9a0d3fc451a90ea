-- ===== src/SkipList/Insert/Links.antt =====
-- What zslInsert does to one column: the new node goes behind the node where the search stopped, and on
-- the levels that it does not have, the link over it gets longer.
use bo_atom.Prelude.{
  ℕ, ◌+◌, ◌<◌, ◌≡◌, refl, ◌∙◌, sym, ap, true, false, Option, some, List, ◌∷◌, ◌++◌, ◌==◌, ltb,
  arith, length, length-append,
}
use bo_atom.Server.Clients.Refines.{==_sym}
use bo_atom.SkipList.{Level, Column, Updates, u32_mod, add32, sub32, put}
use bo_atom.SkipList.Chain.{
  Entry, from, reach, stop, Linked, Absent, Distinct, put-same, put-other, span-le, from-zero,
  from-under, from-over,
}
use bo_atom.SkipList.Parts.{Absent-left, Absent-All, Absent-right, Linked-put, Linked-right}
use bo_atom.SkipList.Edit.{Edits, edit_behind}
use bo_atom.SkipList.Insert.{link_level, bump_level}

module _ {ℓ} {A : Type ℓ} (u : Updates) (new : Entry A) (i m : ℕ) (c : Column)
    (back : List (Entry A)) where
  link-Edits :
      (d : ℕ) (q : ℕ × ℕ) (l₀ : Level)
      → ltb i new.height ≡ true
      → u i ≡ some q
      → m ≡ q.1 + d
      → m + length back + 1 < u32_mod
      → c q.0 ≡ some (from d (reach i back))
      → c new.at ≡ some l₀
      → (new.at == q.0) ≡ false
      → Absent q.0 back
      → Absent new.at back
      → Linked i c back
      → Edits (link_level new.at u m i) i (λ b. (new.at == b) ≡ false) m c back (new ∷ back) d q
  unfolding link_level
  link-Edits d q l₀ over us em w v fresh qp away new_away l =
      let seen = reach i back in
      let skipped : sub32 m q.1 ≡ d = unfold sub32 in omega arith in
      let left : sub32 (d + seen.span) d ≡ seen.span =
        unfold sub32 in omega (arith, span-le i back) in
      let up : add32 d 1 ≡ d + 1 = unfold add32 in omega arith in
      let c₁ = put c new.at (some seen) in
      let c₂ = put c₁ q.0 (some (record { forward = some new.at; span = d + 1 })) in
      let there : c₁ q.0 ≡ some (from d seen) = rw qp v in
      (
        c₂,
        rw (us, v, skipped, left, up, fresh, there) refl,
        put-same c₁ q.0 _ ∙ ap some (sym (from-over i d new back over)),
        (
          λ o. put-other c₁ q.0 new.at _ (==_sym new.at q.0 qp) ∙ put-same c new.at _,
          Linked-put i q.0 c₁ _ back away (Linked-put i new.at c _ back new_away l),
        ),
        λ b qb pb. put-other c₁ q.0 b _ qb ∙ put-other c new.at b _ pb,
      )

  bump-Edits :
      (d : ℕ) (q : ℕ × ℕ)
      → ltb i new.height ≡ false
      → u i ≡ some q
      → m ≡ q.1 + d
      → m + length back + 1 < u32_mod
      → c q.0 ≡ some (from d (reach i back))
      → (new.at == q.0) ≡ false
      → Absent q.0 back
      → Linked i c back
      → Edits (bump_level u i) i (λ b. (new.at == b) ≡ false) m c back (new ∷ back) d q
  unfolding bump_level
  bump-Edits d q under us em w v qp away l =
      let seen = reach i back in
      let more : add32 (d + seen.span) 1 ≡ d + 1 + seen.span =
        unfold add32 in omega (arith, span-le i back) in
      (
        put c q.0 (some (record { forward = seen.forward; span = d + 1 + seen.span })),
        rw (us, v, more) refl,
        put-same c q.0 _ ∙ ap some (sym (from-under i d new back under)),
        (λ o. absurd (ground arith), Linked-put i q.0 c _ back away l),
        λ b qb pb. put-other c q.0 b _ qb,
      )

  module _ (x : ℕ) (mid : List (Entry A)) (us : u i ≡ some (stop i (x, 0) 0 mid))
      (em : m ≡ length mid) (w : length (mid ++ back) + 1 < u32_mod)
      (v : c x ≡ some (reach i (mid ++ back))) (l : Linked i c (mid ++ back))
      (away : Absent x (mid ++ back)) (dis : Distinct (mid ++ back))
      (new_away : Absent new.at (mid ++ back)) (xp : (x == new.at) ≡ false) where
    abbrev Inserted : (Column → Option Column) → Type 0
    Inserted body =
        (c' : Column) × (body c ≡ some c')
        × (c' x ≡ some (reach i (mid ++ new ∷ back)))
        × Linked i c' (mid ++ new ∷ back)

    -- the first loop of zslInsert over the update array
    pub link-Linked :
        (l₀ : Level)
        → ltb i new.height ≡ true
        → c new.at ≡ some l₀
        → Inserted (link_level new.at u m i)
    link-Linked l₀ over fresh =
        let (c', run, at, linked, same) =
          edit_behind (link_level new.at u m i) i (λ b. (new.at == b) ≡ false) m c back (new ∷ back)
            mid 0 0 x 0
            (λ d q e em' v' qp away'.
              link-Edits d q l₀ over (us ∙ ap some (sym e)) em'
                (omega (arith, length-append mid back)) v' fresh qp away'
                (Absent-right new.at mid back new_away) (Linked-right i c mid back l))
            (omega arith) (omega arith) (v ∙ ap some (sym (from-zero (reach i (mid ++ back))))) l
            away dis (Absent-All new.at mid (Absent-left new.at mid back new_away))
            (==_sym x new.at xp) in
        (c', run, at ∙ ap some (from-zero (reach i (mid ++ new ∷ back))), linked)

    -- the second loop
    pub bump-Linked : ltb i new.height ≡ false → Inserted (bump_level u i)
    bump-Linked under =
        let (c', run, at, linked, same) =
          edit_behind (bump_level u i) i (λ b. (new.at == b) ≡ false) m c back (new ∷ back) mid 0 0
            x 0
            (λ d q e em' v' qp away'.
              bump-Edits d q under (us ∙ ap some (sym e)) em'
                (omega (arith, length-append mid back)) v' qp away' (Linked-right i c mid back l))
            (omega arith) (omega arith) (v ∙ ap some (sym (from-zero (reach i (mid ++ back))))) l
            away dis (Absent-All new.at mid (Absent-left new.at mid back new_away))
            (==_sym x new.at xp) in
        (c', run, at ∙ ap some (from-zero (reach i (mid ++ new ∷ back))), linked)
