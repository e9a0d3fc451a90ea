-- ===== src/SkipList/Remove/Unlink.antt =====
-- What zslDeleteNode does to one column.
use bo_atom.Prelude.{
  ℕ, ◌+◌, ◌<◌, ◌≡◌, refl, ◌∙◌, sym, ap, true, false, some, List, [], ◌∷◌, ◌++◌, ltb, arith, All,
  length, Bool-cases, inl, inr, length-append,
}
use bo_atom.Server.Clients.Refines.{==_sym, ==_self}
use bo_atom.SkipList.{Column, Updates, u32_mod, add32, sub32, put}
use bo_atom.SkipList.Chain.{
  Entry, from, reach, stop, Linked, Absent, Distinct, put-same, put-other, span-le, from-zero,
  from-under, from-over,
}
use bo_atom.SkipList.Parts.{Absent-right, Distinct-right, Distinct-middle, Linked-put, Linked-right}
use bo_atom.SkipList.Edit.{Edits, edit_behind}
use bo_atom.SkipList.Remove.{points_at, unlink_level}

module _ {ℓ} {A : Type ℓ} where
  points_elsewhere :
      (i x : ℕ) (es : List (Entry A)) → Absent x es → points_at (reach i es).forward x ≡ false
  points_elsewhere i x [] a = refl
  points_elsewhere i x (e ∷ es) a = elim (Bool-cases (ltb i e.height)) [
    | inl over ↦ rw over (==_sym x e.at a.0)
    | inr under ↦ rw under (points_elsewhere i x es a.1)
  ]

  all_units : (es : List (Entry A)) → All (λ e. Unit {0}) es
  all_units [] = tt
  all_units (e ∷ es) = (tt, all_units es)

module _ {ℓ} {A : Type ℓ} (u : Updates) (old : Entry A) (i m : ℕ) (c : Column)
    (back : List (Entry A)) where
  unlink-Edits :
      (d : ℕ) (q : ℕ × ℕ)
      → u i ≡ some q
      → m ≡ q.1 + d
      → m + length back + 1 < u32_mod
      → c q.0 ≡ some (from d (reach i (old ∷ back)))
      → Absent q.0 (old ∷ back)
      → Absent old.at back
      → Linked i c (old ∷ back)
      → Edits (unlink_level old.at u i) i (λ b. Unit {0}) m c (old ∷ back) back d q
  unfolding unlink_level
  unlink-Edits d q us em w v away old_away l =
      let seen = reach i back in
      elim (Bool-cases (ltb i old.height)) [
        | inl over ↦
            let there = v ∙ ap some (from-over i d old back over) in
            let span : add32 (d + 1) (sub32 seen.span 1) ≡ d + seen.span =
              unfold add32 sub32 in omega (arith, span-le i back) in
            (
              put c q.0 (some (record { forward = seen.forward; span = d + seen.span })),
              rw (us, there, ==_self old.at, l.0 over, span) refl,
              put-same c q.0 _,
              Linked-put i q.0 c _ back away.1 l.1,
              λ b qb pb. put-other c q.0 b _ qb,
            )
        | inr under ↦
            let there = v ∙ ap some (from-under i d old back under) in
            let span : sub32 (d + 1 + seen.span) 1 ≡ d + seen.span =
              unfold sub32 in omega (arith, span-le i back) in
            (
              put c q.0 (some (record { forward = seen.forward; span = d + seen.span })),
              rw (us, there, points_elsewhere i old.at back old_away, span) refl,
              put-same c q.0 _,
              Linked-put i q.0 c _ back away.1 l.1,
              λ b qb pb. put-other c q.0 b _ qb,
            )
      ]

  module _ (x : ℕ) (mid : List (Entry A)) (us : u i ≡ some (stop i (x, 0) 0 mid))
      (em : m ≡ length mid) (w : length (mid ++ old ∷ back) < u32_mod)
      (v : c x ≡ some (reach i (mid ++ old ∷ back))) (l : Linked i c (mid ++ old ∷ back))
      (away : Absent x (mid ++ old ∷ back)) (dis : Distinct (mid ++ old ∷ back)) where
    pub unlink-Linked :
        (c' : Column) × (unlink_level old.at u i c ≡ some c')
        × (c' x ≡ some (reach i (mid ++ back)))
        × Linked i c' (mid ++ back)
        × (ltb i old.height ≡ true → c' old.at ≡ some (reach i back))
    unlink-Linked =
        let (c', run, at, linked, same) =
          edit_behind (unlink_level old.at u i) i (λ b. Unit {0}) m c (old ∷ back) back mid 0 0 x 0
            (λ d q e em' v' qp away'.
              unlink-Edits d q (us ∙ ap some (sym e)) em'
                (omega (arith, length-append mid (old ∷ back))) v' away'
                (Distinct-right mid (old ∷ back) dis).0 (Linked-right i c mid (old ∷ back) l))
            (omega arith) (omega arith)
            (v ∙ ap some (sym (from-zero (reach i (mid ++ old ∷ back))))) l away dis (all_units mid)
            tt in
        (
          c',
          run,
          at ∙ ap some (from-zero (reach i (mid ++ back))),
          linked,
          λ over.
              same old.at (Absent-right x mid (old ∷ back) away).0 tt
                (Distinct-middle mid back old dis).0
              ∙ (Linked-right i c mid (old ∷ back) l).0 over,
        )
