-- ===== src/Ae/Timers/Ids.antt =====
-- aeCreateTimeEvent and aeDeleteTimeEvent keep the identifiers of the live events distinct.
use bo_atom.Prelude.{
  ℕ, ◌+◌, ◌-◌, ◌≤◌, ◌≡◌, refl, Option, List, [], ◌∷◌, arith, ◌==◌, if◌then◌else◌, length,
}
use bo_atom.Ae.Files.{ae_ok, ae_err}
use bo_atom.Ae.Timers.{
  Stamp, TimeEvent, Timers, create_time_event, has_id, mark_deleted, delete_time_event,
}

module _ {ℓ} {T F D : Type ℓ} where
  -- the number of live events of the list with identifier `i`
  unfoldable pub live : ℕ → List (TimeEvent T F D) → ℕ
  live i [] = 0
  live i (te ∷ rest) = (if has_id i te then 1 else 0) + live i rest

  -- Each identifier belongs to one live event at most, and those not yet given out to none.
  pub record IsValid (ts : Timers T F D) : Type 0 where
    pub once : (i : ℕ) → live i ts.head ≤ 1
    pub fresh : (i : ℕ) → ts.next_id ≤ i → live i ts.head ≡ 0

  live-create :
      (ts : Timers T F D) (n : ℕ) (now : Stamp) (proc : T) (arg : D) (fin : Option F) (i : ℕ)
      → live i (create_time_event ts n now proc arg fin).0.head
        ≡ live i ts.head + (if ts.next_id == i then 1 else 0)
  unfolding live create_time_event
  live-create ts n now proc arg fin i = ground arith

  mark_deleted-live :
      (i j : ℕ) (l : List (TimeEvent T F D))
      → live j (mark_deleted i l).0 ≡ (if i == j then live j l - 1 else live j l)
  unfolding live mark_deleted
  mark_deleted-live i j [] = ground arith
  mark_deleted-live i j (te ∷ rest) = ground (arith, mark_deleted-live i j rest)

  mark_deleted-status :
      (i : ℕ) (l : List (TimeEvent T F D))
      → (mark_deleted i l).1 ≡ (if live i l == 0 then ae_err else ae_ok)
  unfolding live mark_deleted
  mark_deleted-status i [] = refl
  mark_deleted-status i (te ∷ rest) = ground (arith, mark_deleted-status i rest)

  pub length-mark_deleted :
      (i : ℕ) (l : List (TimeEvent T F D)) → length (mark_deleted i l).0 ≡ length l
  unfolding mark_deleted
  length-mark_deleted i [] = refl
  length-mark_deleted i (te ∷ rest) = ground (arith, length-mark_deleted i rest)

module _ {ℓ} {T F D : Type ℓ} (ts : Timers T F D) (v : IsValid ts) where
  -- In a list where each identifier belongs to one live event at most and unused ones to none, a new
  -- event gets an identifier that no live event had, the counts of all identifiers grow by that event
  -- alone, and the list keeps the property.
  pub create_time-IsValid :
      (n : ℕ) (now : Stamp) (proc : T) (arg : D) (fin : Option F)
      → IsValid (create_time_event ts n now proc arg fin).0
        × (live (create_time_event ts n now proc arg fin).1 ts.head ≡ 0)
        × ((i : ℕ)
            → live i (create_time_event ts n now proc arg fin).0.head
              ≡ live i ts.head
                + (if (create_time_event ts n now proc arg fin).1 == i then 1 else 0))
  unfolding create_time_event
  create_time-IsValid n now proc arg fin = (
    record {
      once = λ i. ground (arith, live-create ts n now proc arg fin i, v.once i, v.fresh i);
      fresh = λ i h. ground (arith, live-create ts n now proc arg fin i, v.fresh i);
    },
    v.fresh ts.next_id (omega arith),
    live-create ts n now proc arg fin,
  )

  -- In a list where each identifier belongs to one live event at most and unused ones to none,
  -- deleting by identifier keeps that, reports whether a live event had it, leaves none that has it, keeps
  -- every other event's identifier, and unlinks nothing.
  pub delete_time-IsValid :
      (i : ℕ)
      → IsValid (delete_time_event ts i).0
        × ((delete_time_event ts i).1 ≡ (if live i ts.head == 0 then ae_err else ae_ok))
        × ((j : ℕ)
            → live j (delete_time_event ts i).0.head ≡ (if i == j then 0 else live j ts.head))
        × (length (delete_time_event ts i).0.head ≡ length ts.head)
  unfolding delete_time_event
  delete_time-IsValid i = (
    record {
      once = λ j. ground (arith, mark_deleted-live i j ts.head, v.once j);
      fresh = λ j h. ground (arith, mark_deleted-live i j ts.head, v.fresh j);
    },
    mark_deleted-status i ts.head,
    λ j. ground (arith, mark_deleted-live i j ts.head, v.once j),
    length-mark_deleted i ts.head,
  )
