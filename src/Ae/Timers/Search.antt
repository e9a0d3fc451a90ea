-- ===== src/Ae/Timers/Search.antt =====
-- aeAddMillisecondsToNow adds exactly, and aeSearchNearestTimer finds the first event to come.
use bo_atom.Prelude.{
  ℕ, ◌+◌, ◌*◌, ◌≤◌, ◌<◌, ◌≡◌, refl, true, false, none, some, List, [], ◌∷◌, inl, inr, arith, All,
  In, here, there, ◌⊎◌, Bool-cases,
}
use bo_atom.Ae.Timers.{
  Stamp, TimeEvent, Timers, add_milliseconds, earlier, nearest_from, search_nearest_timer,
}

-- the time in milliseconds
abbrev pub total : Stamp → ℕ
total s = s.sec * 1000 + s.ms

abbrev pub IsNormal : Stamp → Type 0
IsNormal s = s.ms < 1000

-- From a reading of the clock with less than 1000 milliseconds, aeAddMillisecondsToNow gives the time
-- exactly so many milliseconds later, again with less than 1000 milliseconds.
pub add_milliseconds-total :
    (n : ℕ) (now : Stamp)
    → IsNormal now
    → (total (add_milliseconds n now) ≡ total now + n) × IsNormal (add_milliseconds n now)
unfolding add_milliseconds
add_milliseconds-total n now h = ground arith

pub earlier-lt :
    (a b : Stamp)
    → IsNormal a
    → IsNormal b
    → (earlier a b ≡ true → total a < total b) × (earlier a b ≡ false → total b ≤ total a)
unfolding earlier
earlier-lt a b h k = ground arith

module _ {ℓ} {T F D : Type ℓ} where
  abbrev HasNormal : TimeEvent T F D → Type 0
  HasNormal te = IsNormal te.when

  abbrev pub NotAfter : TimeEvent T F D → TimeEvent T F D → Type 0
  NotAfter a b = total a.when ≤ total b.when

  -- what the search promises of its result `te` for the list `l`
  pub record IsNearest (l : List (TimeEvent T F D)) (te : TimeEvent T F D) : Type ℓ where
    pub member : In te l
    pub first : All (NotAfter te) l

  In-skip :
      {te b x : TimeEvent T F D} {l : List (TimeEvent T F D)} → In te (b ∷ l) → In te (b ∷ x ∷ l)
  In-skip (here e) = here e
  In-skip (there i) = there (there i)

  nearest_from-IsNearest :
      (b : TimeEvent T F D) (l : List (TimeEvent T F D))
      → HasNormal b
      → All HasNormal l
      → (te : TimeEvent T F D) × (nearest_from (some b) l ≡ some te) × IsNearest (b ∷ l) te
  unfolding nearest_from
  nearest_from-IsNearest b [] h n =
      (b, refl, record { member = here refl; first = (omega arith, tt) })
  nearest_from-IsNearest b (x ∷ l) h n = elim (Bool-cases (earlier x.when b.when)) [
    | inl sooner ↦
        let (te, found, near) = nearest_from-IsNearest x l n.0 n.1 in
        (
          te,
          rw sooner found,
          record {
            member = there near.member;
            first = (
              omega (arith, (earlier-lt x.when b.when n.0 h).0 sooner, near.first.0),
              near.first,
            );
          },
        )
    | inr later ↦
        let (te, found, near) = nearest_from-IsNearest b l h n.1 in
        (
          te,
          rw later found,
          record {
            member = In-skip near.member;
            first = (
              near.first.0,
              (omega (arith, (earlier-lt x.when b.when n.0 h).1 later, near.first.0), near.first.1),
            );
          },
        )
  ]

  -- With no timer the search returns none, and otherwise an event of the list that no other precedes.
  -- If the times of all events have less than 1000 milliseconds, aeSearchNearestTimer returns NULL
  -- exactly for the empty list, and else an event of the list that comes after none of the others.
  pub search-IsNearest :
      (ts : Timers T F D)
      → All HasNormal ts.head
      → ((ts.head ≡ []) × (search_nearest_timer ts ≡ none))
        ⊎ ((te : TimeEvent T F D) × (search_nearest_timer ts ≡ some te) × IsNearest ts.head te)
  unfolding search_nearest_timer nearest_from
  search-IsNearest ts n = found ts.head n
    where
      found :
          (l : List (TimeEvent T F D))
          → All HasNormal l
          → ((l ≡ []) × (nearest_from none l ≡ none))
            ⊎ ((te : TimeEvent T F D) × (nearest_from none l ≡ some te) × IsNearest l te)
      found [] n = inl (refl, refl)
      found (x ∷ l) n = inr (nearest_from-IsNearest x l n.0 n.1)
