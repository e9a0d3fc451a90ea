-- ===== src/Ae/Timers/Pass.antt =====
-- processTimeEvents walks the list in place, and for quiet procedures that is the recursion `pass`.
use bo_atom.Prelude.{ℕ, ◌≡◌, refl, Option, none, List, [], ◌∷◌, All, Bool-cases, inl, inr, map, ltb}
use native.Mathlib.Nat.{zero-add}
use bo_atom.Ae.Timers.{TimeEvent, Timers, Clock, forced, process_time_events, detect_skew}
use bo_atom.Ae.Timers.Quiet.{IsQuiet, pass}
use bo_atom.Ae.Timers.Walk.{Below, walk}

module _ {ℓ} {T F D : Type ℓ} where
  forced-Below :
      (b : ℕ) (l : List (TimeEvent T F D))
      → All (λ te. Below b te.id) l
      → All (λ te. Below b te.id) (map forced l)
  forced-Below b [] h = tt
  forced-Below b (te ∷ l) h = (h.0, forced-Below b l h.1)

  detect_skew-Below :
      (now : ℕ) (ts : Timers T F D)
      → All (λ te. Below ts.next_id te.id) ts.head
      → All (λ te. Below (detect_skew now ts).next_id te.id) (detect_skew now ts).head
  unfolding detect_skew
  detect_skew-Below now ts h = elim (Bool-cases (ltb now ts.last_time)) [
    | inl back ↦ rw back (forced-Below ts.next_id ts.head h)
    | inr forth ↦ rw forth h
  ]

module _ {ℓ} {T F D W : Type ℓ} (clock : Clock T F D W) (run : T → ℕ → D → W → W × Option ℕ)
    (finish : F → D → W → W) (quiet : IsQuiet clock run finish) where
  -- If no procedure touches the timers and every event's identifier has been given out, then
  -- processTimeEvents first sets the times back where the wall clock went back, and then visits each
  -- event once, in the order of the list, as `pass` describes: a deleted event is finalized and leaves
  -- the list, an event whose time has come is called and gets its new time or is marked deleted, and
  -- any other stays; the result counts the calls.
  pub process-pass :
      (ts : Timers T F D) (w : W)
      → All (λ te. Below ts.next_id te.id) ts.head
      → process_time_events clock ts w ≡ (
        record (detect_skew (clock.wall_time w).0 ts) {
          head =
              (pass clock run finish
                (detect_skew (clock.wall_time w).0 ts).head
                (clock.wall_time w).1).0;
        },
        (pass clock run finish (detect_skew (clock.wall_time w).0 ts).head (clock.wall_time w).1).1,
        (pass clock run finish (detect_skew (clock.wall_time w).0 ts).head (clock.wall_time w).1).2,
      )
  unfolding process_time_events
  process-pass ts w below =
      let start = detect_skew (clock.wall_time w).0 ts in
      rw zero-add at (
        walk clock run finish quiet start.next_id start start.head
          (detect_skew-Below (clock.wall_time w).0 ts below) [] none 0 (clock.wall_time w).1 refl)
