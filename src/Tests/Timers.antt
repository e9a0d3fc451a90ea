-- ===== src/Tests/Timers.antt =====
-- The timers of ae/ae.c at a list of two events.
use bo_atom.Prelude.{ℕ, ◌+◌, ◌≡◌, refl, [], ◌∷◌, none, some, arith}
use bo_atom.Ae.Timers.{
  Stamp, stamp, TimeEvent, Timers, Clock, process_loop, process_time_events, detect_skew,
}
use bo_atom.Ae.Timers.Ids
use bo_atom.Ae.Timers.Ids.{live, create_time-IsValid, delete_time-IsValid}
use bo_atom.Ae.Timers.Quiet.{pass}
use bo_atom.Ae.Timers.Pass.{process-pass}
use bo_atom.Ae.Timers.Lost.{dead, finalizer_loses_timer}

abbrev event : ℕ → Stamp → TimeEvent ℕ ℕ ℕ
event i s = record { id = some i; when = s; time_proc = 1; finalizer_proc = none; client_data = 5 }

abbrev two_timers : Timers ℕ ℕ ℕ
two_timers = record {
  head = event 1 (stamp 3 500) ∷ event 0 (stamp 3 200) ∷ [];
  next_id = 2;
  last_time = 1;
}

-- Procedures add their argument to a counter, which is also the clock.
abbrev counting : Clock ℕ ℕ ℕ ℕ
counting = record {
  get_time = λ w. (stamp w 0, w);
  wall_time = λ w. (w, w);
  time_call = λ t i d ts w. (ts, w + d, none);
  finalizer_call = λ f d ts w. (ts, w + d);
}

process-pass_example : process_time_events counting two_timers 10 ≡ (
  record (detect_skew 10 two_timers) {
    head =
        (pass counting
          (λ t i d w. (w + d, none))
          (λ f d w. w + d)
          (detect_skew 10 two_timers).head
          10).0;
  },
  (pass counting (λ t i d w. (w + d, none)) (λ f d w. w + d) (detect_skew 10 two_timers).head 10).1,
  (pass counting (λ t i d w. (w + d, none)) (λ f d w. w + d) (detect_skew 10 two_timers).head 10).2,
)
process-pass_example =
    process-pass counting (λ t i d w. (w + d, none)) (λ f d w. w + d)
      (record { calls = λ t i d ts w. refl; finals = λ f d ts w. refl }) two_timers 10
      (omega arith, (omega arith, tt))

two_timers-IsValid : Ids.IsValid two_timers
unfolding live
two_timers-IsValid = record { once = λ i. ground arith; fresh = λ i h. ground arith }

-- a finalizer that puts a new timer in front
abbrev creating : Clock ℕ ℕ ℕ ℕ
creating = record {
  get_time = λ w. (stamp w 0, w);
  wall_time = λ w. (w, w);
  time_call = λ t i d ts w. (ts, w + d, none);
  finalizer_call =
      λ f d ts w. (record ts { head = event 9 (stamp 9 0) ∷ ts.head; next_id = 10 }, w);
}

finalizer_loses_timer_example :
    process_loop creating 9 3 none 0
      (record two_timers {
        head =
            dead (stamp 1 0) 1 (some 4) 5 ∷ dead (stamp 2 0) 1 none 5 ∷ event 0 (stamp 3 200) ∷ [];
      })
      1
    ≡ process_loop creating 9 1 none 0
        (record two_timers { head = event 0 (stamp 3 200) ∷ []; next_id = 10 })
        1
finalizer_loses_timer_example =
    finalizer_loses_timer creating 9 0 (stamp 1 0) (stamp 2 0) 1 1 4 5 5 (event 9 (stamp 9 0))
      (event 0 (stamp 3 200) ∷ []) two_timers (record two_timers { next_id = 10 }) 1 1 refl
