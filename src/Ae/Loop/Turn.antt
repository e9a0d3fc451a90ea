-- ===== src/Ae/Loop/Turn.antt =====
-- A turn of aeProcessEvents, and the rounds of aeMain.
use bo_atom.Prelude.{
  ℕ, ◌≡◌, refl, false, Option, none, some, if◌then◌else◌, inl, inr, Bool-cases, Option-cases, not,
  ◌&&◌, ◌||◌, ◌+◌, arith,
}
use mathlib.Core.Path.{subst}
use bo_atom.Ae.Timers.{search_nearest_timer}
use bo_atom.Ae.Timers.Kept
use bo_atom.Ae.Loop.{
  Flags, Timeval, Rest, Loop, Env, timeout, poll_files, run_timers, has_maxfd, process_events,
}
use bo_atom.Ae.Loop.Safety
use bo_atom.Ae.Loop.Safety.{IsReady, dispatch_all-Inv}

from_zero : (n : ℕ) → n ≡ 0 + n
from_zero n = omega arith

module _ {ℓ} {P T F D S W : Type ℓ} (env : Env P T F D S W) (Inv : Rest P D S W → Type ℓ) where
  abbrev pub LoopInv : Loop P T F D S W → Type ℓ
  LoopInv x = Inv x.rest

  -- The clock, the poll and every procedure keep `Inv`, and a slot that is registered in a state
  -- with `Inv` has its procedure. The poll fills as many slots of `fired` as it returns, with
  -- descriptors that the array `events` has.
  pub record IsKept : Type ℓ where
    pub clock : Kept.IsKept env.clock Inv
    pub polls :
        (tv : Option Timeval) (r : Rest P D S W)
        → Inv r
        → Inv (env.poll tv r).1 × IsReady (env.poll tv r).0 (env.poll tv r).1
    pub files : Safety.IsKept env LoopInv
    pub sleeps : (x : Loop P T F D S W) → LoopInv x → LoopInv (env.before_sleep x)
    pub starts : (r : Rest P D S W) → Inv r → Inv (record r { stop = false })

  module _ (kept : IsKept) where
    timeout-Inv : (flags : Flags) (x : Loop P T F D S W) → LoopInv x → Inv (timeout env flags x).1
    unfolding timeout
    timeout-Inv flags x i =
        elim (Option-cases (
          if flags.time_events && not flags.dont_wait
          then search_nearest_timer x.timers
          else none)) [
            | inl idle ↦
                rw (idle, timeout)
                  (elim (Bool-cases flags.dont_wait) [ inl e ↦ rw e i | inr e ↦ rw e i ])
            | inr (te, found) ↦ rw (found, timeout) (kept.clock.reads x.rest i)
          ]

    abbrev Ends : Option (Loop P T F D S W × ℕ) → Type ℓ
    Ends o = (r : Loop P T F D S W × ℕ) × (o ≡ some r) × LoopInv r.0

    poll_files-Inv :
        (flags : Flags) (x : Loop P T F D S W) → LoopInv x → Ends (poll_files env flags x)
    unfolding poll_files
    poll_files-Inv flags x i =
        let (tv, r) = timeout env flags x in
        let (polled, filled) = kept.polls tv r (timeout-Inv flags x i) in
        let (y, run, j) =
          dispatch_all-Inv env LoopInv kept.files (env.poll tv r).0 0
            (record x { rest = (env.poll tv r).1 }) polled
            (subst (λ n. IsReady n (env.poll tv r).1) (from_zero (env.poll tv r).0) filled) in
        rw run ((y, _), refl, j)

    run_timers-Inv :
        (flags : Flags) (r : Loop P T F D S W × ℕ)
        → LoopInv r.0
        → LoopInv (run_timers env flags r).0
    unfolding run_timers
    run_timers-Inv flags r i = elim (Bool-cases flags.time_events) [
      | inl e ↦ rw e (Kept.process-Inv env.clock Inv kept.clock r.0.timers r.0.rest i)
      | inr e ↦ rw e i
    ]

    pub process_events-Inv :
        (flags : Flags) (x : Loop P T F D S W) → LoopInv x → Ends (process_events env flags x)
    unfolding process_events
    process_events-Inv flags x i =
        elim (Bool-cases (not flags.time_events && not flags.file_events)) [
          | inl idle ↦ rw idle ((x, 0), refl, i)
          | inr busy ↦
              elim (Bool-cases
                (has_maxfd x.rest.files.maxfd || (flags.time_events && not flags.dont_wait))) [
                  | inl polls ↦
                      let (r, run, j) = poll_files-Inv flags x i in
                      rw (busy, polls, run) (run_timers env flags r, refl, run_timers-Inv flags r j)
                  | inr quiet ↦
                      rw (busy, quiet)
                        (run_timers env flags (x, 0), refl, run_timers-Inv flags (x, 0) i)
                ]
        ]
