-- ===== src/Ae/Loop.antt =====
-- One turn of the event loop of ae/ae.c: aeProcessEvents, aeMain and aeStop, over the registered
-- descriptors, the timers and the polling layer.
pub mod Safety
pub mod Turn
pub mod Wait
use bo_atom.Prelude.{
  get_elem?, ◌>>=◌, ℕ, zero, suc, ◌+◌, ◌-◌, ◌*◌, ◌/◌, ◌%◌, Bool, true, false, ◌&&◌, ◌||◌, not,
  Option, none, some, List, [], ◌∷◌, ltb, ◌==◌, if◌then◌else◌,
}
use bo_atom.Ae.Mask.{Mask, mask_and}
use bo_atom.Ae.Files.{FileEvent, FileTable}
use bo_atom.Ae.Timers.{Stamp, TimeEvent, Timers, Clock, search_nearest_timer, process_time_events}
use bo_atom.Ae.Backends.{Fired}

-- The bits AE_FILE_EVENTS, AE_TIME_EVENTS and AE_DONT_WAIT of a call's flags.
pub record Flags : Type 0 where
  pub file_events : Bool
  pub time_events : Bool
  pub dont_wait : Bool

abbrev pub all_events : Flags
all_events = record { file_events = true; time_events = true; dont_wait = false }

-- struct timeval
pub record Timeval : Type 0 where
  pub tv_sec : ℕ
  pub tv_usec : ℕ

-- aeEventLoop but for its timers, with the state `W` of the rest of the program and the system.
-- `fired` is the array of that name, which a poll fills from its start; `events_at` is the address of
-- the array `events`, which a resize may move.
pub record Rest {ℓ} (P D S W : Type ℓ) : Type ℓ where
  pub files : FileTable P D S
  pub fired : List Fired
  pub events_at : ℕ
  pub stop : Bool
  pub world : W

pub record Loop {ℓ} (P T F D S W : Type ℓ) : Type ℓ where
  pub timers : Timers T F D
  pub rest : Rest P D S W

-- What the loop calls: the clock and the timers' procedures, aeApiPoll with its timeout (none to
-- wait for ever), which writes to `fired` and returns the number of events, the procedures of the descriptors, beforesleep, and the comparison of procedures.
pub record Env {ℓ} (P T F D S W : Type ℓ) : Type ℓ where
  pub clock : Clock T F D (Rest P D S W)
  pub poll : Option Timeval → Rest P D S W → ℕ × Rest P D S W
  pub file_call : P → ℕ → Option D → Mask → Loop P T F D S W → Loop P T F D S W
  pub same_proc : Option P → Option P → Bool
  pub before_sleep : Loop P T F D S W → Loop P T F D S W

-- The time from `now` to `when`, and none if it has passed.
unfoldable pub wait_for : Stamp → Stamp → Timeval
wait_for now when =
    let from = now.sec * 1000 + now.ms in
    let to = when.sec * 1000 + when.ms in
    if ltb from to
    then record { tv_sec = (to - from) / 1000; tv_usec = (to - from) % 1000 * 1000 }
    else record { tv_sec = 0; tv_usec = 0 }

-- `maxfd != -1`
abbrev pub has_maxfd : Option ℕ → Bool
has_maxfd none = false
has_maxfd (some m) = true

module _ {ℓ} {P T F D S W : Type ℓ} (env : Env P T F D S W) where
  -- A call of the procedure of slot `fe`; none for a call through a null pointer.
  call : Option P → FileEvent P D → ℕ → Mask → Loop P T F D S W → Option (Loop P T F D S W)
  call none fe fd m x = none
  call (some p) fe fd m x = some (env.file_call p fd fe.client_data m x)

  -- `*fe`, where `fe` points to a slot of the array that was at the address `at`: none if the array has
  -- moved, or has no such slot.
  abbrev pub slot : ℕ → ℕ → Loop P T F D S W → Option (FileEvent P D)
  slot at fd x = if x.rest.events_at == at then get_elem? x.rest.files.events fd else none

  -- the second test of the loop's body, on the slot as the first procedure left it
  write_slot : Bool → Fired → Loop P T F D S W → FileEvent P D → Option (Loop P T F D S W)
  unfolding call
  write_slot rfired f x fe =
      if (mask_and fe.mask f.mask).writable
      then (if not rfired || not (env.same_proc fe.wfile_proc fe.rfile_proc)
          then call fe.wfile_proc fe f.fd f.mask x
          else some x)
      else some x

  dispatch_write : ℕ → Bool → Fired → Loop P T F D S W → Option (Loop P T F D S W)
  unfolding write_slot
  dispatch_write at rfired f x = slot at f.fd x >>= write_slot rfired f x

  -- the body of the loop over the fired events, on the slot of the descriptor
  read_slot : Fired → Loop P T F D S W → FileEvent P D → Option (Loop P T F D S W)
  unfolding dispatch_write
  read_slot f x fe =
      let at = x.rest.events_at in
      if (mask_and fe.mask f.mask).readable
      then call fe.rfile_proc fe f.fd f.mask x >>= dispatch_write at true f
      else dispatch_write at false f x

  dispatch : Loop P T F D S W → Fired → Option (Loop P T F D S W)
  unfolding read_slot
  dispatch x f = get_elem? x.rest.files.events f.fd >>= read_slot f x

  -- The loop over `n` fired events from `j` on. Each is read from the array as the procedures before
  -- left it; none for a read outside an array or through a stale pointer.
  unfoldable pub dispatch_all : ℕ → ℕ → Loop P T F D S W → Option (Loop P T F D S W)
  unfolding dispatch
  dispatch_all zero j x = some x
  dispatch_all (suc n) j x = get_elem? x.rest.fired j >>= dispatch x >>= dispatch_all n (j + 1)

  -- the timeout of the poll, with the clock read where a timer is waited for
  timeout : Flags → Loop P T F D S W → Option Timeval × Rest P D S W
  timeout flags x =
      elim (if flags.time_events && not flags.dont_wait
        then search_nearest_timer x.timers
        else none) [
          | some te ↦ (let (now, r) = env.clock.get_time x.rest in (some (wait_for now te.when), r))
          | none ↦
              if flags.dont_wait
              then (some (record { tv_sec = 0; tv_usec = 0 }), x.rest)
              else (none, x.rest)
        ]

  -- the part of aeProcessEvents that polls; with the number of fired events
  poll_files : Flags → Loop P T F D S W → Option (Loop P T F D S W × ℕ)
  unfolding timeout dispatch_all
  poll_files flags x =
      let (tv, r) = timeout flags x in
      let (numevents, r') = env.poll tv r in
      dispatch_all numevents 0 (record x { rest = r' }) >>= λ x'. some (x', numevents)

  -- the part that runs the timers
  run_timers : Flags → Loop P T F D S W × ℕ → Loop P T F D S W × ℕ
  run_timers flags (x, n) =
      if flags.time_events
      then (let (ts, r, m) = process_time_events env.clock x.timers x.rest in
          (record { timers = ts; rest = r }, n + m))
      else (x, n)

  -- aeProcessEvents; none for a call through a null pointer, or a bad read
  unfoldable pub process_events : Flags → Loop P T F D S W → Option (Loop P T F D S W × ℕ)
  unfolding poll_files run_timers
  process_events flags x =
      if not flags.time_events && not flags.file_events
      then some (x, 0)
      else ((if has_maxfd x.rest.files.maxfd || (flags.time_events && not flags.dont_wait)
            then poll_files flags x
            else some (x, 0))
          >>= λ r. some (run_timers flags r))

  -- aeStop
  unfoldable pub stop_loop : Loop P T F D S W → Loop P T F D S W
  stop_loop x = record x { rest = record (x.rest) { stop = true } }

  -- `n` rounds of the loop of aeMain at most, after its first assignment. The Boolean says that
  -- the loop has ended.
  rounds : ℕ → Loop P T F D S W → Option (Loop P T F D S W × Bool)
  unfolding process_events
  rounds zero x = some (x, x.rest.stop)
  rounds (suc n) x = elim x.rest.stop [
    | true ↦ some (x, true)
    | false ↦ process_events all_events (env.before_sleep x) >>= λ r. rounds n r.0
  ]

  unfoldable pub main_loop : ℕ → Loop P T F D S W → Option (Loop P T F D S W × Bool)
  unfolding rounds
  main_loop n x = rounds n (record x { rest = record (x.rest) { stop = false } })
