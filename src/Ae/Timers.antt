-- ===== src/Ae/Timers.antt =====
-- The time events of ae/ae.c: aeAddMillisecondsToNow, aeCreateTimeEvent, aeDeleteTimeEvent,
-- aeSearchNearestTimer and processTimeEvents.
pub mod Ids
pub mod Kept
pub mod Lost
pub mod Pass
pub mod Place
pub mod Quiet
pub mod Search
pub mod Walk
use bo_atom.Prelude.{
  ℕ, zero, suc, ◌+◌, ◌-◌, ◌*◌, ◌/◌, ◌%◌, Bool, true, false, ◌&&◌, ◌||◌, Option, none, some, List,
  [], ◌∷◌, ◌++◌, ◌==◌, leb, ltb, if◌then◌else◌, length, take, drop, map,
}
use bo_atom.Ae.Files.{Status, ae_ok, ae_err}

-- A reading of the clock, in seconds and milliseconds.
pub record Stamp : Type 0 where
  pub sec : ℕ
  pub ms : ℕ

abbrev pub stamp : ℕ → ℕ → Stamp
stamp s m = record { sec = s; ms = m }

-- aeTimeEvent. `id` is `none` where the code has AE_DELETED_EVENT_ID. The node's address is its
-- place in the list.
pub record TimeEvent {ℓ} (T F D : Type ℓ) : Type ℓ where
  pub id : Option ℕ
  pub when : Stamp
  pub time_proc : T
  pub finalizer_proc : Option F
  pub client_data : D

-- The part of aeEventLoop that keeps time: the list at timeEventHead, timeEventNextId, lastTime.
pub record Timers {ℓ} (T F D : Type ℓ) : Type ℓ where
  pub head : List (TimeEvent T F D)
  pub next_id : ℕ
  pub last_time : ℕ

-- aeAddMillisecondsToNow, at the reading `now`
unfoldable pub add_milliseconds : ℕ → Stamp → Stamp
add_milliseconds milliseconds now =
    let when_sec = now.sec + milliseconds / 1000 in
    let when_ms = now.ms + milliseconds % 1000 in
    if leb 1000 when_ms then stamp (when_sec + 1) (when_ms - 1000) else stamp when_sec when_ms

-- `a` is strictly before `b`
unfoldable pub earlier : Stamp → Stamp → Bool
earlier a b = ltb a.sec b.sec || (a.sec == b.sec && ltb a.ms b.ms)

-- the test whether the time `w` has come at the reading `now`
unfoldable pub is_due : Stamp → Stamp → Bool
is_due now w = ltb w.sec now.sec || (now.sec == w.sec && leb w.ms now.ms)

-- the number of nodes from `prev` to the end, once a node behind it is unlinked
abbrev pub one_less : Option ℕ → Option ℕ
one_less none = none
one_less (some p) = some (p - 1)

module _ {ℓ} {T F D : Type ℓ} where
  -- aeCreateTimeEvent, at the reading `now`; the result is the new event's identifier
  unfoldable pub create_time_event : Timers T F D → ℕ → Stamp → T → D → Option F → Timers T F D × ℕ
  create_time_event ts milliseconds now proc arg finalizer = (
    record ts {
      next_id = ts.next_id + 1;
      head =
          record {
            id = some ts.next_id;
            when = add_milliseconds milliseconds now;
            time_proc = proc;
            finalizer_proc = finalizer;
            client_data = arg;
          }
          ∷ ts.head;
    },
    ts.next_id,
  )

  -- `te->id == id`
  abbrev pub has_id : ℕ → TimeEvent T F D → Bool
  has_id i te = elim te.id [ none ↦ false | some j ↦ j == i ]

  -- `te->id = AE_DELETED_EVENT_ID`
  abbrev pub deleted : TimeEvent T F D → TimeEvent T F D
  deleted te = record te { id = none }

  -- the loop of aeDeleteTimeEvent
  unfoldable pub mark_deleted : ℕ → List (TimeEvent T F D) → List (TimeEvent T F D) × Status
  mark_deleted i [] = ([], ae_err)
  mark_deleted i (te ∷ rest) =
      let (marked, st) = mark_deleted i rest in
      if has_id i te then (deleted te ∷ rest, ae_ok) else (te ∷ marked, st)

  -- aeDeleteTimeEvent
  unfoldable pub delete_time_event : Timers T F D → ℕ → Timers T F D × Status
  delete_time_event ts i =
      let (marked, st) = mark_deleted i ts.head in (record ts { head = marked }, st)

  -- the loop of aeSearchNearestTimer
  unfoldable pub nearest_from :
      Option (TimeEvent T F D) → List (TimeEvent T F D) → Option (TimeEvent T F D)
  nearest_from best [] = best
  nearest_from none (te ∷ rest) = nearest_from (some te) rest
  nearest_from (some b) (te ∷ rest) =
      nearest_from (some (if earlier te.when b.when then te else b)) rest

  -- aeSearchNearestTimer
  unfoldable pub search_nearest_timer : Timers T F D → Option (TimeEvent T F D)
  unfolding nearest_from
  search_nearest_timer ts = nearest_from none ts.head

  -- The node that has `k` nodes from it to the end of the list, itself included. New events are
  -- put in front, so this number stays the same where a position from the front would not.
  unfoldable pub node : List (TimeEvent T F D) → ℕ → Option (TimeEvent T F D)
  node es k = elim (drop (length es - k) es) [ [] ↦ none | te ∷ _ ↦ some te ]

  -- An assignment to fields of that node.
  unfoldable pub update_node :
      (TimeEvent T F D → TimeEvent T F D) → List (TimeEvent T F D) → ℕ → List (TimeEvent T F D)
  update_node f es k =
      let front = length es - k in
      take front es ++ elim (drop front es) [ [] ↦ [] | te ∷ rest ↦ f te ∷ rest ]

  -- The list after the node with `suc k` nodes to the end is unlinked: `timeEventHead = te->next`
  -- where there is no `prev`, else `prev->next = te->next`.
  unfoldable pub unlink : Option ℕ → ℕ → List (TimeEvent T F D) → List (TimeEvent T F D)
  unlink none k es = drop (length es - k) es
  unlink (some p) k es = take (length es - p + 1) es ++ drop (length es - k) es

  abbrev pub forced : TimeEvent T F D → TimeEvent T F D
  forced te = record te { when = stamp 0 te.when.ms }

  -- `te->when_sec = 0` for every event, where the clock went back
  unfoldable pub detect_skew : ℕ → Timers T F D → Timers T F D
  detect_skew now ts = record ts {
    head = if ltb now ts.last_time then map forced ts.head else ts.head;
    last_time = now;
  }

-- What the loop calls: the clock, `time`, and the procedures of the events. They run on the
-- timers and on the rest of the program's state `W`. A procedure returns `none` for AE_NOMORE.
pub record Clock {ℓ} (T F D W : Type ℓ) : Type ℓ where
  pub get_time : W → Stamp × W
  pub wall_time : W → ℕ × W
  pub time_call : T → ℕ → D → Timers T F D → W → Timers T F D × W × Option ℕ
  pub finalizer_call : F → D → Timers T F D → W → Timers T F D × W

module _ {ℓ} {T F D W : Type ℓ} (clock : Clock T F D W) where
  -- what follows a call of an event's procedure
  reschedule : Option ℕ → ℕ → Timers T F D → W → Timers T F D × W
  reschedule none k ts w = (record ts { head = update_node deleted ts.head k }, w)
  reschedule (some ms) k ts w =
      let (now, w') = clock.get_time w in
      (
        record ts {
          head = update_node (λ te. record te { when = add_milliseconds ms now }) ts.head k;
        },
        w',
      )

  finalize : TimeEvent T F D → Timers T F D → W → Timers T F D × W
  finalize te ts w = elim te.finalizer_proc [
    | none ↦ (ts, w)
    | some f ↦ clock.finalizer_call f te.client_data ts w
  ]

  -- The body of the loop at an event that is neither deleted nor new. The Boolean says whether
  -- the event was processed.
  fire : ℕ → ℕ → TimeEvent T F D → Timers T F D → W → (Timers T F D × W) × Bool
  unfolding reschedule
  fire k i te ts w =
      let (now, w₁) = clock.get_time w in
      if is_due now te.when
      then (let (ts', w₂, retval) = clock.time_call te.time_proc i te.client_data ts w₁ in
          (reschedule retval k ts' w₂, true))
      else ((ts, w₁), false)

  -- The loop of processTimeEvents. `te` and `prev` are given by the number of nodes from them to
  -- the end of the list; `bound` is the first identifier that is above `maxId`.
  unfoldable pub process_loop :
      (bound k : ℕ) → Option ℕ → ℕ → Timers T F D → W → Timers T F D × W × ℕ
  unfolding fire finalize
  process_loop bound zero prev processed ts w = (ts, w, processed)
  process_loop bound (suc k) prev processed ts w = elim (node ts.head (suc k)) [
    | none ↦ (ts, w, processed)
    | some te ↦ (elim te.id [
      | none ↦
          (let (ts', w') = finalize te (record ts { head = unlink prev k ts.head }) w in
            process_loop bound k (one_less prev) processed ts' w')
      | some i ↦
          if leb bound i
          then process_loop bound k prev processed ts w
          else (let ((ts', w'), done) = fire (suc k) i te ts w in
              process_loop bound k (some (suc k)) (if done then processed + 1 else processed) ts'
                w')
    ])
  ]

  -- processTimeEvents
  unfoldable pub process_time_events : Timers T F D → W → Timers T F D × W × ℕ
  unfolding process_loop
  process_time_events ts w =
      let (now, w') = clock.wall_time w in
      let start = detect_skew now ts in
      process_loop start.next_id (length start.head) none 0 start w'
