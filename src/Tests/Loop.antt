-- ===== src/Tests/Loop.antt =====
-- Rounds of the event loop of ae/ae.c with a program whose procedures count and stop the loop.
use bo_atom.Prelude.{
  get_elem?, All, In, ◌<◌, arith, length, ℕ, zero, suc, ◌+◌, ◌≡◌, refl, true, false, Bool, none,
  some, List, [], ◌∷◌,
}
use bo_atom.Ae.Mask.{ae_none, ae_readable, is_set}
use bo_atom.Ae.Files.{FileEvent, mask_at, unset}
use bo_atom.Ae.Files.Procs.{AllHaveProcs}
use bo_atom.Ae.Timers.{stamp}
use bo_atom.Ae.Backends.{Fired, SelectState, select_poll}
use bo_atom.Ae.Backends.Polls.{IsReport, IsAscending, report_of, select_poll-reports}
use bo_atom.Ae.Loop.{Rest, Loop, Env}
use bo_atom.Ae.Loop.Safety.{IsReady, ready}

abbrev State : Type 0
State = Loop ℕ ℕ ℕ ℕ Bool ℕ

abbrev idle_slot : Fired
idle_slot = record { fd = 0; mask = ae_none }

-- Descriptor 1 fires in every poll; its procedure counts and stops the loop.
abbrev program : Env ℕ ℕ ℕ ℕ Bool ℕ
program = record {
  clock = record {
    get_time = λ r. (stamp r.world 0, r);
    wall_time = λ r. (r.world, r);
    time_call = λ t i d ts r. (ts, r, none);
    finalizer_call = λ f d ts r. (ts, r);
  };
  poll = λ tv r. (1, record r { fired = record { fd = 1; mask = ae_readable } ∷ idle_slot ∷ [] });
  file_call =
      λ p fd d m x. record x { rest = record (x.rest) { world = x.rest.world + 1; stop = true } };
  same_proc = λ p q. false;
  before_sleep = λ x. x;
}

abbrev registered : List (FileEvent ℕ ℕ)
registered =
    unset
    ∷ record { mask = ae_readable; rfile_proc = some 7; wfile_proc = none; client_data = some 0 }
    ∷ []

abbrev start : State
start = record {
  timers = record { head = []; next_id = 0; last_time = 0 };
  rest = record {
    files = record { maxfd = some 1; setsize = 2; events = registered; apidata = false };
    fired = idle_slot ∷ idle_slot ∷ [];
    events_at = 100;
    stop = true;
    world = 0;
  };
}

-- The array keeps its procedures and its two slots.
abbrev Holds : Rest ℕ ℕ Bool ℕ → Type 0
Holds r = AllHaveProcs r.files.events × (length r.files.events ≡ 2)

-- the first slot of `fired`, after a poll
first_fired :
    (r : Rest ℕ ℕ Bool ℕ) (j : ℕ)
    → length r.files.events ≡ 2
    → j < 1
    → (f : Fired) × (get_elem? (record { fd = 1; mask = ae_readable } ∷ idle_slot ∷ []) j ≡ some f)
      × (f.fd < length r.files.events)
first_fired r zero e h = (record { fd = 1; mask = ae_readable }, refl, omega (arith, e))
first_fired r (suc j) e h = absurd (omega (arith, h))

polled :
    (r : Rest ℕ ℕ Bool ℕ)
    → length r.files.events ≡ 2
    → IsReady 1 (record r { fired = record { fd = 1; mask = ae_readable } ∷ idle_slot ∷ [] })
polled r e = ready (λ j h. first_fired r j e h)

-- descriptor 1 is registered and not ready
abbrev idle : SelectState
idle = record { rfds = λ i. false; wfds = λ i. false; overrun = false }

select_poll-reports_example :
    All (IsReport registered idle 2) (select_poll (some 1) registered (some 1) idle)
    × (length (select_poll (some 1) registered (some 1) idle) ≡ 1)
    × IsAscending registered 0 (select_poll (some 1) registered (some 1) idle)
    × ((i : ℕ)
        → i < 2
        → is_set (mask_at registered i) ≡ true
        → In (report_of registered idle i) (select_poll (some 1) registered (some 1) idle))
select_poll-reports_example = select_poll-reports registered (some 1) 0 idle
