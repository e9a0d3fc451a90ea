-- ===== src/Ae/Create.antt =====
-- aeCreateEventLoop and aeDeleteEventLoop of ae/ae.c.
use bo_atom.Prelude.{
  ℕ, ◌≡◌, refl, Bool, true, false, ◌&&◌, ◌||◌, not, Option, none, some, List, [], ◌∷◌, ◌++◌,
  if◌then◌else◌, replicate,
}
use bo_atom.Ae.Mask.{Mask, ae_readable}
use bo_atom.Ae.Files.{Api, FileTable, ae_ok, ae_err, unset, mask_at, create_file_event}
use bo_atom.Ae.Files.Trace.{IsSound}

-- The pair `signalFd`, with none for -1.
pub record SignalFds : Type 0 where
  pub read_end : Option ℕ
  pub write_end : Option ℕ

-- What the calls that aeCreateEventLoop makes return: whether each allocation succeeds, the two
-- ends of the pipe, and the state that aeApiCreate sets up.
pub record Outcomes {ℓ} (S : Type ℓ) : Type ℓ where
  pub calloc_ok : Bool
  pub events_ok : Bool
  pub fired_ok : Bool
  pub sigevents_ok : Bool
  pub pipe : Option (ℕ × ℕ)
  pub api_create : Option S

-- `if (fd >= 0) close(fd)`: the descriptor closed, if any
abbrev pub closing : Option ℕ → List ℕ
closing none = []
closing (some fd) = fd ∷ []

-- the descriptors that the code behind `err:` closes
unfoldable pub err_closes : SignalFds → List ℕ
err_closes fds = closing fds.write_end ++ closing fds.read_end

-- `calloc` leaves the pair at 0, and then the code stores -1.
abbrev pub zeroed : SignalFds
zeroed = record { read_end = some 0; write_end = some 0 }

abbrev pub no_fds : SignalFds
no_fds = record { read_end = none; write_end = none }

-- The new loop's registrations with its pair, or none; and the descriptors that were closed.
abbrev pub Created {ℓ} : Type ℓ → Type ℓ → Type ℓ → Type ℓ
Created P D S = Option (FileTable P D S × SignalFds) × List ℕ

module _ {ℓ} {P D S : Type ℓ} (api : Api S) (signal_proc : P) (null : D) where
  fresh_table : ℕ → S → FileTable P D S
  fresh_table n s = record { maxfd = none; setsize = n; events = replicate n unset; apidata = s }

  -- the registration of the pipe's read end
  listen : FileTable P D S → ℕ → ℕ → Created P D S
  unfolding err_closes
  listen t r w =
      let fds : SignalFds = record { read_end = some r; write_end = some w } in
      let (t', st) = create_file_event api t r ae_readable signal_proc null in
      elim st [ ae_ok ↦ (some (t', fds), []) | ae_err ↦ (none, err_closes fds) ]

  -- the part behind `pipe`
  open_api : ℕ → Option (ℕ × ℕ) → Option S → Created P D S
  unfolding listen fresh_table
  open_api n none api_state = (none, err_closes no_fds)
  open_api n (some (r, w)) none =
      (none, err_closes (record { read_end = some r; write_end = some w }))
  open_api n (some (r, w)) (some s) = listen (fresh_table n s) r w

  unfoldable pub create_event_loop : ℕ → Outcomes S → Created P D S
  unfolding open_api
  create_event_loop n o =
      if not o.calloc_ok
      then (none, [])
      else if not (o.events_ok && o.fired_ok)
      then (none, err_closes zeroed)
      else if not o.sigevents_ok
      then (none, err_closes no_fds)
      else open_api n o.pipe o.api_create

  -- the descriptors that aeDeleteEventLoop closes, once the polling layer is freed
  unfoldable pub delete_event_loop : SignalFds → List ℕ
  unfolding err_closes
  delete_event_loop fds = err_closes fds

  -- If the loop is allocated, but `events` or `fired` is not, the pair `signalFd` still holds the zeros
  -- of calloc: the creation fails and closes descriptor 0, twice.
  pub create_closes_stdin :
      (n : ℕ) (o : Outcomes S)
      → o.calloc_ok ≡ true
      → (o.events_ok && o.fired_ok) ≡ false
      → create_event_loop n o ≡ (none, 0 ∷ 0 ∷ [])
  unfolding create_event_loop
  create_closes_stdin n o a b = rw (a, b) (unfold err_closes in refl)

  -- What `pipe` returns when the code reaches it; none where an allocation before it fails.
  abbrev pub pipe_opened : Outcomes S → Option (ℕ × ℕ)
  pipe_opened o =
      if o.calloc_ok && o.events_ok && o.fired_ok && o.sigevents_ok then o.pipe else none

  -- The outcome of a creation for the results of its calls: descriptor 0 is closed twice; or no pipe
  -- was opened and nothing is closed; or both ends of the pipe are closed; or the new table is sound
  -- and reads the signal pipe.
  pub data IsCreated (Watches : S → (ℕ → Mask) → Type 0) (n : ℕ) (o : Outcomes S)
      : Created P D S → Type ℓ where
    closes_stdin :
        o.calloc_ok ≡ true
        → (o.events_ok && o.fired_ok) ≡ false
        → IsCreated Watches n o (none, 0 ∷ 0 ∷ [])
    unopened :
        (not o.calloc_ok || o.events_ok && o.fired_ok) ≡ true
        → pipe_opened o ≡ none
        → IsCreated Watches n o (none, [])
    closed : {r w : ℕ} → pipe_opened o ≡ some (r, w) → IsCreated Watches n o (none, w ∷ r ∷ [])
    ready :
        {r w : ℕ} {t : FileTable P D S}
        → pipe_opened o ≡ some (r, w)
        → IsSound api Watches t
        → t.setsize ≡ n
        → t.maxfd ≡ some r
        → mask_at t.events r ≡ ae_readable
        → IsCreated Watches n o (some (t, record { read_end = some r; write_end = some w }), [])
