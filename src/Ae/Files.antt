-- ===== src/Ae/Files.antt =====
-- The registered file events of ae/ae.c: aeCreateFileEvent, aeDeleteFileEvent, aeGetFileEvents,
-- aeResizeSetSize, and the functions that the polling layer supplies to them.
pub mod Procs
pub mod Resize
pub mod Sync
pub mod Trace
pub mod Valid
use bo_atom.Prelude.{
  ℕ, zero, suc, ◌-◌, Bool, true, false, ◌&&◌, not, Option, none, some, List, [], ◌∷◌, length,
  get_or, set, take, replicate, ◌++◌, ◌==◌, leb, ltb, if◌then◌else◌,
}
use bo_atom.Ae.Mask.{Mask, ae_none, mask_or, mask_without, is_set}

-- AE_OK and AE_ERR
pub data Status : Type 0 where
  ae_ok ae_err : Status

-- aeFileEvent. A procedure or an argument that was never stored is `none`.
pub record FileEvent {ℓ} (P D : Type ℓ) : Type ℓ where
  pub mask : Mask
  pub rfile_proc : Option P
  pub wfile_proc : Option P
  pub client_data : Option D

-- What aeApiAddEvent, aeApiDelEvent and aeApiResize of a polling layer do to its state. The
-- layer sees the mask under which the descriptor is registered at the moment of the call.
pub record Api {ℓ} (S : Type ℓ) : Type ℓ where
  pub add_event : S → Mask → ℕ → Mask → Option S
  pub del_event : S → Mask → ℕ → Mask → S
  pub resize : S → ℕ → Option S

-- The part of aeEventLoop that registers descriptors. `maxfd` is `none` where the code has -1.
pub record FileTable {ℓ} (P D S : Type ℓ) : Type ℓ where
  pub maxfd : Option ℕ
  pub setsize : ℕ
  pub events : List (FileEvent P D)
  pub apidata : S

module _ {ℓ} {P D : Type ℓ} where
  abbrev pub unset : FileEvent P D
  unset = record { mask = ae_none; rfile_proc = none; wfile_proc = none; client_data = none }

  abbrev pub event_at : List (FileEvent P D) → ℕ → FileEvent P D
  event_at es fd = get_or es fd unset

  abbrev pub mask_at : List (FileEvent P D) → ℕ → Mask
  mask_at es fd = (event_at es fd).mask

  -- the assignments of aeCreateFileEvent to the slot
  abbrev pub with_bits : FileEvent P D → Mask → P → D → FileEvent P D
  with_bits fe m proc arg = record {
    mask = mask_or fe.mask m;
    rfile_proc = if m.readable then some proc else fe.rfile_proc;
    wfile_proc = if m.writable then some proc else fe.wfile_proc;
    client_data = some arg;
  }

  -- `fe->mask = fe->mask & ~mask`
  abbrev pub without_bits : FileEvent P D → Mask → FileEvent P D
  without_bits fe m = record fe { mask = mask_without fe.mask m }

-- `fd > maxfd`, where the largest descriptor may be -1
abbrev pub above : ℕ → Option ℕ → Bool
above fd none = true
above fd (some m) = ltb m fd

-- `fd == maxfd`
abbrev pub is_top : ℕ → Option ℕ → Bool
is_top fd none = false
is_top fd (some m) = fd == m

-- the first position above the largest descriptor
abbrev pub after : Option ℕ → ℕ
after none = 0
after (some m) = suc m

-- `for (j = k - 1; j >= 0; j--) if (events[j].mask != AE_NONE) break;`
unfoldable pub last_set {ℓ} : {P D : Type ℓ} → ℕ → List (FileEvent P D) → Option ℕ
last_set zero es = none
last_set (suc j) es = let rest = last_set j es in if is_set (mask_at es j) then some j else rest

-- `for (i = k; i < setsize; i++) events[i].mask = AE_NONE;`
unfoldable pub clear_from {ℓ} : {P D : Type ℓ} → ℕ → List (FileEvent P D) → List (FileEvent P D)
clear_from k [] = []
clear_from zero (e ∷ es) = record e { mask = ae_none } ∷ clear_from zero es
clear_from (suc k) (e ∷ es) = e ∷ clear_from k es

module _ {ℓ} {P D S : Type ℓ} (api : Api S) where
  unfoldable pub register : FileTable P D S → ℕ → Mask → P → D → S → FileTable P D S
  register t fd m proc arg s = record t {
    events = set t.events fd (with_bits (event_at t.events fd) m proc arg);
    maxfd = if above fd t.maxfd then some fd else t.maxfd;
    apidata = s;
  }

  -- aeCreateFileEvent
  unfoldable pub create_file_event : FileTable P D S → ℕ → Mask → P → D → FileTable P D S × Status
  unfolding register
  create_file_event t fd m proc arg =
      if leb t.setsize fd
      then (t, ae_err)
      else (elim (api.add_event t.apidata (mask_at t.events fd) fd m) [
        | none ↦ (t, ae_err)
        | some s ↦ (register t fd m proc arg s, ae_ok)
      ])

  unregister : FileTable P D S → ℕ → Mask → FileTable P D S
  unfolding last_set
  unregister t fd m =
      let fe = event_at t.events fd in
      let left = mask_without fe.mask m in
      let es = set t.events fd (without_bits fe m) in
      record t {
        events = es;
        maxfd =
            if is_top fd t.maxfd && not (is_set left)
            then last_set (after t.maxfd - 1) es
            else t.maxfd;
        apidata = api.del_event t.apidata fe.mask fd m;
      }

  -- aeDeleteFileEvent
  unfoldable pub delete_file_event : FileTable P D S → ℕ → Mask → FileTable P D S
  unfolding unregister
  delete_file_event t fd m =
      if leb t.setsize fd
      then t
      else if not (is_set (mask_at t.events fd))
      then t
      else unregister t fd m

  -- aeGetFileEvents
  unfoldable pub get_file_events : FileTable P D S → ℕ → Mask
  get_file_events t fd = if leb t.setsize fd then ae_none else mask_at t.events fd

  -- The array after `realloc` to `n` slots, and the loop that clears the masks above the largest
  -- descriptor.
  pub resized : FileTable P D S → ℕ → List (FileEvent P D)
  unfolding clear_from
  resized t n =
      clear_from (after t.maxfd) (take n t.events ++ replicate (n - length t.events) unset)

  -- aeResizeSetSize
  unfoldable pub resize_set_size : FileTable P D S → ℕ → FileTable P D S × Status
  unfolding resized
  resize_set_size t n =
      if n == t.setsize
      then (t, ae_ok)
      else if not (above n t.maxfd)
      then (t, ae_err)
      else (elim (api.resize t.apidata n) [
        | none ↦ (t, ae_err)
        | some s ↦ (record t { events = resized t n; setsize = n; apidata = s }, ae_ok)
      ])

  -- aeGetSetSize
  unfoldable pub get_set_size : FileTable P D S → ℕ
  get_set_size t = t.setsize
