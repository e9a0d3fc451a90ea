-- ===== src/Ae/Backends.antt =====
-- The polling layers ae/ae_select.c and ae/ae_epoll.c: their state, what they do for a new, a
-- dropped and a resized registration, and what a poll reports.
pub mod Layers
pub mod Polls
use bo_atom.Prelude.{
  ℕ, zero, suc, ◌+◌, Bool, true, false, ◌&&◌, ◌||◌, not, Option, none, some, List, [], ◌∷◌, ◌==◌,
  leb, if◌then◌else◌, map,
}
use bo_atom.Ae.Mask.{Mask, mask, mask_or, mask_without, is_set}
use bo_atom.Ae.Files.{Api, FileEvent, mask_at, after}

-- aeFiredEvent
pub record Fired : Type 0 where
  pub fd : ℕ
  pub mask : Mask

-- aeApiState of ae_select.c: the two descriptor sets. An `fd_set` has FD_SETSIZE bits; `overrun` says
-- that FD_SET or FD_CLR was called for a descriptor beyond them, and wrote outside the set.
pub record SelectState : Type 0 where
  pub rfds : ℕ → Bool
  pub wfds : ℕ → Bool
  pub overrun : Bool

-- FD_SET and FD_CLR
abbrev pub fd_set : ℕ → (ℕ → Bool) → ℕ → Bool
fd_set fd s i = (fd == i) || s i

abbrev pub fd_clr : ℕ → (ℕ → Bool) → ℕ → Bool
fd_clr fd s i = not (fd == i) && s i

-- FD_SETSIZE
abbrev pub fd_setsize : ℕ
fd_setsize = 1024

unfoldable pub select_add_event : SelectState → Mask → ℕ → Mask → Option SelectState
select_add_event s old fd m = some (record {
  rfds = if m.readable then fd_set fd s.rfds else s.rfds;
  wfds = if m.writable then fd_set fd s.wfds else s.wfds;
  overrun = s.overrun || is_set m && leb fd_setsize fd;
})

unfoldable pub select_del_event : SelectState → Mask → ℕ → Mask → SelectState
select_del_event s old fd m = record {
  rfds = if m.readable then fd_clr fd s.rfds else s.rfds;
  wfds = if m.writable then fd_clr fd s.wfds else s.wfds;
  overrun = s.overrun || is_set m && leb fd_setsize fd;
}

unfoldable pub select_resize : SelectState → ℕ → Option SelectState
select_resize s n = if leb fd_setsize n then none else some s

abbrev pub select_api : Api SelectState
select_api = record {
  add_event = select_add_event;
  del_event = select_del_event;
  resize = select_resize;
}

-- The loop of aeApiPoll over `n` descriptors from `j`, where `select` left the ready ones in `ready`.
unfoldable pub select_fired {ℓ} :
    {P D : Type ℓ} → ℕ → ℕ → List (FileEvent P D) → SelectState → List Fired
select_fired zero j es ready = []
select_fired (suc n) j es ready =
    let m = mask_at es j in
    let rest = select_fired n (j + 1) es ready in
    if not (is_set m)
    then rest
    else (record { fd = j; mask = mask (m.readable && ready.rfds j) (m.writable && ready.wfds j) }
        ∷ rest)

-- aeApiPoll of ae_select.c, for the value `retval` of `select` (none for an error)
unfoldable pub select_poll {ℓ} :
    {P D : Type ℓ} → Option ℕ → List (FileEvent P D) → Option ℕ → SelectState → List Fired
unfolding select_fired
select_poll maxfd es none ready = []
select_poll maxfd es (some zero) ready = []
select_poll maxfd es (some (suc r)) ready = select_fired (after maxfd) 0 es ready

-- The kernel behind ae_epoll.c, as epoll_ctl(2) documents it: `interest` is the set of watched
-- descriptors with their events, and `admits` says that a descriptor can be watched (it is open and
-- supports epoll, and there is room); a call returns none where it fails.
pub record Kernel {ℓ} (K : Type ℓ) : Type ℓ where
  pub interest : K → ℕ → Option Mask
  pub admits : K → ℕ → Bool
  pub ctl_add : K → ℕ → Mask → Option K
  pub ctl_mod : K → ℕ → Mask → Option K
  pub ctl_del : K → ℕ → Option K

module _ {ℓ} {K : Type ℓ} (kernel : Kernel K) where
  unfoldable pub epoll_add_event : K → Mask → ℕ → Mask → Option K
  epoll_add_event k old fd m =
      let merged = mask_or m old in
      if not (is_set old) then kernel.ctl_add k fd merged else kernel.ctl_mod k fd merged

  -- what is left in the kernel after a call whose result is not looked at
  abbrev pub unchecked : K → Option K → K
  unchecked k none = k
  unchecked k (some k') = k'

  unfoldable pub epoll_del_event : K → Mask → ℕ → Mask → K
  epoll_del_event k old fd m =
      let left = mask_without old m in
      unchecked k (if is_set left then kernel.ctl_mod k fd left else kernel.ctl_del k fd)

  abbrev pub epoll_api : Api K
  epoll_api = record {
    add_event = epoll_add_event;
    del_event = epoll_del_event;
    resize = λ k n. some k;
  }

-- struct epoll_event, as epoll_wait fills it in
pub record EpollEvent : Type 0 where
  pub fd : ℕ
  pub epollin : Bool
  pub epollout : Bool
  pub epollerr : Bool
  pub epollhup : Bool

abbrev pub epoll_fired : EpollEvent → Fired
epoll_fired e = record { fd = e.fd; mask = mask e.epollin (e.epollout || e.epollerr || e.epollhup) }

-- aeApiPoll of ae_epoll.c, for the events that epoll_wait reports
unfoldable pub epoll_poll : List EpollEvent → List Fired
epoll_poll = map epoll_fired
