-- ===== src/Tests/Files.antt =====
-- Registrations of ae/ae.c over the layers of ae_select.c and ae_epoll.c.
use bo_atom.Prelude.{
  ℕ, ◌≡◌, refl, true, false, Option, none, some, replicate, sym, ap, get_or, get_or-replicate, ◌==◌,
  if◌then◌else◌, ◌||◌, Option-cases, inl, inr,
}
use mathlib.Core.Path.{subst}
use mathlib.Core.Option.{some-injective}
use bo_atom.Ae.Mask.{is_set, Mask, ae_readable, both}
use bo_atom.Ae.Files.{
  FileTable, FileEvent, unset, create_file_event, delete_file_event, resize_set_size,
}
use bo_atom.Ae.Files.Procs.{HasProcs, unset-HasProcs}
use bo_atom.Ae.Files.Sync.{IsLayer}
use bo_atom.Ae.Files.Trace.{IsSound, Reach-IsSound, here, next, creates, deletes, resizes}
use bo_atom.Ae.Backends.{SelectState, select_api, Kernel, epoll_api, epoll_add_event}
use bo_atom.Ae.Backends.Layers.{
  SelectWatches, select-IsLayer, IsKernel, EpollWatches, epoll-IsLayer,
}
use bo_atom.Ae.Create.{Outcomes}

abbrev no_bits : SelectState
no_bits = record { rfds = λ i. false; wfds = λ i. false; overrun = false }

abbrev empty_slot : FileEvent ℕ ℕ
empty_slot = unset

abbrev blank : FileTable ℕ ℕ SelectState
blank = record { maxfd = none; setsize = 4; events = replicate 4 unset; apidata = no_bits }

slot_unset : (i : ℕ) → get_or (replicate 4 empty_slot) i empty_slot ≡ empty_slot
slot_unset i = get_or-replicate 4 i empty_slot

blank-IsSound : IsSound select_api SelectWatches blank
blank-IsSound = record {
  valid = record {
    sized = refl;
    top = λ fd. ap (λ (e : FileEvent ℕ ℕ). is_set e.mask) (slot_unset fd);
  };
  synced = λ inside i. (
    ap (λ (e : FileEvent ℕ ℕ). e.mask.readable) (sym (slot_unset i)),
    ap (λ (e : FileEvent ℕ ℕ). e.mask.writable) (sym (slot_unset i)),
  );
  procs = λ i. subst HasProcs (sym (slot_unset i)) unset-HasProcs;
}

-- descriptors 1 and 3 come, 3 goes, and the array shrinks to two slots
abbrev used : FileTable ℕ ℕ SelectState
used =
    (resize_set_size select_api
      (delete_file_event select_api
        (create_file_event select_api (create_file_event select_api blank 1 ae_readable 7 0).0 3
          both 8 0).0
        3 both)
      2).0

Reach-IsSound_example : IsSound select_api SelectWatches used
Reach-IsSound_example = Reach-IsSound select_api SelectWatches select-IsLayer blank-IsSound (
    next
      (next (next (next here (creates 1 ae_readable 7 0 refl)) (creates 3 both 8 0 refl))
        (deletes 3 both))
      (resizes 2))

-- a kernel that watches whatever it is told to
abbrev set_at : (ℕ → Option Mask) → ℕ → Option Mask → ℕ → Option Mask
set_at k fd o i = if fd == i then o else k i

abbrev simple_kernel : Kernel (ℕ → Option Mask)
simple_kernel = record {
  interest = λ k. k;
  admits = λ k fd. true;
  ctl_add = λ k fd m. elim (k fd) [ none ↦ some (set_at k fd (some m)) | some old ↦ none ];
  ctl_mod = λ k fd m. elim (k fd) [ none ↦ none | some old ↦ some (set_at k fd (some m)) ];
  ctl_del = λ k fd. elim (k fd) [ none ↦ none | some old ↦ some (set_at k fd none) ];
}

simple_kernel-IsKernel : IsKernel simple_kernel
simple_kernel-IsKernel = record {
  adds = λ k k' fd m e i. elim (Option-cases (k fd)) [
    | inl free ↦ applied k' (set_at k fd (some m)) i (rw free at e)
    | inr (old, held) ↦ absurd (no_kernel k' (rw held at e))
  ];
  mods = λ k k' fd m e i. elim (Option-cases (k fd)) [
    | inl free ↦ absurd (no_kernel k' (rw free at e))
    | inr (old, held) ↦ applied k' (set_at k fd (some m)) i (rw held at e)
  ];
  dels = λ k k' fd e i. elim (Option-cases (k fd)) [
    | inl free ↦ absurd (no_kernel k' (rw free at e))
    | inr (old, held) ↦ applied k' (set_at k fd none) i (rw held at e)
  ];
  add_exists = λ k fd m old e. rw e refl;
  add_succeeds = λ k fd m e a. (set_at k fd (some m), rw e refl);
  mod_missing = λ k fd m e. rw e refl;
  del_missing = λ k fd e. rw e refl;
  mod_succeeds = λ k fd m old e. (set_at k fd (some m), rw e refl);
  del_succeeds = λ k fd old e. (set_at k fd none, rw e refl);
}
  where
    no_kernel : (k' : ℕ → Option Mask) → none ≡ some k' → ⊥
    no_kernel k' e = cc

    applied : (k' k : ℕ → Option Mask) (i : ℕ) → some k ≡ some k' → k' i ≡ k i
    applied k' k i e = sym (ap (λ (f : ℕ → Option Mask). f i) (some-injective _ _ e))

epoll-IsLayer_example :
    IsLayer (epoll_api simple_kernel) (EpollWatches simple_kernel simple_kernel-IsKernel)
    × ((k : ℕ → Option Mask) (f : ℕ → Mask) (fd : ℕ) (m : Mask)
        → EpollWatches simple_kernel simple_kernel-IsKernel k f
        → (is_set (f fd) || true) ≡ true
        → (k' : ℕ → Option Mask) × (epoll_add_event simple_kernel k (f fd) fd m ≡ some k'))
epoll-IsLayer_example = epoll-IsLayer simple_kernel simple_kernel-IsKernel

abbrev on_signal : ℕ
on_signal = 9

abbrev null : ℕ
null = 0

abbrev all_succeed : Outcomes SelectState
all_succeed = record {
  calloc_ok = true;
  events_ok = true;
  fired_ok = true;
  sigevents_ok = true;
  pipe = some (4, 5);
  api_create = some no_bits;
}

abbrev no_memory : Outcomes SelectState
no_memory = record {
  calloc_ok = true;
  events_ok = false;
  fired_ok = true;
  sigevents_ok = true;
  pipe = none;
  api_create = none;
}
