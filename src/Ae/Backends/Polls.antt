-- ===== src/Ae/Backends/Polls.antt =====
-- What aeApiPoll of ae_select.c reports.
use bo_atom.Prelude.{
  ℕ, zero, suc, ◌+◌, ◌≤◌, ◌<◌, ◌≡◌, refl, true, ◌&&◌, Option, some, List, [], ◌∷◌, In, here, there,
  sym, ap, ◌==◌, if◌then◌else◌, length, arith, All, Bool-cases, inl, inr,
}
use bo_atom.Ae.Mask.{mask, is_set}
use bo_atom.Ae.Files.{FileEvent, mask_at, after}
use bo_atom.Ae.Backends.{Fired, SelectState, select_fired, select_poll}

module _ {ℓ} {P D : Type ℓ} (es : List (FileEvent P D)) where
  -- how many of `n` descriptors from `j` on are registered
  abbrev pub registered : ℕ → ℕ → ℕ
  registered zero j = 0
  registered (suc n) j = (if is_set (mask_at es j) then 1 else 0) + registered n (j + 1)

  -- The report names a descriptor of the array below `top` that is registered, with those of its
  -- events that `select` left in the sets.
  abbrev pub IsReport : SelectState → ℕ → Fired → Type 0
  IsReport ready top f =
      (f.fd < top)
      × (is_set (mask_at es f.fd) ≡ true)
      × (f.mask
          ≡ mask ((mask_at es f.fd).readable && ready.rfds f.fd)
              ((mask_at es f.fd).writable && ready.wfds f.fd))

  select_fired-reports :
      (n j top : ℕ) (ready : SelectState)
      → j + n ≤ top
      → All (IsReport ready top) (select_fired n j es ready)
        × (length (select_fired n j es ready) ≡ registered n j)
  unfolding select_fired
  select_fired-reports zero j top ready h = (tt, refl)
  select_fired-reports (suc n) j top ready h =
      let rest = select_fired-reports n (j + 1) top ready (omega arith) in
      elim (Bool-cases (is_set (mask_at es j))) [
        | inr idle ↦ rw idle (rest.0, omega (arith, rest.1))
        | inl used ↦ rw used (((omega arith, used, refl), rest.0), omega (arith, rest.1))
      ]

  -- The reports are in ascending order of their descriptors, all from `j` on: each descriptor is
  -- reported once at most.
  abbrev pub IsAscending : ℕ → List Fired → Type 0
  IsAscending j [] = Unit
  IsAscending j (f ∷ fs) = (j ≤ f.fd) × IsAscending (f.fd + 1) fs

  -- the report of a descriptor
  abbrev pub report_of : SelectState → ℕ → Fired
  report_of ready i = record {
    fd = i;
    mask = mask ((mask_at es i).readable && ready.rfds i) ((mask_at es i).writable && ready.wfds i);
  }

  IsAscending-down : (j : ℕ) (fs : List Fired) → IsAscending (j + 1) fs → IsAscending j fs
  IsAscending-down j [] h = tt
  IsAscending-down j (f ∷ fs) h = (omega (arith, h.0), h.1)

  select_fired-IsAscending :
      (n j : ℕ) (ready : SelectState) → IsAscending j (select_fired n j es ready)
  unfolding select_fired
  select_fired-IsAscending zero j ready = tt
  select_fired-IsAscending (suc n) j ready =
      let rest = select_fired-IsAscending n (j + 1) ready in
      elim (Bool-cases (is_set (mask_at es j))) [
        | inr idle ↦ rw idle (IsAscending-down j (select_fired n (j + 1) es ready) rest)
        | inl used ↦ rw used (omega arith, rest)
      ]

  select_fired-In :
      (n j i : ℕ) (ready : SelectState)
      → j ≤ i
      → i < j + n
      → is_set (mask_at es i) ≡ true
      → In (report_of ready i) (select_fired n j es ready)
  unfolding select_fired
  select_fired-In zero j i ready low high used = absurd (omega arith)
  select_fired-In (suc n) j i ready low high used = elim (Bool-cases (j == i)) [
    | inl same ↦
        let here_it_is : j ≡ i = ground (arith, same) in
        let used' : is_set (mask_at es j) ≡ true = rw here_it_is used in
        rw used' (here (ap (report_of ready) (sym here_it_is)))
    | inr other ↦
        let rest =
          select_fired-In n (j + 1) i ready (ground (arith, low, other)) (omega arith) used in
        elim (Bool-cases (is_set (mask_at es j))) [
          | inr idle ↦ rw idle rest
          | inl reported ↦ rw reported (there rest)
        ]
  ]

  -- When `select` returns a positive count, aeApiPoll of ae_select.c reports every registered
  -- descriptor up to `maxfd`, ready or not, and nothing else, in ascending order and so each once,
  -- each with exactly those of its events that are ready; so a descriptor that is not ready is
  -- reported with the mask 0, and the number of reports is the number of registered descriptors.
  pub select_poll-reports :
      (maxfd : Option ℕ) (r : ℕ) (ready : SelectState)
      → All (IsReport ready (after maxfd)) (select_poll maxfd es (some (suc r)) ready)
        × (length (select_poll maxfd es (some (suc r)) ready) ≡ registered (after maxfd) 0)
        × IsAscending 0 (select_poll maxfd es (some (suc r)) ready)
        × ((i : ℕ)
            → i < after maxfd
            → is_set (mask_at es i) ≡ true
            → In (report_of ready i) (select_poll maxfd es (some (suc r)) ready))
  unfolding select_poll
  select_poll-reports maxfd r ready =
      let (sound, counted) =
        select_fired-reports (after maxfd) 0 (after maxfd) ready (omega arith) in
      (
        sound,
        counted,
        select_fired-IsAscending (after maxfd) 0 ready,
        λ i low used. select_fired-In (after maxfd) 0 i ready (omega arith) (omega arith) used,
      )
