-- ===== src/Ae/Backends/Layers.antt =====
-- Both polling layers keep watching what the event loop registers.
use bo_atom.Prelude.{
  ℕ, ◌≡◌, refl, ◌==◌, if◌then◌else◌, leb, none, some, arith, true, false, ◌||◌, Bool-cases, inl,
  inr,
}
use mathlib.Core.Path.{subst}
use mathlib.Core.Option.{some-injective}
use bo_atom.Ae.Mask.{Mask, mask_or, mask_without, is_set}
use bo_atom.Ae.Files.Sync.{IsLayer, at_fd}
use bo_atom.Ae.Backends.{
  SelectState, select_add_event, select_del_event, select_resize, select_api, fd_setsize, Kernel,
  epoll_add_event, epoll_del_event, epoll_api,
}

-- Every descriptor is in the two sets as its mask says, as long as nothing was written outside them.
abbrev pub SelectWatches : SelectState → (ℕ → Mask) → Type 0
SelectWatches s f =
    s.overrun ≡ false → (i : ℕ) → (s.rfds i ≡ (f i).readable) × (s.wfds i ≡ (f i).writable)

select-adds :
    (s s' : SelectState) (f : ℕ → Mask) (fd : ℕ) (m : Mask)
    → select_add_event s (f fd) fd m ≡ some s'
    → SelectWatches s f
    → SelectWatches s' (at_fd f fd (mask_or (f fd) m))
unfolding select_add_event
select-adds s s' f fd m e w =
    subst (λ u. SelectWatches u (at_fd f fd (mask_or (f fd) m))) (some-injective _ _ e)
      (λ inside i.
        let before : s.overrun ≡ false = ground (arith, inside) in
        ground (arith, w before i, w before fd))

select-dels :
    (s : SelectState) (f : ℕ → Mask) (fd : ℕ) (m : Mask)
    → SelectWatches s f
    → SelectWatches (select_del_event s (f fd) fd m) (at_fd f fd (mask_without (f fd) m))
unfolding select_del_event
select-dels s f fd m w inside i =
    let before : s.overrun ≡ false = ground (arith, inside) in
    ground (arith, w before i, w before fd)

select-resizes :
    (s s' : SelectState) (f : ℕ → Mask) (n : ℕ)
    → select_resize s n ≡ some s'
    → SelectWatches s f
    → SelectWatches s' f
unfolding select_resize
select-resizes s s' f n e w = elim (Bool-cases (leb fd_setsize n)) [
  | inl big ↦ absurd (not-none (rw big at e))
  | inr fits ↦ subst (λ u. SelectWatches u f) (some-injective _ _ (rw fits at e)) w
]
  where
    not-none : none ≡ some s' → ⊥
    not-none h = cc

-- As long as no descriptor is FD_SETSIZE or more, the layer of ae_select.c has each in its two sets
-- exactly as its mask says, and calls that register, drop and resize keep it so.
pub select-IsLayer : IsLayer select_api SelectWatches
select-IsLayer = record {
  adds = λ s s' f fd m bit. select-adds s s' f fd m;
  dels = λ s f fd m used. select-dels s f fd m;
  resizes = select-resizes;
}

-- What epoll_ctl(2) documents: a call that succeeds changes the entry of its descriptor alone;
-- EPOLL_CTL_ADD fails on a descriptor that is watched (EEXIST), and succeeds on another one that is
-- admitted; EPOLL_CTL_MOD and EPOLL_CTL_DEL succeed on a descriptor that is watched, and fail on
-- another one (ENOENT).
pub record IsKernel {ℓ} {K : Type ℓ} (kernel : Kernel K) : Type ℓ where
  pub adds :
      (k k' : K) (fd : ℕ) (m : Mask)
      → kernel.ctl_add k fd m ≡ some k'
      → (i : ℕ) → kernel.interest k' i ≡ (if fd == i then some m else kernel.interest k i)
  pub mods :
      (k k' : K) (fd : ℕ) (m : Mask)
      → kernel.ctl_mod k fd m ≡ some k'
      → (i : ℕ) → kernel.interest k' i ≡ (if fd == i then some m else kernel.interest k i)
  pub dels :
      (k k' : K) (fd : ℕ)
      → kernel.ctl_del k fd ≡ some k'
      → (i : ℕ) → kernel.interest k' i ≡ (if fd == i then none else kernel.interest k i)
  pub add_exists :
      (k : K) (fd : ℕ) (m old : Mask)
      → kernel.interest k fd ≡ some old
      → kernel.ctl_add k fd m ≡ none
  pub add_succeeds :
      (k : K) (fd : ℕ) (m : Mask)
      → kernel.interest k fd ≡ none
      → kernel.admits k fd ≡ true
      → (k' : K) × (kernel.ctl_add k fd m ≡ some k')
  pub mod_missing :
      (k : K) (fd : ℕ) (m : Mask) → kernel.interest k fd ≡ none → kernel.ctl_mod k fd m ≡ none
  pub del_missing : (k : K) (fd : ℕ) → kernel.interest k fd ≡ none → kernel.ctl_del k fd ≡ none
  pub mod_succeeds :
      (k : K) (fd : ℕ) (m old : Mask)
      → kernel.interest k fd ≡ some old
      → (k' : K) × (kernel.ctl_mod k fd m ≡ some k')
  pub del_succeeds :
      (k : K) (fd : ℕ) (old : Mask)
      → kernel.interest k fd ≡ some old
      → (k' : K) × (kernel.ctl_del k fd ≡ some k')

module _ {ℓ} {K : Type ℓ} (kernel : Kernel K) (lawful : IsKernel kernel) where
  -- The kernel watches the descriptors with a non-empty mask, each for that mask.
  abbrev pub EpollWatches : K → (ℕ → Mask) → Type 0
  EpollWatches k f = (i : ℕ) → kernel.interest k i ≡ (if is_set (f i) then some (f i) else none)

  epoll-adds :
      (k k' : K) (f : ℕ → Mask) (fd : ℕ) (m : Mask)
      → is_set m ≡ true
      → epoll_add_event kernel k (f fd) fd m ≡ some k'
      → EpollWatches k f
      → EpollWatches k' (at_fd f fd (mask_or (f fd) m))
  unfolding epoll_add_event
  epoll-adds k k' f fd m bit e w i = elim (Bool-cases (is_set (f fd))) [
    | inl old ↦ ground (arith, w i, lawful.mods k k' fd (mask_or m (f fd)) (rw old at e) i)
    | inr new ↦ ground (arith, w i, lawful.adds k k' fd (mask_or m (f fd)) (rw new at e) i)
  ]

  epoll-dels :
      (k : K) (f : ℕ → Mask) (fd : ℕ) (m : Mask)
      → is_set (f fd) ≡ true
      → EpollWatches k f
      → EpollWatches (epoll_del_event kernel k (f fd) fd m) (at_fd f fd (mask_without (f fd) m))
  unfolding epoll_del_event
  epoll-dels k f fd m used w i =
      let watched : kernel.interest k fd ≡ some (f fd) = rw (w fd, used) refl in
      elim (Bool-cases (is_set (mask_without (f fd) m))) [
        | inl some_left ↦
            let (k', done) = lawful.mod_succeeds k fd (mask_without (f fd) m) (f fd) watched in
            rw (some_left, done)
              (ground (arith, w i, lawful.mods k k' fd (mask_without (f fd) m) done i))
        | inr none_left ↦
            let (k', done) = lawful.del_succeeds k fd (f fd) watched in
            rw (none_left, done) (ground (arith, w i, lawful.dels k k' fd done i))
      ]

  epoll-add_succeeds :
      (k : K) (f : ℕ → Mask) (fd : ℕ) (m : Mask)
      → EpollWatches k f
      → (is_set (f fd) || kernel.admits k fd) ≡ true
      → (k' : K) × (epoll_add_event kernel k (f fd) fd m ≡ some k')
  unfolding epoll_add_event
  epoll-add_succeeds k f fd m w h = elim (Bool-cases (is_set (f fd))) [
    | inl old ↦
        let watched : kernel.interest k fd ≡ some (f fd) = rw (w fd, old) refl in
        rw old (lawful.mod_succeeds k fd (mask_or m (f fd)) (f fd) watched)
    | inr new ↦
        let free : kernel.interest k fd ≡ none = rw (w fd, new) refl in
        rw new (lawful.add_succeeds k fd (mask_or m (f fd)) free (ground (arith, new, h)))
  ]

  -- Over a kernel that keeps to epoll_ctl(2), the layer of ae_epoll.c has the kernel watch each
  -- descriptor with a non-empty mask for exactly its mask and no other descriptor, and calls that
  -- register, drop and resize keep it so. A call that registers succeeds whenever the descriptor is
  -- registered before or the kernel admits it.
  pub epoll-IsLayer :
      IsLayer (epoll_api kernel) EpollWatches
      × ((k : K) (f : ℕ → Mask) (fd : ℕ) (m : Mask)
          → EpollWatches k f
          → (is_set (f fd) || kernel.admits k fd) ≡ true
          → (k' : K) × (epoll_add_event kernel k (f fd) fd m ≡ some k'))
  epoll-IsLayer = (
    record {
      adds = epoll-adds;
      dels = epoll-dels;
      resizes = λ s s' f n e w. subst (λ u. EpollWatches u f) (some-injective _ _ e) w;
    },
    epoll-add_succeeds,
  )
