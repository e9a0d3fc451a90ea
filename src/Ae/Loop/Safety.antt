-- ===== src/Ae/Loop/Safety.antt =====
-- aeProcessEvents never calls through a null pointer, reads inside its arrays, and keeps what its
-- procedures keep.
use bo_atom.Prelude.{
  get_elem?, get_elem?-inside, ℕ, zero, suc, ◌+◌, ◌<◌, ◌≤◌, ◌≡◌, refl, Bool, true, false, Option,
  some, inl, inr, Bool-cases, arith, not, ◌||◌, ◌==◌, length,
}
use bo_atom.Ae.Mask.{Mask, mask_and}
use bo_atom.Ae.Files.{event_at, unset}
use bo_atom.Ae.Files.Procs.{HasProcs}
use bo_atom.Ae.Backends.{Fired}
use bo_atom.Ae.Loop.{
  Rest, Loop, Env, call, write_slot, dispatch_write, read_slot, dispatch, dispatch_all,
}

-- The first `n` slots of the array `fired` exist and name descriptors that the array `events` has.
pub data IsReady {ℓ} {P D S W : Type ℓ} (n : ℕ) (r : Rest P D S W) : Type ℓ where
  ready :
      ((j : ℕ)
        → j < n
        → (f : Fired) × (get_elem? r.fired j ≡ some f) × (f.fd < length r.files.events))
      → IsReady n r

module _ {ℓ} {P T F D S W : Type ℓ} (env : Env P T F D S W) (Inv : Loop P T F D S W → Type ℓ) where
  -- A call leaves the fired events that are ready as such.
  abbrev pub KeepsFired : Loop P T F D S W → Loop P T F D S W → Type ℓ
  KeepsFired x y = (n : ℕ) → IsReady n x.rest → IsReady n y.rest

  -- A call neither moves nor shortens the array `events`.
  abbrev pub KeepsSlots : Loop P T F D S W → Loop P T F D S W → Type 0
  KeepsSlots x y =
      (y.rest.events_at ≡ x.rest.events_at)
      × (length x.rest.files.events ≤ length y.rest.files.events)

  -- What is asked of the program's procedures: in a state with `Inv` the registered slots have
  -- their procedures; a call that is made for a registered event keeps `Inv` and the fired events
  -- that are ready; and a reading procedure leaves the array `events` where it is.
  pub record IsKept : Type ℓ where
    pub procs :
        (x : Loop P T F D S W) → Inv x → (fd : ℕ) → HasProcs (event_at x.rest.files.events fd)
    pub reads :
        (x : Loop P T F D S W) (p : P) (fd : ℕ) (m : Mask)
        → (mask_and (event_at x.rest.files.events fd).mask m).readable ≡ true
        → (event_at x.rest.files.events fd).rfile_proc ≡ some p
        → Inv x
        → Inv (env.file_call p fd (event_at x.rest.files.events fd).client_data m x)
          × KeepsFired x (env.file_call p fd (event_at x.rest.files.events fd).client_data m x)
          × KeepsSlots x (env.file_call p fd (event_at x.rest.files.events fd).client_data m x)
    pub writes :
        (x : Loop P T F D S W) (p : P) (fd : ℕ) (m : Mask)
        → (mask_and (event_at x.rest.files.events fd).mask m).writable ≡ true
        → (event_at x.rest.files.events fd).wfile_proc ≡ some p
        → Inv x
        → Inv (env.file_call p fd (event_at x.rest.files.events fd).client_data m x)
          × KeepsFired x (env.file_call p fd (event_at x.rest.files.events fd).client_data m x)

  module _ (kept : IsKept) where
    -- The call ends with `Inv` and with the fired events still ready.
    abbrev Ends : Loop P T F D S W → Option (Loop P T F D S W) → Type ℓ
    Ends x o = (y : Loop P T F D S W) × (o ≡ some y) × Inv y × KeepsFired x y

    write_slot-Inv :
        (b : Bool) (f : Fired) (x : Loop P T F D S W)
        → Inv x
        → Ends x (write_slot env b f x (event_at x.rest.files.events f.fd))
    unfolding write_slot call
    write_slot-Inv b f x i =
        let fe = event_at x.rest.files.events f.fd in
        elim (Bool-cases (mask_and fe.mask f.mask).writable) [
          | inr off ↦ rw off (x, refl, i, λ n h. h)
          | inl bit ↦
              let (p, e) = (kept.procs x i f.fd).writes (ground arith) in
              elim (Bool-cases (not b || not (env.same_proc fe.wfile_proc fe.rfile_proc))) [
                | inr done ↦ rw (bit, done) (x, refl, i, λ n h. h)
                | inl twice ↦
                    let (j, fired) = kept.writes x p f.fd f.mask bit e i in
                    rw (bit, twice, e) (_, refl, j, fired)
              ]
        ]

    dispatch_write-Inv :
        (at : ℕ) (b : Bool) (f : Fired) (x : Loop P T F D S W)
        → Inv x
        → (x.rest.events_at == at) ≡ true
        → f.fd < length x.rest.files.events
        → Ends x (dispatch_write env at b f x)
    unfolding dispatch_write
    dispatch_write-Inv at b f x i here low =
        rw (here, get_elem?-inside x.rest.files.events f.fd unset low) (write_slot-Inv b f x i)

    read_slot-Inv :
        (f : Fired) (x : Loop P T F D S W)
        → Inv x
        → f.fd < length x.rest.files.events
        → Ends x (read_slot env f x (event_at x.rest.files.events f.fd))
    unfolding read_slot call
    read_slot-Inv f x i low =
        let fe = event_at x.rest.files.events f.fd in
        let at = x.rest.events_at in
        elim (Bool-cases (mask_and fe.mask f.mask).readable) [
          | inr off ↦ rw off (dispatch_write-Inv at false f x i (ground arith) low)
          | inl bit ↦
              let (p, e) = (kept.procs x i f.fd).reads (ground arith) in
              let y = env.file_call p f.fd fe.client_data f.mask x in
              let (j, fired, slots) = kept.reads x p f.fd f.mask bit e i in
              let (z, run, k, fired') =
                dispatch_write-Inv at true f y j (rw (slots.0) (ground arith))
                  (omega (arith, low, slots.1)) in
              rw (bit, e, run) (z, refl, k, λ n h. fired' n (fired n h))
        ]

    pub dispatch_all-Inv :
        (n j : ℕ) (x : Loop P T F D S W)
        → Inv x
        → IsReady (j + n) x.rest
        → (y : Loop P T F D S W) × (dispatch_all env n j x ≡ some y) × Inv y
    unfolding dispatch_all dispatch
    dispatch_all-Inv zero j x i r = (x, refl, i)
    dispatch_all-Inv (suc n) j x i (ready r) =
        let (f, found, low) = r j (omega arith) in
        let (y, run, k, fired) = read_slot-Inv f x i low in
        let next : IsReady (j + 1 + n) x.rest = ready (λ k l. r k (omega (arith, l))) in
        rw (found, get_elem?-inside x.rest.files.events f.fd unset low, run)
          (dispatch_all-Inv n (j + 1) y k (fired (j + 1 + n) next))
