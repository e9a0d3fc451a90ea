-- ===== src/Ae/Signals.antt =====
-- The signal events that this repository adds to ae/ae.c: _aeSignalPreProc writes the number of a
-- signal into the loop's pipe, and _aeSignalProc reads the pipe and calls the procedures.
use bo_atom.Prelude.{
  ℕ, ◌%◌, ◌^◌, ◌<◌, ◌≡◌, refl, Bool, true, ◌&&◌, ◌||◌, Option, none, some, List, [], ◌∷◌, ◌++◌, leb,
  ltb, ◌==◌, Bool-cases, inl, inr, false, if◌then◌else◌, get_or, set, length, All, arith, ap, ◌∙◌,
}
use mathlib.Core.Path.{sym}
use mathlib.Core.List.{append-nil}
use bo_atom.Ae.Files.{Status, ae_ok, ae_err}

-- AE_SIGNUM
abbrev pub ae_signum : ℕ
ae_signum = 64

-- aeSignalEvent
pub record SigEvent {ℓ} (P D : Type ℓ) : Type ℓ where
  pub sig_proc : Option P
  pub client_data : Option D

-- The array `sigevents`, of AE_SIGNUM slots
abbrev pub Sigevents {ℓ} : Type ℓ → Type ℓ → Type ℓ
Sigevents P D = List (SigEvent P D)

module _ {ℓ} {P D : Type ℓ} where
  abbrev pub no_proc : SigEvent P D
  no_proc = record { sig_proc = none; client_data = none }

  -- aeCreateSignalEvent; `handled` is whether `sigaction` succeeds
  unfoldable pub create_signal_event : Sigevents P D → ℕ → P → D → Bool → Sigevents P D × Status
  create_signal_event es sig proc arg handled =
      if leb sig 0 || leb ae_signum sig then (es, ae_err) else (
        set es sig (record { sig_proc = some proc; client_data = some arg }),
        if handled then ae_ok else ae_err,
      )

  -- aeDeleteSignalEvent; none for a write outside the array
  unfoldable pub delete_signal_event : Sigevents P D → ℕ → Bool → Option (Sigevents P D × Status)
  delete_signal_event es sig restored =
      if leb (length es) sig
      then none
      else some (set es sig no_proc, if restored then ae_ok else ae_err)

-- The byte that is written for a signal: `char _sig = sig`.
abbrev pub as_byte : ℕ → ℕ
as_byte sig = sig % 2 ^ 8

-- `signum > 0` for the byte read into a `char`, which is signed
abbrev pub is_positive : ℕ → Bool
is_positive byte = ltb 0 byte && ltb byte 128

-- _aeSignalPreProc, on the bytes in the pipe; `active` is whether a loop is set
unfoldable pub signal_pre_proc : Bool → List ℕ → ℕ → List ℕ
signal_pre_proc active pipe sig = if active then pipe ++ as_byte sig ∷ [] else pipe

-- What a `read` of one byte from the pipe brings: the byte, or -1 since a signal interrupted the
-- wait, which it does as `sigaction` is called without SA_RESTART.
pub data PipeRead : Type 0 where
  byte : ℕ → PipeRead
  interrupted : PipeRead

-- How a call of _aeSignalProc ends: it returns; it waits in `read`, since the pipe is empty and
-- blocking; or it reads outside the array `sigevents`.
pub data Delivery {ℓ} (X : Type ℓ) : Type ℓ where
  returned : X → Delivery X
  blocked : X → Delivery X
  strayed : Delivery X

module _ {ℓ} {P D X : Type ℓ} (sigevents : X → Sigevents P D)
    (sig_call : P → ℕ → Option D → X → X) where
  -- the body of the loop of _aeSignalProc; none for a read outside the array
  signal_one : ℕ → X → Option X
  signal_one signum x =
      let slot = get_or (sigevents x) signum no_proc in
      if is_positive signum && ltb signum ae_signum
      then (if leb (length (sigevents x)) signum
          then none
          else some
              (elim slot.sig_proc [ none ↦ x | some p ↦ sig_call p signum slot.client_data x ]))
      else some x

  -- _aeSignalProc, on what its reads bring before the pipe is empty and stays so
  unfoldable pub signal_proc : List PipeRead → X → Delivery X
  unfolding signal_one
  signal_proc [] x = blocked x
  signal_proc (interrupted ∷ rs) x = returned x
  signal_proc (byte b ∷ rs) x = elim (signal_one b x) [
    | none ↦ strayed
    | some x' ↦ signal_proc rs x'
  ]

  -- the procedure stored for a signal from 1 to 63 runs, if there is one
  abbrev pub run_handler : ℕ → X → X
  run_handler sig x =
      let slot = get_or (sigevents x) sig no_proc in
      if sig == 0 || leb ae_signum sig
      then x
      else elim slot.sig_proc [ none ↦ x | some p ↦ sig_call p sig slot.client_data x ]

  -- Each signal of the list runs its own procedure, in the order of the list.
  abbrev pub run_handlers : List ℕ → X → X
  run_handlers [] x = x
  run_handlers (sig ∷ sigs) x = run_handlers sigs (run_handler sig x)

  -- the pipe after the signals of the list
  unfoldable pub raise_all : List ℕ → List ℕ → List ℕ
  raise_all pipe [] = pipe
  raise_all pipe (sig ∷ sigs) = raise_all (signal_pre_proc true pipe sig) sigs

  -- the reads that bring the bytes of the pipe
  abbrev pub reads_of : List ℕ → List PipeRead
  reads_of [] = []
  reads_of (b ∷ bs) = byte b ∷ reads_of bs

  reads_of-snoc :
      (bs : List ℕ) (b : ℕ) (rs : List PipeRead)
      → reads_of (bs ++ b ∷ []) ++ rs ≡ reads_of bs ++ byte b ∷ rs
  reads_of-snoc [] b rs = refl
  reads_of-snoc (c ∷ bs) b rs = ap (λ l. byte c ∷ l) (reads_of-snoc bs b rs)

  module _ (slots : (x : X) → length (sigevents x) ≡ ae_signum) where
    signal_one-run_handler :
        (sig : ℕ) (x : X) → sig < 2 ^ 8 → signal_one sig x ≡ some (run_handler sig x)
    unfolding signal_one
    signal_one-run_handler sig x h = elim (Bool-cases (sig == 0 || leb ae_signum sig)) [
      | inl out ↦
          let skipped : (is_positive sig && ltb sig ae_signum) ≡ false = ground (arith, out) in
          rw (skipped, out) refl
      | inr within ↦
          let taken : (is_positive sig && ltb sig ae_signum) ≡ true = ground (arith, within) in
          let inside : leb (length (sigevents x)) sig ≡ false = ground (arith, within, slots x) in
          rw (taken, within, inside) refl
    ]

    signal_one-as_byte :
        (sig : ℕ) (x : X) → sig < 2 ^ 8 → signal_one (as_byte sig) x ≡ some (run_handler sig x)
    signal_one-as_byte sig x h =
        let same : as_byte sig ≡ sig = omega (arith, h) in
        ap (λ b. signal_one b x) same ∙ signal_one-run_handler sig x h

    raise_all-run_handlers :
        (sigs pipe : List ℕ) (x y : X)
        → All (λ sig. sig < 2 ^ 8) sigs
        → ((rs : List PipeRead) → signal_proc (reads_of pipe ++ rs) x ≡ signal_proc rs y)
        → (rs : List PipeRead)
        → signal_proc (reads_of (raise_all pipe sigs) ++ rs) x
          ≡ signal_proc rs (run_handlers sigs y)
    unfolding raise_all signal_pre_proc signal_proc
    raise_all-run_handlers [] pipe x y h run rs = run rs
    raise_all-run_handlers (sig ∷ sigs) pipe x y h run rs =
        raise_all-run_handlers sigs (pipe ++ as_byte sig ∷ []) x (run_handler sig y) h.1
          (λ rs.
            ap (λ l. signal_proc l x) (reads_of-snoc pipe (as_byte sig) rs)
            ∙ run (byte (as_byte sig) ∷ rs)
            ∙ one_more rs)
          rs
      where
        one_more :
            (rs : List PipeRead)
            → signal_proc (byte (as_byte sig) ∷ rs) y ≡ signal_proc rs (run_handler sig y)
        one_more rs = rw (signal_one-as_byte sig y h.0, signal_proc) refl

    -- Let the array `sigevents` always have its AE_SIGNUM slots, and let signals with numbers below 256
    -- be raised one after another and fit the pipe. Then _aeSignalProc reads inside the array only,
    -- and runs, for each of the signals from 1 to 63, the procedure stored for it at that moment, if
    -- there is one, in the order in which they were raised, and for the others nothing. It does not
    -- return then, but waits in `read` on the empty pipe, and it returns when a signal interrupts the
    -- wait.
    pub signals_are_delivered :
        (sigs : List ℕ) (rs : List PipeRead) (x : X)
        → All (λ sig. sig < 2 ^ 8) sigs
        → (signal_proc (reads_of (raise_all [] sigs)) x ≡ blocked (run_handlers sigs x))
          × (signal_proc (reads_of (raise_all [] sigs) ++ interrupted ∷ rs) x
              ≡ returned (run_handlers sigs x))
    unfolding signal_proc
    signals_are_delivered sigs rs x h =
        let run = raise_all-run_handlers sigs [] x x h (λ rs. refl) in
        (
          ap (λ l. signal_proc l x) (sym (append-nil (reads_of (raise_all [] sigs)))) ∙ run [],
          run (interrupted ∷ rs),
        )
