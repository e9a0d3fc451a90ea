-- ===== src/Tests/Signals.antt =====
-- Signals of ae/ae.c: two of them in the pipe.
use bo_atom.Prelude.{
  ℕ, ◌≡◌, refl, List, [], ◌∷◌, ◌++◌, Option, none, some, arith, replicate, set, length,
}
use bo_atom.Ae.Signals.{
  Sigevents, ae_signum, no_proc, signal_proc, raise_all, reads_of, run_handlers, blocked, returned,
  interrupted, signals_are_delivered,
}

-- a program that keeps its log of calls; signal 10 has a procedure, signal 12 has none
abbrev slots : List ℕ → Sigevents ℕ ℕ
slots log = set (replicate ae_signum no_proc) 10 (record { sig_proc = some 1; client_data = none })

abbrev record_call : ℕ → ℕ → Option ℕ → List ℕ → List ℕ
record_call p sig arg log = sig ∷ log

slots-length : (log : List ℕ) → length (slots log) ≡ ae_signum
slots-length log = refl

-- signal 64 is beyond the array
abbrev raised : List ℕ
raised = 12 ∷ 10 ∷ 64 ∷ []

signals_are_delivered_example :
    (signal_proc slots record_call
        (reads_of slots record_call (raise_all slots record_call [] raised))
        []
      ≡ blocked (run_handlers slots record_call raised []))
    × (signal_proc slots record_call
          (reads_of slots record_call (raise_all slots record_call [] raised) ++ interrupted ∷ [])
          []
        ≡ returned (run_handlers slots record_call raised []))
signals_are_delivered_example =
    signals_are_delivered slots record_call slots-length raised [] []
      (omega arith, (omega arith, (omega arith, tt)))
