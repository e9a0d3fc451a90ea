-- ===== src/Ae/Files/Procs.antt =====
-- Registered slots have their procedures, whatever is registered, dropped or resized.
use bo_atom.Prelude.{
  ℕ, zero, suc, ◌≡◌, true, some, List, [], ◌∷◌, ◌++◌, ◌==◌, leb, set, take, replicate, inl, inr,
  Bool-cases, Option-cases, arith, get_or-replicate,
}
use bo_atom.Ae.Mask.{Mask, is_set}
use bo_atom.Ae.Files.{
  FileEvent, FileTable, Api, unset, event_at, with_bits, without_bits, clear_from, resized,
  register, unregister, create_file_event, delete_file_event, resize_set_size, above,
}

-- A slot that is registered for an event has the procedure for it.
pub record HasProcs {ℓ} {P D : Type ℓ} (fe : FileEvent P D) : Type ℓ where
  pub reads : fe.mask.readable ≡ true → (p : P) × (fe.rfile_proc ≡ some p)
  pub writes : fe.mask.writable ≡ true → (p : P) × (fe.wfile_proc ≡ some p)

abbrev pub AllHaveProcs {ℓ} : {P D : Type ℓ} → List (FileEvent P D) → Type ℓ
AllHaveProcs es = (i : ℕ) → HasProcs (event_at es i)

module _ {ℓ} {P D : Type ℓ} where
  pub unset-HasProcs : HasProcs {P = P} {D = D} unset
  unset-HasProcs = record { reads = λ h. cc; writes = λ h. cc }

  with_bits-HasProcs :
      (fe : FileEvent P D) (m : Mask) (proc : P) (arg : D)
      → HasProcs fe
      → HasProcs (with_bits fe m proc arg)
  with_bits-HasProcs fe m proc arg h = record {
    reads = λ r. elim (Bool-cases m.readable) [
      | inl new ↦ (proc, rw new)
      | inr old ↦ rw old (h.reads (ground arith))
    ];
    writes = λ w. elim (Bool-cases m.writable) [
      | inl new ↦ (proc, rw new)
      | inr old ↦ rw old (h.writes (ground arith))
    ];
  }

  without_bits-HasProcs :
      (fe : FileEvent P D) (m : Mask) → HasProcs fe → HasProcs (without_bits fe m)
  without_bits-HasProcs fe m h = record {
    reads = λ r. h.reads (ground arith);
    writes = λ w. h.writes (ground arith);
  }

  set-AllHaveProcs :
      (es : List (FileEvent P D)) (fd : ℕ) (e : FileEvent P D)
      → AllHaveProcs es
      → HasProcs e
      → AllHaveProcs (set es fd e)
  set-AllHaveProcs [] fd e h k i = h i
  set-AllHaveProcs (x ∷ es) zero e h k zero = k
  set-AllHaveProcs (x ∷ es) zero e h k (suc i) = h (suc i)
  set-AllHaveProcs (x ∷ es) (suc fd) e h k zero = h zero
  set-AllHaveProcs (x ∷ es) (suc fd) e h k (suc i) = set-AllHaveProcs es fd e (λ j. h (suc j)) k i

  realloc-AllHaveProcs :
      (n k : ℕ) (es : List (FileEvent P D))
      → AllHaveProcs es
      → AllHaveProcs (take n es ++ replicate k unset)
  realloc-AllHaveProcs zero k es h i = rw get_or-replicate unset-HasProcs
  realloc-AllHaveProcs (suc n) k [] h i = rw get_or-replicate unset-HasProcs
  realloc-AllHaveProcs (suc n) k (x ∷ es) h zero = h zero
  realloc-AllHaveProcs (suc n) k (x ∷ es) h (suc i) = realloc-AllHaveProcs n k es (λ j. h (suc j)) i

  clear_from-AllHaveProcs :
      (k : ℕ) (es : List (FileEvent P D)) → AllHaveProcs es → AllHaveProcs (clear_from k es)
  unfolding clear_from
  clear_from-AllHaveProcs k [] h i = h i
  clear_from-AllHaveProcs zero (e ∷ es) h zero = record { reads = λ h. cc; writes = λ h. cc }
  clear_from-AllHaveProcs zero (e ∷ es) h (suc i) =
      clear_from-AllHaveProcs zero es (λ j. h (suc j)) i
  clear_from-AllHaveProcs (suc k) (e ∷ es) h zero = h zero
  clear_from-AllHaveProcs (suc k) (e ∷ es) h (suc i) =
      clear_from-AllHaveProcs k es (λ j. h (suc j)) i

module _ {ℓ} {P D S : Type ℓ} (api : Api S) (t : FileTable P D S) (h : AllHaveProcs t.events) where
  pub create-AllHaveProcs :
      (fd : ℕ) (m : Mask) (proc : P) (arg : D)
      → AllHaveProcs (create_file_event api t fd m proc arg).0.events
  unfolding create_file_event register
  create-AllHaveProcs fd m proc arg = elim (Bool-cases (leb t.setsize fd)) [
    | inl high ↦ rw high h
    | inr low ↦
        rw low (elim (Option-cases (api.add_event t.apidata (event_at t.events fd).mask fd m)) [
          | inl fails ↦ rw fails h
          | inr (s, added) ↦ rw added (
              set-AllHaveProcs t.events fd _ h
                (with_bits-HasProcs (event_at t.events fd) m proc arg (h fd)))
        ])
  ]

  pub delete-AllHaveProcs : (fd : ℕ) (m : Mask) → AllHaveProcs (delete_file_event api t fd m).events
  unfolding delete_file_event unregister
  delete-AllHaveProcs fd m = elim (Bool-cases (leb t.setsize fd)) [
    | inl high ↦ rw high h
    | inr low ↦ rw low (elim (Bool-cases (is_set (event_at t.events fd).mask)) [
      | inr empty ↦ rw empty h
      | inl used ↦
          rw used (
            set-AllHaveProcs t.events fd _ h
              (without_bits-HasProcs (event_at t.events fd) m (h fd)))
    ])
  ]

  pub resize-AllHaveProcs : (n : ℕ) → AllHaveProcs (resize_set_size api t n).0.events
  unfolding resize_set_size resized
  resize-AllHaveProcs n = elim (Bool-cases (n == t.setsize)) [
    | inl same ↦ rw same h
    | inr other ↦ rw other (elim (Bool-cases (above n t.maxfd)) [
      | inr low ↦ rw low h
      | inl fits ↦ rw fits (elim (Option-cases (api.resize t.apidata n)) [
        | inl fails ↦ rw fails h
        | inr (s, grown) ↦
            rw grown (clear_from-AllHaveProcs _ _ (realloc-AllHaveProcs n _ t.events h))
      ])
    ])
  ]
