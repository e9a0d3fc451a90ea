-- ===== src/Ae/Timers/Walk.antt =====
-- The loop of processTimeEvents, which unlinks in place, against the recursion `pass`.
use bo_atom.Prelude.{
  ℕ, suc, ◌+◌, ◌<◌, ◌≡◌, refl, true, false, Option, none, some, List, [], ◌∷◌, ◌++◌, arith, leb,
  length, All, Bool-cases, inl, inr, append_snoc, length-append, ap,
}
use bo_atom.Ae.Timers.{
  Stamp, TimeEvent, Timers, Clock, is_due, process_loop, unlink, one_less, finalize, fire,
  reschedule,
}
use bo_atom.Ae.Timers.Place.{
  IsPrev, IsPrev-one_less, node-append, update_node-append, unlink-append,
}
use bo_atom.Ae.Timers.Quiet.{IsQuiet, after_call, visit, pass}

add_none : (n m : ℕ) → n + (0 + m) ≡ n + m
add_none n m = omega arith

add_one : (n m : ℕ) → n + (1 + m) ≡ n + 1 + m
add_one n m = omega arith

abbrev pub Below : ℕ → Option ℕ → Type 0
Below bound none = Unit {0}
Below bound (some i) = i < bound

module _ {ℓ} {T F D W : Type ℓ} (clock : Clock T F D W) (run : T → ℕ → D → W → W × Option ℕ)
    (finish : F → D → W → W) (quiet : IsQuiet clock run finish) (bound : ℕ)
    (ts : Timers T F D) where
  abbrev pub with_head : List (TimeEvent T F D) → Timers T F D
  with_head l = record ts { head = l }

  abbrev pub Walks : List (TimeEvent T F D) → Type ℓ
  Walks rest =
      (front : List (TimeEvent T F D)) (prev : Option ℕ) (n : ℕ) (w : W)
      → IsPrev prev front (length rest)
      → process_loop clock bound (length rest) prev n (with_head (front ++ rest)) w ≡ (
        with_head (front ++ (pass clock run finish rest w).0),
        (pass clock run finish rest w).1,
        n + (pass clock run finish rest w).2,
      )

  finalize-quiet :
      (te : TimeEvent T F D) (o : Option F) (us : Timers T F D) (w : W)
      → te.finalizer_proc ≡ o
      → finalize clock te us w ≡ (us, elim o [ none ↦ w | some f ↦ finish f te.client_data w ])
  unfolding finalize
  finalize-quiet te none us w e = rw e
  finalize-quiet te (some f) us w e = rw e (quiet.finals f te.client_data us w)

  -- The walk goes on behind an event that stays.
  keep :
      (rest : List (TimeEvent T F D))
      → Walks rest
      → (te : TimeEvent T F D) (front : List (TimeEvent T F D)) (n : ℕ) (w : W)
      → process_loop clock bound
          (length rest)
          (some (suc (length rest)))
          n
          (with_head (front ++ te ∷ rest))
          w
        ≡ (
          with_head (front ++ te ∷ (pass clock run finish rest w).0),
          (pass clock run finish rest w).1,
          n + (pass clock run finish rest w).2,
        )
  keep rest ih te front n w =
      rw (append_snoc front rest te, append_snoc front (pass clock run finish rest w).0 te) at
        (ih (front ++ te ∷ []) (some (suc (length rest))) n w
          (refl, omega (arith, length-append front (te ∷ []))))

  module _ (when : Stamp) (proc : T) (fin : Option F) (arg : D) (rest : List (TimeEvent T F D))
      (ih : Walks rest) where
    abbrev at_id : Option ℕ → TimeEvent T F D
    at_id o = record {
      id = o;
      when = when;
      time_proc = proc;
      finalizer_proc = fin;
      client_data = arg;
    }

    finalize-unlinked :
        (front : List (TimeEvent T F D)) (prev : Option ℕ) (w : W)
        → IsPrev prev front (suc (length rest))
        → finalize clock
            (at_id none)
            (with_head (unlink prev (length rest) (front ++ at_id none ∷ rest)))
            w
          ≡ (with_head (front ++ rest), elim fin [ none ↦ w | some f ↦ finish f arg w ])
    finalize-unlinked front prev w h =
        rw (unlink-append front (at_id none) rest prev h)
          (finalize-quiet (at_id none) fin (with_head (front ++ rest)) w refl)

    step-deleted : Walks (at_id none ∷ rest)
    unfolding process_loop pass visit
    step-deleted front prev n w h =
        rw
          (
            node-append front (at_id none) rest,
            process_loop,
            finalize-unlinked front prev w h,
            add_none n,
          )
          (ih front (one_less prev) n _ (IsPrev-one_less prev front (length rest) h))

    fire-late :
        (i : ℕ) (us : Timers T F D) (w : W)
        → is_due (clock.get_time w).0 when ≡ false
        → fire clock (suc (length rest)) i (at_id (some i)) us w
          ≡ ((us, (clock.get_time w).1), false)
    unfolding fire
    fire-late i us w late = rw late

    reschedule-after :
        (i : ℕ) (front : List (TimeEvent T F D)) (r : W × Option ℕ)
        → reschedule clock r.1 (suc (length rest)) (with_head (front ++ at_id (some i) ∷ rest)) r.0
          ≡ (
            with_head (front ++ (after_call clock run finish (at_id (some i)) r).0 ∷ rest),
            (after_call clock run finish (at_id (some i)) r).1,
          )
    unfolding reschedule after_call
    reschedule-after i front (w, none) = rw (update_node-append front (at_id (some i)) rest)
    reschedule-after i front (w, some ms) = rw (update_node-append front (at_id (some i)) rest)

    fire-due :
        (i : ℕ) (front : List (TimeEvent T F D)) (w : W)
        → is_due (clock.get_time w).0 when ≡ true
        → fire clock
            (suc (length rest))
            i
            (at_id (some i))
            (with_head (front ++ at_id (some i) ∷ rest))
            w
          ≡ (
            (
              with_head (
                  front
                  ++ (after_call clock run finish
                      (at_id (some i))
                      (run proc i arg (clock.get_time w).1)).0
                    ∷ rest),
              (after_call clock run finish
                  (at_id (some i))
                  (run proc i arg (clock.get_time w).1)).1,
            ),
            true,
          )
    unfolding fire
    fire-due i front w due =
        rw
          (
            due,
            quiet.calls proc i arg (with_head (front ++ at_id (some i) ∷ rest))
                (clock.get_time w).1,
          )
          (ap (λ (r : Timers T F D × W). (r, true))
            (reschedule-after i front (run proc i arg (clock.get_time w).1)))

    step-live : (i : ℕ) → i < bound → Walks (at_id (some i) ∷ rest)
    unfolding process_loop pass visit
    step-live i below front prev n w h =
        let high : leb bound i ≡ false = ground arith in
        elim (Bool-cases (is_due (clock.get_time w).0 when)) [
          | inr late ↦
              rw
                (
                  node-append front (at_id (some i)) rest,
                  process_loop,
                  high,
                  fire-late i (with_head (front ++ at_id (some i) ∷ rest)) w late,
                  late,
                  add_none n,
                )
                (keep rest ih (at_id (some i)) front n (clock.get_time w).1)
          | inl due ↦
              rw
                (
                  node-append front (at_id (some i)) rest,
                  process_loop,
                  high,
                  fire-due i front w due,
                  due,
                  add_one n,
                )
                (keep rest ih _ front (n + 1) _)
        ]

  step :
      (te : TimeEvent T F D) (rest : List (TimeEvent T F D)) (o : Option ℕ)
      → Below bound o
      → Walks rest
      → Walks (record te { id = o } ∷ rest)
  step te rest none b ih =
      step-deleted te.when te.time_proc te.finalizer_proc te.client_data rest ih
  step te rest (some i) b ih =
      step-live te.when te.time_proc te.finalizer_proc te.client_data rest ih i b

  pub walk : (l : List (TimeEvent T F D)) → All (λ te. Below bound te.id) l → Walks l
  unfolding process_loop pass
  walk [] below front prev n w h = ap (λ m. (with_head (front ++ []), w, m)) (omega arith)
  walk (te ∷ rest) below front prev n w h =
      step te rest te.id below.0 (walk rest below.1) front prev n w h
