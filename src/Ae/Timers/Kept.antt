-- ===== src/Ae/Timers/Kept.antt =====
-- processTimeEvents keeps whatever its procedures and the clock keep of the rest of the program.
use bo_atom.Prelude.{
  ℕ, zero, suc, ◌≡◌, refl, Option, none, some, leb, inl, inr, Bool-cases, Option-cases,
}
use bo_atom.Ae.Timers.{
  TimeEvent, Timers, Clock, process_loop, process_time_events, fire, finalize, reschedule, node,
  is_due, one_less,
}

module _ {ℓ} {T F D W : Type ℓ} (clock : Clock T F D W) (Inv : W → Type ℓ) where
  pub record IsKept : Type ℓ where
    pub reads : (w : W) → Inv w → Inv (clock.get_time w).1
    pub walls : (w : W) → Inv w → Inv (clock.wall_time w).1
    pub calls :
        (t : T) (i : ℕ) (d : D) (ts : Timers T F D) (w : W)
        → Inv w
        → Inv (clock.time_call t i d ts w).1
    pub finals :
        (f : F) (d : D) (ts : Timers T F D) (w : W) → Inv w → Inv (clock.finalizer_call f d ts w).1

  module _ (kept : IsKept) where
    reschedule-Inv :
        (r : Option ℕ) (k : ℕ) (ts : Timers T F D) (w : W)
        → Inv w
        → Inv (reschedule clock r k ts w).1
    unfolding reschedule
    reschedule-Inv none k ts w i = i
    reschedule-Inv (some ms) k ts w i = kept.reads w i

    fire-Inv :
        (k i : ℕ) (te : TimeEvent T F D) (ts : Timers T F D) (w : W)
        → Inv w
        → Inv (fire clock k i te ts w).0.1
    unfolding fire
    fire-Inv k i te ts w h = elim (Bool-cases (is_due (clock.get_time w).0 te.when)) [
      | inl due ↦
          rw due (
            reschedule-Inv _ k _ _ (kept.calls te.time_proc i te.client_data ts _ (kept.reads w h)))
      | inr late ↦ rw late (kept.reads w h)
    ]

    finalize-Inv :
        (o : Option F) (te : TimeEvent T F D) (ts : Timers T F D) (w : W)
        → te.finalizer_proc ≡ o
        → Inv w
        → Inv (finalize clock te ts w).1
    unfolding finalize
    finalize-Inv none te ts w e i = rw e i
    finalize-Inv (some f) te ts w e i = rw e (kept.finals f te.client_data ts w i)

    process_loop-Inv :
        (bound k : ℕ) (prev : Option ℕ) (n : ℕ) (ts : Timers T F D) (w : W)
        → Inv w
        → Inv (process_loop clock bound k prev n ts w).1
    unfolding process_loop
    process_loop-Inv bound zero prev n ts w i = i
    process_loop-Inv bound (suc k) prev n ts w i = elim (Option-cases (node ts.head (suc k))) [
      | inl gone ↦ rw (gone, process_loop) i
      | inr (te, found) ↦
          rw (found, process_loop)
            (elim (Option-cases te.id) [
              | inl dead ↦ rw dead (
                  process_loop-Inv bound k (one_less prev) n _ _
                    (finalize-Inv te.finalizer_proc te _ w refl i))
              | inr (j, live) ↦ rw live (elim (Bool-cases (leb bound j)) [
                | inl fresh ↦ rw fresh (process_loop-Inv bound k prev n ts w i)
                | inr old ↦
                    rw old
                      (process_loop-Inv bound k (some (suc k)) _ _ _ (fire-Inv (suc k) j te ts w i))
              ])
            ])
    ]

    pub process-Inv : (ts : Timers T F D) (w : W) → Inv w → Inv (process_time_events clock ts w).1
    unfolding process_time_events
    process-Inv ts w i = process_loop-Inv _ _ none 0 _ _ (kept.walls w i)
