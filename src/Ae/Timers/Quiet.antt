-- ===== src/Ae/Timers/Quiet.antt =====
-- What processTimeEvents does for procedures that leave the timers alone: one recursion down the list.
use bo_atom.Prelude.{ℕ, ◌+◌, ◌≡◌, Option, none, some, List, [], ◌∷◌, ◌++◌, if◌then◌else◌}
use bo_atom.Ae.Timers.{TimeEvent, Timers, Clock, add_milliseconds, is_due, deleted}

module _ {ℓ} {T F D W : Type ℓ} (clock : Clock T F D W) where
  -- The procedures leave the timers as they are: `run` and `finish` are what they do to the rest.
  pub record IsQuiet (run : T → ℕ → D → W → W × Option ℕ) (finish : F → D → W → W) : Type ℓ where
    pub calls :
        (t : T) (i : ℕ) (d : D) (ts : Timers T F D) (w : W)
        → clock.time_call t i d ts w ≡ (ts, (run t i d w).0, (run t i d w).1)
    pub finals :
        (f : F) (d : D) (ts : Timers T F D) (w : W)
        → clock.finalizer_call f d ts w ≡ (ts, finish f d w)

  module _ (run : T → ℕ → D → W → W × Option ℕ) (finish : F → D → W → W) where
    -- the event after its procedure returned
    unfoldable pub after_call : TimeEvent T F D → W × Option ℕ → TimeEvent T F D × W
    after_call te (w, none) = (deleted te, w)
    after_call te (w, some ms) =
        let (now, w') = clock.get_time w in (record te { when = add_milliseconds ms now }, w')

    unfoldable pub visit : TimeEvent T F D → Option ℕ → W → List (TimeEvent T F D) × W × ℕ
    unfolding after_call
    visit te none w =
        ([], elim te.finalizer_proc [ none ↦ w | some f ↦ finish f te.client_data w ], 0)
    visit te (some i) w =
        let (now, w₁) = clock.get_time w in
        if is_due now te.when
        then (let (te', w₂) = after_call te (run te.time_proc i te.client_data w₁) in
            (te' ∷ [], w₂, 1))
        else (te ∷ [], w₁, 0)

    -- Deleted events are finalized and dropped; those whose time has come are called, in the order
    -- of the list, and get their new time or are marked deleted.
    unfoldable pub pass : List (TimeEvent T F D) → W → List (TimeEvent T F D) × W × ℕ
    unfolding visit
    pass [] w = ([], w, 0)
    pass (te ∷ rest) w =
        let (kept, w₁, n) = visit te te.id w in
        let (tail, w₂, m) = pass rest w₁ in (kept ++ tail, w₂, n + m)
