-- ===== src/Ae/Timers/Lost.antt =====
-- A finalizer that creates a timer, in processTimeEvents. `prev` stays NULL while the events at the
-- front are deleted ones, so the next unlinking takes a new head away too.
use bo_atom.Prelude.{
  ℕ, suc, ◌≡◌, refl, Option, none, some, List, ◌∷◌, ◌∙◌, length, arith, drop-append_suc, [],
}
use bo_atom.Ae.Timers.{Stamp, TimeEvent, Timers, Clock, process_loop, node, unlink, finalize}
use bo_atom.Ae.Timers.Place.{node-append, unlink-append}

module _ {ℓ} {T F D : Type ℓ} where
  unlink-two :
      (e d : TimeEvent T F D) (l : List (TimeEvent T F D)) → unlink none (length l) (e ∷ d ∷ l) ≡ l
  unfolding unlink
  unlink-two e d l = drop-append_suc _ (e ∷ []) d l (omega arith)

  node-second :
      (e d : TimeEvent T F D) (l : List (TimeEvent T F D))
      → node (e ∷ d ∷ l) (suc (length l)) ≡ some d
  node-second e d l = node-append (e ∷ []) d l

  -- a deleted event
  abbrev pub dead : Stamp → T → Option F → D → TimeEvent T F D
  dead s t f d = record { id = none; when = s; time_proc = t; finalizer_proc = f; client_data = d }

module _ {ℓ} {T F D W : Type ℓ} (clock : Clock T F D W) where
  loop-dead :
      (bound n k : ℕ) (s : Stamp) (t : T) (o : Option F) (a : D) (ts : Timers T F D) (w : W)
      → node ts.head (suc k) ≡ some (dead s t o a)
      → process_loop clock bound (suc k) none n ts w
        ≡ process_loop clock bound k none n
            (finalize clock (dead s t o a) (record ts { head = unlink none k ts.head }) w).0
            (finalize clock (dead s t o a) (record ts { head = unlink none k ts.head }) w).1
  unfolding process_loop
  loop-dead bound n k s t o a ts w h = rw (h, process_loop)

  finalize-first :
      (s : Stamp) (t : T) (f : F) (a : D) (l : List (TimeEvent T F D)) (ts : Timers T F D) (w : W)
      → finalize clock
          (dead s t (some f) a)
          (record ts { head = unlink none (length l) (dead s t (some f) a ∷ l) })
          w
        ≡ clock.finalizer_call f a (record ts { head = l }) w
  unfolding finalize
  finalize-first s t f a l ts w = rw (unlink-append [] (dead s t (some f) a) l none refl)

  finalize-second :
      (s : Stamp) (t : T) (a : D) (e : TimeEvent T F D) (l : List (TimeEvent T F D))
      (ts : Timers T F D) (w : W)
      → finalize clock
          (dead s t none a)
          (record ts { head = unlink none (length l) (e ∷ dead s t none a ∷ l) })
          w
        ≡ (record ts { head = l }, w)
  unfolding finalize
  finalize-second s t a e l ts w = rw (unlink-two e (dead s t none a) l)

  -- Let the two events at the front be deleted ones, and let the finalizer of the first put a new
  -- event `e` in front. When the loop has passed the second deleted event, `e` is gone from the list:
  -- the loop goes on as if the list were `rest`.
  pub finalizer_loses_timer :
      (bound n : ℕ) (s₁ s₂ : Stamp) (t₁ t₂ : T) (f : F) (a₁ a₂ : D) (e : TimeEvent T F D)
      (rest : List (TimeEvent T F D)) (ts us : Timers T F D) (w w' : W)
      → clock.finalizer_call f a₁ (record ts { head = dead s₂ t₂ none a₂ ∷ rest }) w
        ≡ (record us { head = e ∷ dead s₂ t₂ none a₂ ∷ rest }, w')
      → process_loop clock bound
          (suc (suc (length rest)))
          none
          n
          (record ts { head = dead s₁ t₁ (some f) a₁ ∷ dead s₂ t₂ none a₂ ∷ rest })
          w
        ≡ process_loop clock bound (length rest) none n (record us { head = rest }) w'
  finalizer_loses_timer bound n s₁ s₂ t₁ t₂ f a₁ a₂ e rest ts us w w' creates =
      let d₁ = dead s₁ t₁ (some f) a₁ in
      let d₂ = dead s₂ t₂ none a₂ in
      loop-dead bound n (suc (length rest)) s₁ t₁ (some f) a₁ (record ts { head = d₁ ∷ d₂ ∷ rest })
        w (node-append [] d₁ (d₂ ∷ rest))
      ∙ rw (finalize-first s₁ t₁ f a₁ (d₂ ∷ rest) ts w, creates)
          (loop-dead bound n (length rest) s₂ t₂ none a₂ (record us { head = e ∷ d₂ ∷ rest }) w'
              (node-second e d₂ rest)
            ∙ rw (finalize-second s₂ t₂ a₂ e rest us w'))
