-- ===== src/NetTool/Connect.antt =====
-- nonblockconnect gives its descriptor to the caller or closes it.
use bo_atom.Prelude.{
  ℕ, ◌≡◌, refl, Bool, true, false, Option, none, some, List, [], ◌∷◌, ◌++◌, Bool-cases, ap, ==_iff,
  inl, inr, ◌==◌, ◌≢◌,
}
use mathlib.Core.Path.{subst}
use mathlib.Core.Option.{some-injective, none-ne-some}
use mathlib.Core.Bool.{false≢true}
use bo_atom.NetTool.{
  Wait, ready, timed_out, wait_interrupted, wait_failed, eventable, nonblockconnect,
}

-- the descriptors that the caller is handed, of a result
abbrev pub returned : Option ℕ → List ℕ
returned none = []
returned (some fd) = fd ∷ []

-- The first answer that is not an interruption says that the descriptor is ready.
abbrev pub BecomesReady : List Wait → Type 0
BecomesReady [] = ⊥
BecomesReady (ready ∷ ws) = Unit {0}
BecomesReady (wait_interrupted ∷ ws) = BecomesReady ws
BecomesReady (_ ∷ ws) = ⊥

eventable-BecomesReady : (ws : List Wait) → eventable ws ≡ some true → BecomesReady ws
unfolding eventable
eventable-BecomesReady [] e = absurd (none-ne-some _ e)
eventable-BecomesReady (ready ∷ ws) e = tt
eventable-BecomesReady (timed_out ∷ ws) e = absurd (false≢true (some-injective _ _ e))
eventable-BecomesReady (wait_interrupted ∷ ws) e = eventable-BecomesReady ws e
eventable-BecomesReady (wait_failed ∷ ws) e = absurd (false≢true (some-injective _ _ e))

-- What is claimed of a result, and of no result nothing.
Owned : ℕ → List Wait → Option ℕ → Option (Option ℕ × List ℕ) → Type 0
Owned fd ws err none = Unit {0}
Owned fd ws err (some (out, closed)) =
    (returned out ++ closed ≡ fd ∷ []) × (out ≢ none → BecomesReady ws × (err ≡ some 0))

after-Owned :
    (fd : ℕ) (ws : List Wait) (err : Option ℕ) (b : Option Bool)
    → eventable ws ≡ b
    → Owned fd ws err (nonblockconnect (some fd) ws err)
unfolding Owned nonblockconnect
after-Owned fd ws err none e = rw (Owned, nonblockconnect, e) tt
after-Owned fd ws err (some false) e = rw (Owned, nonblockconnect, e) (refl, λ n. absurd (n refl))
after-Owned fd ws none (some true) e = rw (Owned, nonblockconnect, e) (refl, λ n. absurd (n refl))
after-Owned fd ws (some err) (some true) e = elim (Bool-cases (err == 0)) [
  | inl z ↦
      rw (Owned, nonblockconnect, e, z)
        (refl, λ n. (eventable-BecomesReady ws e, ap some ((==_iff err 0).0 z)))
  | inr z ↦ rw (Owned, nonblockconnect, e, z) (refl, λ n. absurd (n refl))
]

-- When nonblockconnect returns, the descriptor that it opened is in exactly one place: either it is
-- the result, and then the socket became ready and its pending error was read as 0, or it was
-- closed, once, and the result is -1.
pub nonblockconnect-owned :
    (fd : ℕ) (ws : List Wait) (err : Option ℕ) (out : Option ℕ) (closed : List ℕ)
    → nonblockconnect (some fd) ws err ≡ some (out, closed)
    → (returned out ++ closed ≡ fd ∷ []) × (out ≢ none → BecomesReady ws × (err ≡ some 0))
unfolding Owned
nonblockconnect-owned fd ws err out closed e =
    subst (Owned fd ws err) e (after-Owned fd ws err (eventable ws) refl)
