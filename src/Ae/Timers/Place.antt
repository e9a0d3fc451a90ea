-- ===== src/Ae/Timers/Place.antt =====
-- Nodes of the list of timers, found by the number of nodes from them to its end.
use bo_atom.Prelude.{
  ℕ, suc, ◌+◌, ◌-◌, ◌<◌, ◌≡◌, Option, none, some, List, [], ◌∷◌, ◌++◌, arith, length, take-append,
  drop-append, drop-append_suc, length-append,
}
use bo_atom.Ae.Timers.{TimeEvent, node, unlink, update_node, one_less}

module _ {ℓ} {T F D : Type ℓ} where
  -- `prev` of the code, when the nodes `front` have been kept so far and `k` are left
  abbrev pub IsPrev : Option ℕ → List (TimeEvent T F D) → ℕ → Type 0
  IsPrev none front k = length front ≡ 0
  IsPrev (some p) front k = (p ≡ suc k) × (0 < length front)

  pub IsPrev-one_less :
      (prev : Option ℕ) (front : List (TimeEvent T F D)) (k : ℕ)
      → IsPrev prev front (suc k)
      → IsPrev (one_less prev) front k
  IsPrev-one_less none front k h = h
  IsPrev-one_less (some p) front k h = omega arith

  module _ (front : List (TimeEvent T F D)) (te : TimeEvent T F D)
      (rest : List (TimeEvent T F D)) where
    ahead : length (front ++ te ∷ rest) - suc (length rest) ≡ length front
    ahead = omega (arith, length-append front (te ∷ rest))

    pub node-append : node (front ++ te ∷ rest) (suc (length rest)) ≡ some te
    unfolding node
    node-append = rw (drop-append _ front (te ∷ rest) ahead, node)

    pub update_node-append :
        (f : TimeEvent T F D → TimeEvent T F D)
        → update_node f (front ++ te ∷ rest) (suc (length rest)) ≡ front ++ f te ∷ rest
    unfolding update_node
    update_node-append f =
        rw (take-append _ front (te ∷ rest) ahead, drop-append _ front (te ∷ rest) ahead)

  pub unlink-append :
      (front : List (TimeEvent T F D)) (te : TimeEvent T F D) (rest : List (TimeEvent T F D))
      (prev : Option ℕ)
      → IsPrev prev front (suc (length rest))
      → unlink prev (length rest) (front ++ te ∷ rest) ≡ front ++ rest
  unfolding unlink
  unlink-append [] te rest none h = drop-append_suc _ [] te rest (omega arith)
  unlink-append (x ∷ xs) te rest none h = absurd (omega arith)
  unlink-append front te rest (some p) h = rw (
    take-append (length (front ++ te ∷ rest) - p + 1) front (te ∷ rest)
        (omega (arith, length-append front (te ∷ rest))),
    drop-append_suc (length (front ++ te ∷ rest) - length rest) front te rest
        (omega (arith, length-append front (te ∷ rest))),
  )
