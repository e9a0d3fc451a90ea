-- ===== src/KeyValue/Queue/Commands.antt =====
-- The queue of commands: CmdInsert does not move the tail.
use bo_atom.Prelude.{ℕ, ◌≡◌, refl, ◌∙◌, Option, none, some, [], ◌∷◌, ◌>>=◌}
use bo_atom.Server.Clients.Refines.{Distinct, ==_sym, ==_self}
use bo_atom.KeyValue.Queue.{Node, queued, Queue, write, cmd_insert}
use bo_atom.KeyValue.Queue.Responses.{Chain, IsQueue, write-same, write-other}

module _ {ℓ} {A : Type ℓ} where
  -- Into an empty queue CmdInsert follows no bad pointer, and the queue then stands for that command
  -- alone.
  pub cmd_insert-IsQueue :
      (q : Queue A) (p : ℕ) (n : Node A)
      → IsQueue q []
      → q.nodes p ≡ some n
      → (q' : Queue A) × (cmd_insert p q ≡ some q') × IsQueue q' ((p, n.item) ∷ [])
  unfolding cmd_insert
  cmd_insert-IsQueue q p n i live = (
    record { nodes = write q.nodes p (some (queued none n.item)); head = some p; tail = some p },
    rw (i.front, i.back, live),
    record { front = refl; back = refl; chain = (write-same q.nodes p _, tt); distinct = (tt, tt) },
  )

  -- the nodes after two insertions behind `a`
  abbrev twice : (ℕ → Option (Node A)) → ℕ × A → ℕ × A → ℕ × A → ℕ → Option (Node A)
  twice h a b c =
      write
        (write (write (write h a.0 (some (queued (some b.0) a.1))) b.0 (some (queued none b.1))) a.0
          (some (queued (some c.0) a.1)))
        c.0 (some (queued none c.1))

  -- When the queue stands for one command, inserting two more, `b` and then `c`, leaves a list of
  -- the first and `c` alone: the command `b` is not reachable any more.
  pub cmd_insert_loses_second :
      (q : Queue A) (a b c : ℕ × A) (m n : Option ℕ)
      → IsQueue q (a ∷ [])
      → q.nodes b.0 ≡ some (queued m b.1)
      → q.nodes c.0 ≡ some (queued n c.1)
      → Distinct (a ∷ b ∷ c ∷ [])
      → (q' : Queue A) × ((cmd_insert b.0 q >>= cmd_insert c.0) ≡ some q')
        × (q'.head ≡ some a.0)
        × Chain q'.nodes (a ∷ c ∷ [])
  unfolding cmd_insert
  cmd_insert_loses_second q a b c m n i live_b live_c d =
      let h = q.nodes in
      let h₁ = write h a.0 (some (queued (some b.0) a.1)) in
      let h₂ = write h₁ b.0 (some (queued none b.1)) in
      let h₃ = write h₂ a.0 (some (queued (some c.0) a.1)) in
      (
        record { nodes = twice h a b c; head = some a.0; tail = some a.0 },
        rw (
          i.front,
          i.back,
          i.chain.0,
          d.0.0,
          live_b,
          ==_sym a.0 b.0 d.0.0,
          ==_self a.0,
          d.0.1.0,
          d.1.0.0,
          live_c,
        ),
        refl,
        (
          write-other h₃ c.0 a.0 _ (==_sym a.0 c.0 d.0.1.0) ∙ write-same h₂ a.0 _,
          (write-same h₃ c.0 _, tt),
        ),
      )
