-- ===== src/KeyValue/Queue.antt =====
-- The queues of a client in Z_my_work_mem/tcp_server.h: ResponseInsert, ResponseDeleteHead,
-- ResponseCount, and their counterparts for commands.
pub mod Commands
pub mod Responses
use bo_atom.Prelude.{
  ℕ, zero, suc, Bool, true, false, ◌&&◌, Option, none, some, ◌==◌, if◌then◌else◌, ◌>>=◌,
}

-- Response and Cmd: the link, and the other fields
pub record Node {ℓ} (A : Type ℓ) : Type ℓ where
  pub next : Option ℕ
  pub item : A

abbrev pub queued {ℓ} : {A : Type ℓ} → Option ℕ → A → Node A
queued n a = record { next = n; item = a }

-- The allocated nodes by address, and the two ends of a queue. NULL is none.
pub record Queue {ℓ} (A : Type ℓ) : Type ℓ where
  pub nodes : ℕ → Option (Node A)
  pub head : Option ℕ
  pub tail : Option ℕ

abbrev pub is_null : Option ℕ → Bool
is_null none = true
is_null (some p) = false

-- `a == b` for addresses
abbrev pub same_address : Option ℕ → Option ℕ → Bool
same_address none none = true
same_address (some a) (some b) = a == b
same_address _ _ = false

module _ {ℓ} {A : Type ℓ} where
  abbrev pub write : (ℕ → Option (Node A)) → ℕ → Option (Node A) → ℕ → Option (Node A)
  write h p v i = if p == i then v else h i

  -- `p->next = v`; none for an address that is NULL or not allocated
  abbrev pub link : Option ℕ → Option ℕ → Queue A → Option (Queue A)
  link p v q = p >>= λ a.
      q.nodes a >>= λ n. some (record q { nodes = write q.nodes a (some (queued v n.item)) })

  -- `head == NULL && tail == NULL`
  abbrev pub is_empty : Queue A → Bool
  is_empty q = is_null q.head && is_null q.tail

  -- ResponseInsert, of a response that is not NULL
  unfoldable pub response_insert : ℕ → Queue A → Option (Queue A)
  response_insert res q =
      if is_empty q
      then link (some res) none (record q { head = some res; tail = some res })
      else (link q.tail (some res) q >>= link (some res) none >>= λ q'.
          some (record q' { tail = some res }))

  -- CmdInsert
  unfoldable pub cmd_insert : ℕ → Queue A → Option (Queue A)
  cmd_insert cmd q =
      if is_empty q
      then link (some cmd) none (record q { head = some cmd; tail = some cmd })
      else (link q.tail (some cmd) q >>= link (some cmd) none)

  -- ResponseDeleteHead and CmdDeleteHead
  unfoldable pub delete_head : Queue A → Option (Queue A)
  delete_head q = elim q.head [
    | none ↦ some q
    | some h ↦
        (q.nodes h >>= λ n. some (record {
          nodes = write q.nodes h none;
          head = n.next;
          tail = if same_address q.head q.tail then none else q.tail;
        }))
  ]

  -- the loop of ResponseCount and CmdCount, on fuel; none for a bad pointer, or without fuel left
  unfoldable pub count_from : ℕ → (ℕ → Option (Node A)) → Option ℕ → Option ℕ
  count_from fuel h none = some 0
  count_from zero h (some p) = none
  count_from (suc fuel) h (some p) = h p >>= λ n. count_from fuel h n.next >>= λ k. some (suc k)

  unfoldable pub response_count : ℕ → Queue A → Option ℕ
  unfolding count_from
  response_count fuel q = count_from fuel q.nodes q.head
