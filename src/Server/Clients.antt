-- ===== src/Server/Clients.antt =====
-- The list of clients of the servers, doubly linked from ClientQueue: clientAdd and the unlinking of
-- clientDelete, which Z_my_work_atom/tcp_server.c and Z_my_work_mem/tcp_server.c both have.
pub mod Delete
pub mod Refines
use bo_atom.Prelude.{◌>>=◌, ℕ, Bool, true, false, Option, none, some, ◌==◌, if◌then◌else◌}

-- ClientStat: the links, and the other fields
pub record Client {ℓ} (B : Type ℓ) : Type ℓ where
  pub next : Option ℕ
  pub pre : Option ℕ
  pub stat : B

abbrev pub client {ℓ} : {B : Type ℓ} → Option ℕ → Option ℕ → B → Client B
client n p b = record { next = n; pre = p; stat = b }

-- The allocated clients by address, and ClientQueue. NULL is none.
pub record Clients {ℓ} (B : Type ℓ) : Type ℓ where
  pub nodes : ℕ → Option (Client B)
  pub queue : Option ℕ

-- `tmp == ClientQueue`
abbrev pub is_head : ℕ → Option ℕ → Bool
is_head p none = false
is_head p (some q) = p == q

module _ {ℓ} {B : Type ℓ} where
  abbrev pub put : (ℕ → Option (Client B)) → ℕ → Option (Client B) → ℕ → Option (Client B)
  put h p v i = if p == i then v else h i

  -- An assignment to fields of the client at `p`; none for an address that is not allocated.
  abbrev pub assign : (Client B → Client B) → ℕ → Clients B → Option (Clients B)
  assign f p c = c.nodes p >>= λ n. some (record c { nodes = put c.nodes p (some (f n)) })

  abbrev pub set_next : Option ℕ → ℕ → Clients B → Option (Clients B)
  set_next v = assign λ n. record n { next = v }

  abbrev pub set_pre : Option ℕ → ℕ → Clients B → Option (Clients B)
  set_pre v = assign λ n. record n { pre = v }

  -- `if (o) o->pre = v;`
  abbrev pub set_pre_of : Option ℕ → Option ℕ → Clients B → Option (Clients B)
  set_pre_of none v c = some c
  set_pre_of (some q) v c = set_pre v q c

  -- clientAdd
  unfoldable pub client_add : ℕ → Clients B → Option (Clients B)
  client_add tmp c =
      set_next c.queue tmp c
      >>= (λ c₁. set_pre_of c₁.queue (some tmp) c₁)
      >>= (λ c₂. set_pre none tmp (record c₂ { queue = some tmp }))

  -- `tmp->pre->next = tmp->next; if (tmp->next) tmp->next->pre = tmp->pre;`
  abbrev pub bypass : ℕ → Client B → Clients B → Option (Clients B)
  bypass tmp n c =
      n.pre
      >>= (λ q. set_next n.next q c)
      >>= (λ c₁. c₁.nodes tmp >>= λ n₁. set_pre_of n₁.next n₁.pre c₁)

  -- clientDelete, as far as it changes the list and frees the client
  unfoldable pub client_delete : ℕ → Clients B → Option (Clients B)
  client_delete tmp c =
      c.nodes tmp
      >>= (λ n.
          if is_head tmp c.queue
          then set_pre_of n.next none (record c { queue = n.next })
          else bypass tmp n c)
      >>= (λ c'. some (record c' { nodes = put c'.nodes tmp none }))
