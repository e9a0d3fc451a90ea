-- ===== src/KeyValue/Receive/State.antt =====
-- The client's state on the receiving side of Z_my_work_mem/tcp_server.c, and its queue of commands.
use bo_atom.Prelude.{
  ℕ, zero, suc, Bool, false, Option, none, some, List, [], ◌∷◌, ◌==◌, if◌then◌else◌, ◌>>=◌,
}
use bo_atom.Ae.Files.{FileTable}
use bo_atom.KeyValue.Items.{Items, cmd_complete}
use bo_atom.KeyValue.Store.{Reply}

-- CLIENT_RECV_CMD_LENGTH and CMD_ARGS_MAX
abbrev pub recv_cmd_length : ℕ
recv_cmd_length = 64

abbrev pub cmd_args_max : ℕ
cmd_args_max = 512

-- The fields of a ClientStat that the receiving side uses, with the dictionary and the registrations. A
-- queue is the list of what hangs on its head; the commands stand with their addresses, and the
-- address of the last is `tail`.
pub record Session {ℓ} (P E S D : Type ℓ) : Type ℓ where
  pub fd : ℕ
  pub recv_cmd : List ℕ
  pub recv_pos : ℕ
  pub current : Option ℕ
  pub cmds : List (ℕ × Items)
  pub tail : Option ℕ
  pub responses : List Reply
  pub store : D
  pub files : FileTable P E S

-- How _check_cmd_complete2 goes on: it returns 0, it returns -1, it reads or writes outside an
-- array or through a bad pointer, it runs out of fuel, or it comes to `pre` in the bytes.
pub data Verdict {ℓ} (C : Type ℓ) : Type ℓ where
  accepted rejected : C → Verdict C
  stray endless : Verdict C
  proceed : ℕ → C → Verdict C

abbrev pub and_then {ℓ} : {C : Type ℓ} → Verdict C → (ℕ → C → Verdict C) → Verdict C
and_then v k = elim v [
  | accepted c ↦ accepted c
  | rejected c ↦ rejected c
  | stray ↦ stray
  | endless ↦ endless
  | proceed pre c ↦ k pre c
]

abbrev pub find_cmd : ℕ → List (ℕ × Items) → Option Items
find_cmd p [] = none
find_cmd p (c ∷ cs) = if c.0 == p then some c.1 else find_cmd p cs

abbrev pub change_cmd : ℕ → Items → List (ℕ × Items) → List (ℕ × Items)
change_cmd p c [] = []
change_cmd p c (d ∷ ds) = if d.0 == p then (p, c) ∷ ds else d ∷ change_cmd p c ds

abbrev pub is_tail : ℕ → Option ℕ → Bool
is_tail p none = false
is_tail p (some q) = q == p

-- the tail after the deletions at the end of ALL_cmd
abbrev pub tail_after : List (ℕ × Items) → Option ℕ → Option ℕ
tail_after [] tail = tail
tail_after (c ∷ cs) tail =
    let rest = tail_after cs (if is_tail c.0 tail then none else tail) in
    if cmd_complete c.1 then rest else tail

-- CmdInsert behind the command at `tail`, which stays the tail
abbrev pub insert_behind : ℕ → ℕ × Items → List (ℕ × Items) → Option (List (ℕ × Items))
insert_behind tail new [] = none
insert_behind tail new (c ∷ cs) =
    let rest = insert_behind tail new cs in
    if c.0 == tail then some (c ∷ new ∷ []) else (rest >>= λ ds. some (c ∷ ds))

-- the Cmd that malloc and memset make, for `num` items; its arrays are zero behind the lists' ends
abbrev pub new_cmd : ℕ → Items
new_cmd num = record { args_num = num; value = []; item_length = []; item_pos = []; cur_item = 0 }

-- `a[i] = v;` for an array that is zero behind the list's end
abbrev pub put_at {ℓ} : {A : Type ℓ} → A → List A → ℕ → A → List A
put_at zero_value [] zero v = v ∷ []
put_at zero_value [] (suc i) v = zero_value ∷ put_at zero_value [] i v
put_at zero_value (x ∷ xs) zero v = v ∷ xs
put_at zero_value (x ∷ xs) (suc i) v = x ∷ put_at zero_value xs i v
