-- ===== src/KeyValue/Receive/Handler.antt =====
-- recv_cmd_handle of Z_my_work_mem/tcp_server.c, with _free_client_cur_cmd, clientDelete and
-- _clientFreebuf.
use bo_atom.Prelude.{
  ℕ, ◌+◌, ◌-◌, Bool, true, false, ◌&&◌, ◌||◌, not, Option, none, some, List, [], ◌∷◌, ◌++◌, ◌==◌,
  leb, ltb, if◌then◌else◌, length, take, drop, ◌>>=◌,
}
use bo_atom.Ae.Mask.{both}
use bo_atom.Ae.Files.{Api, delete_file_event}
use bo_atom.KeyValue.Items.{Items, value_at, length_at, pos_at}
use bo_atom.KeyValue.Store.{Dict}
use bo_atom.KeyValue.Receive.{current_cmd, run_commands, check_cmd_complete}
use bo_atom.KeyValue.Receive.State.{
  Session, Verdict, accepted, rejected, stray, endless, proceed, recv_cmd_length, cmd_args_max,
  is_tail, put_at, change_cmd,
}
use bo_atom.Server.Clients.{Clients, client_delete}

-- How `read` returns: with bytes, with EAGAIN or EWOULDBLOCK, or with the end or another error.
pub data Answer : Type 0 where
  took : List ℕ → Answer
  would_block failed : Answer

-- The client's session, with the list at ClientQueue and the descriptors closed.
pub record World {ℓ} (P E S D A : Type ℓ) : Type ℓ where
  pub session : Session P E S D
  pub clients : Clients A
  pub closed : List ℕ

-- How the handler leaves: it waits for more, it has deleted the client, the answers given are used up,
-- or it has reached outside an array or through a bad pointer.
pub data Left {ℓ} (W : Type ℓ) : Type ℓ where
  waiting deleted reading : W → Left W
  strayed : Left W

-- whether the loop over `value` leaves the array at one of the commands
abbrev pub any_too_long : List (ℕ × Items) → Bool
any_too_long [] = false
any_too_long (c ∷ cs) = ltb cmd_args_max c.1.args_num || any_too_long cs

module _ {ℓ} {P E S D : Type ℓ} where
  -- CmdDeleteHead
  abbrev pub delete_head_cmd : Session P E S D → Session P E S D
  delete_head_cmd s = elim s.cmds [
    | [] ↦ s
    | c ∷ cs ↦ record s { cmds = cs; tail = if is_tail c.0 s.tail then none else s.tail }
  ]

  -- _free_client_cur_cmd. Its loop reads as many pointers as the command has items.
  unfoldable pub free_client_cur_cmd : Session P E S D → Option (Session P E S D)
  free_client_cur_cmd s = elim s.current [
    | none ↦ some s
    | some p ↦ current_cmd s >>= λ c.
        if ltb cmd_args_max c.1.args_num
        then none
        else some (record (delete_head_cmd s) { current = none; recv_pos = 0 })
  ]

  -- `if (cmd(client) != NULL && …)`: the item whose rest is read next, if any
  unfoldable pub open_item : Session P E S D → Option (Option (ℕ × Items))
  open_item s = elim s.current [
    | none ↦ some none
    | some p ↦ current_cmd s >>= λ c.
        if leb cmd_args_max c.1.cur_item
        then none
        else if not (length_at c.1 c.1.cur_item == 0)
            && ltb (pos_at c.1 c.1.cur_item) (length_at c.1 c.1.cur_item)
        then some (some c)
        else some none
  ]

  -- what follows _check_cmd_complete2
  unfoldable pub after_check : Verdict (Session P E S D) → Option (Session P E S D)
  unfolding free_client_cur_cmd
  after_check v = elim v [
    | accepted t ↦ some t
    | rejected t ↦ free_client_cur_cmd t
    | stray ↦ none
    | endless ↦ none
    | proceed pre t ↦ none
  ]

module _ {ℓ} {P E S D : Type ℓ} (api : Api S) (send_proc : P) (client : E) (dict : Dict D)
    (stale : Items → List ℕ) where
  -- what follows the reading of an item's bytes
  unfoldable pub took_item : ℕ → Items → List ℕ → Session P E S D → Session P E S D
  took_item p c bytes s =
      let pos = pos_at c c.cur_item + length bytes in
      let whole = leb (length_at c c.cur_item) pos in
      let c' = record c {
        value = put_at [] c.value c.cur_item (value_at c c.cur_item ++ bytes);
        item_pos = put_at 0 c.item_pos c.cur_item pos;
        cur_item = if whole then c.cur_item + 1 else c.cur_item;
      } in
      let s' = record s {
        cmds = change_cmd p c' s.cmds;
        recv_pos = if whole then 0 else s.recv_pos;
      } in
      if leb c'.args_num c'.cur_item
      then run_commands api send_proc client dict stale (record s' { current = none })
      else s'

  module _ (malloc : List (ℕ × Items) → ℕ) where
    -- what follows the reading of a line
    unfoldable pub took_line : List ℕ → Session P E S D → Option (Session P E S D)
    took_line bytes s =
        let total = s.recv_pos + length bytes in
        let s' = record s {
          recv_cmd = take s.recv_pos s.recv_cmd ++ bytes ++ drop total s.recv_cmd;
          recv_pos = total;
        } in
        after_check (check_cmd_complete api send_proc client dict stale malloc total s')

module _ {ℓ} {P E S D A : Type ℓ} (api : Api S) (address : ℕ) where
  -- clientDelete of the client at `address`; _clientFreebuf empties both queues
  unfoldable pub client_delete_session : World P E S D A → Left (World P E S D A)
  client_delete_session w =
      let s = w.session in
      elim (client_delete address w.clients) [
        | none ↦ strayed
        | some cs ↦
            if any_too_long s.cmds
            then strayed
            else deleted (record {
              session = record s {
                cmds = [];
                tail = none;
                responses = [];
                files = delete_file_event api s.files s.fd both;
              };
              clients = cs;
              closed = w.closed ++ s.fd ∷ [];
            })
      ]

  module _ (send_proc : P) (client : E) (dict : Dict D) (stale : Items → List ℕ)
      (malloc : List (ℕ × Items) → ℕ) where
    -- The loop on the answers of `read`, which gives no more bytes than it is asked for; asked for none,
    -- it returns 0.
    unfoldable pub recv_cmd_handle : List Answer → World P E S D A → Left (World P E S D A)
    recv_cmd_handle [] w = reading w
    recv_cmd_handle (answer ∷ rest) w =
        let s = w.session in
        elim (open_item s) [
          | none ↦ strayed
          | some (some (p, c)) ↦ elim answer [
            | would_block ↦ waiting w
            | failed ↦ client_delete_session w
            | took [] ↦ client_delete_session w
            | took (b ∷ bs) ↦ recv_cmd_handle rest (record w {
              session =
                  took_item api send_proc client dict stale p c
                    (take (length_at c c.cur_item - pos_at c c.cur_item) (b ∷ bs)) s;
            })
          ]
          | some none ↦ elim (leb recv_cmd_length s.recv_pos) [
            | true ↦ client_delete_session w
            | false ↦ elim answer [
              | would_block ↦ waiting w
              | failed ↦ client_delete_session w
              | took [] ↦ client_delete_session w
              | took (b ∷ bs) ↦
                  elim (took_line api send_proc client dict stale malloc
                    (take (recv_cmd_length - s.recv_pos) (b ∷ bs)) s) [
                      | none ↦ strayed
                      | some s' ↦ recv_cmd_handle rest (record w { session = s' })
                    ]
            ]
          ]
        ]
