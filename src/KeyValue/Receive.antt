-- ===== src/KeyValue/Receive.antt =====
-- _check_cmd_complete2 of Z_my_work_mem/tcp_server.c, which takes the commands out of the bytes received.
pub mod Lines
pub mod State
pub mod Strings
pub mod Rows
pub mod Whole
pub mod Pipelined
pub mod Handler
pub mod Serving
pub mod Pieces
pub mod Fuel
pub mod Stale
use bo_atom.Prelude.{
  ℕ, zero, suc, ◌+◌, ◌-◌, Bool, true, false, ◌&&◌, not, Option, none, some, List, [], ◌∷◌, ◌++◌,
  ◌==◌, leb, ltb, if◌then◌else◌, length, take, drop, set, get_or, ◌>>=◌,
}
use bo_atom.Ae.Mask.{ae_writable}
use bo_atom.Ae.Files.{Api, FileTable, create_file_event}
use bo_atom.KeyValue.Items.{Items, cmd_complete}
use bo_atom.KeyValue.Store.{Dict, Bytes, all_cmd}
use bo_atom.KeyValue.Receive.Lines.{
  Line, missing, unterminated, ends_at, line_end, star_from, Number, plus, minus, atoi, item_size,
}
use bo_atom.KeyValue.Receive.State.{
  recv_cmd_length, cmd_args_max, Session, Verdict, and_then, find_cmd, change_cmd, is_tail,
  tail_after, insert_behind, new_cmd, put_at, accepted, rejected, stray, endless, proceed,
}

module _ {ℓ} {P E S D : Type ℓ} where
  -- CmdInsert; none where the tail is not in the queue
  unfoldable pub insert_cmd : ℕ × Items → Session P E S D → Option (Session P E S D)
  insert_cmd c s = elim s.tail [
    | none ↦ elim s.cmds [ [] ↦ some (record s { cmds = c ∷ []; tail = some c.0 }) | d ∷ ds ↦ none ]
    | some t ↦ insert_behind t c s.cmds >>= λ cs. some (record s { cmds = cs })
  ]

  -- `if (_stat->recv_cmd != pre) { memmove(_stat->recv_cmd, pre, …); _stat->recv_pos = …; }`
  abbrev pub keep_rest : ℕ → ℕ → Session P E S D → Session P E S D
  keep_rest total pre s = if pre == 0 then s else record s {
    recv_cmd = take (total - pre) (drop pre s.recv_cmd) ++ drop (total - pre) s.recv_cmd;
    recv_pos = total - pre;
  }

  -- the part that follows the size of an item
  unfoldable pub store_item : ℕ → ℕ → ℕ → ℕ → Items → Session P E S D → Verdict (Session P E S D)
  store_item total pre num p c s =
      if leb cmd_args_max c.cur_item
      then stray
      else if ltb total (pre + num)
      then accepted (record s {
        cmds =
            change_cmd p
              (record c {
                value = put_at [] c.value c.cur_item (take (total - pre) (drop pre s.recv_cmd));
                item_length = put_at 0 c.item_length c.cur_item num;
                item_pos = put_at 0 c.item_pos c.cur_item (total - pre);
              })
              s.cmds;
        recv_pos = 0;
      })
      else proceed (pre + num) (record s {
        cmds =
            change_cmd p
              (record c {
                value = put_at [] c.value c.cur_item (take num (drop pre s.recv_cmd));
                item_length = put_at 0 c.item_length c.cur_item num;
                item_pos = put_at 0 c.item_pos c.cur_item num;
                cur_item = c.cur_item + 1;
              })
              s.cmds;
      })

  -- one pass of the loop over the items
  unfoldable pub one_item : ℕ → ℕ → ℕ → Items → Session P E S D → Verdict (Session P E S D)
  unfolding store_item
  one_item total pre p c s =
      if leb total pre
      then accepted (record s { recv_pos = 0 })
      else if not (get_or s.recv_cmd pre 0 == 36)
      then rejected s
      else (elim (line_end pre (drop pre s.recv_cmd)) [
        | unterminated ↦ stray
        | missing ↦ accepted (keep_rest total pre s)
        | ends_at end ↦ elim (item_size (take (end - (pre + 1)) (drop (pre + 1) s.recv_cmd))) [
          | none ↦ stray
          | some num ↦ if leb num 5 then rejected s else store_item total pre num p c s
        ]
      ])

  -- the command that is being received, and its address
  abbrev pub current_cmd : Session P E S D → Option (ℕ × Items)
  current_cmd s = s.current >>= λ p. find_cmd p s.cmds >>= λ c. some (p, c)

  -- the loop over the items, on fuel
  unfoldable pub item_loop : ℕ → ℕ → ℕ → Session P E S D → Verdict (Session P E S D)
  unfolding one_item
  item_loop zero total pre s = endless
  item_loop (suc fuel) total pre s = elim (current_cmd s) [
    | none ↦ stray
    | some (p, c) ↦ elim (leb c.args_num c.cur_item) [
      | true ↦ proceed pre s
      | false ↦ and_then (one_item total pre p c s) (λ pre' s'. item_loop fuel total pre' s')
    ]
  ]

module _ {ℓ} {P E S D : Type ℓ} (api : Api S) (send_proc : P) (client : E) (dict : Dict D)
    (stale : Items → Bytes) where
  -- `ALL_cmd(_stat); if (ResponseCount(_stat) > 0) aeCreateFileEvent(…, AE_WRITABLE, …);`
  unfoldable pub run_commands : Session P E S D → Session P E S D
  run_commands s =
      let (cs, d, rs) = all_cmd dict stale s.current s.cmds s.store s.responses in
      record s {
        cmds = cs;
        tail = tail_after s.cmds s.tail;
        responses = rs;
        store = d;
        files =
            if ltb 0 (length rs)
            then (create_file_event api s.files s.fd ae_writable send_proc client).0
            else s.files;
      }

  -- `cmd(_stat)->cur_item >= args_num`, which holds behind that loop
  unfoldable pub finish : ℕ → ℕ → Session P E S D → Verdict (Session P E S D)
  unfolding run_commands
  finish total pre s =
      let s' = run_commands (record s { current = none }) in
      if leb total pre then accepted (record s' { recv_pos = 0 }) else proceed pre s'

  module _ (malloc : List (ℕ × Items) → ℕ) where
    -- a new command of `num` items, up to CmdInsert
    unfoldable pub begin_cmd : ℕ → Session P E S D → Option (Session P E S D)
    unfolding run_commands insert_cmd
    begin_cmd num s =
        let p = malloc s.cmds in
        insert_cmd (p, new_cmd num) (run_commands (record s { current = some p }))

    -- the part behind the search for the line's end at `end`
    unfoldable pub header_line : ℕ → ℕ → Session P E S D → Verdict (Session P E S D)
    unfolding begin_cmd
    header_line pre end s =
        if not (get_or s.recv_cmd pre 0 == 42)
        then rejected s
        else (elim (atoi (take (end - (pre + 1)) (drop (pre + 1) s.recv_cmd))) [
          | none ↦ stray
          | some (minus n) ↦
              if n == 0 then rejected (record s { recv_cmd = set s.recv_cmd end 0 }) else stray
          | some (plus n) ↦
              if n == 0
              then rejected (record s { recv_cmd = set s.recv_cmd end 0 })
              else (elim (begin_cmd n (record s { recv_cmd = set s.recv_cmd end 0 })) [
                | none ↦ stray
                | some s' ↦ proceed (end + 2) s'
              ])
        ])

    -- `if (!cmd(_stat) || …)`: the line "*num"
    unfoldable pub header : ℕ → ℕ → Session P E S D → Verdict (Session P E S D)
    unfolding header_line
    header total pre s =
        elim (if leb total pre
          then some pre
          else star_from (total - pre) pre (drop pre s.recv_cmd)) [
            | none ↦ accepted (record s { recv_pos = 0 })
            | some star ↦ elim (line_end star (drop star s.recv_cmd)) [
              | unterminated ↦ stray
              | missing ↦ accepted (keep_rest total star s)
              | ends_at end ↦ header_line star end s
            ]
          ]

    -- `if (!cmd(_stat) || cmd(_stat)->cur_item >= cmd(_stat)->args_num)`
    unfoldable pub start : ℕ → ℕ → Session P E S D → Verdict (Session P E S D)
    unfolding header
    start total pre s = elim s.current [
      | none ↦ header total pre s
      | some p ↦ elim (find_cmd p s.cmds) [
        | none ↦ stray
        | some c ↦ if leb c.args_num c.cur_item then header total pre s else proceed pre s
      ]
    ]

    -- the outer loop, on fuel, which the loop over the items has as well
    unfoldable pub check_loop : ℕ → ℕ → ℕ → Session P E S D → Verdict (Session P E S D)
    unfolding start item_loop finish
    check_loop zero total pre s = endless
    check_loop (suc fuel) total pre s = and_then (start total pre s) (λ pre₁ s₁.
        and_then (item_loop (suc fuel) total pre₁ s₁)
          (λ pre₂ s₂. and_then (finish total pre₂ s₂) (λ pre₃ s₃. check_loop fuel total pre₃ s₃)))

    -- _check_cmd_complete2
    unfoldable pub check_cmd_complete : ℕ → Session P E S D → Verdict (Session P E S D)
    unfolding check_loop
    check_cmd_complete total s = check_loop (recv_cmd_length + 2) total 0 s
