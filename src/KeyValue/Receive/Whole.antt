-- ===== src/KeyValue/Receive/Whole.antt =====
-- _check_cmd_complete2 on bytes that hold whole commands.
use bo_atom.Prelude.{
  ℕ, suc, ◌+◌, ◌-◌, ◌≤◌, ◌<◌, ◌≡◌, refl, ap, ◌∙◌, true, false, none, some, List, [], ◌∷◌, ◌++◌,
  ◌==◌, leb, ltb, if◌then◌else◌, arith, length, take, drop, set, get_or, take-append,
}
use mathlib.Core.List.{append_assoc}
use bo_atom.Ae.Mask.{ae_writable}
use bo_atom.Ae.Files.{Api, create_file_event}
use bo_atom.KeyValue.Items.{Items, cmd_complete}
use bo_atom.KeyValue.Store.{Bytes, Dict, run_all, all_cmd, drop_complete}
use bo_atom.KeyValue.Receive.{
  run_commands, insert_cmd, begin_cmd, start, header, header_line, finish,
}
use bo_atom.KeyValue.Receive.State.{Session, accepted, proceed}
use bo_atom.KeyValue.Receive.Lines.{line_end, ends_at, star_from, digits, atoi, plus, int_max}
use bo_atom.KeyValue.Receive.Strings.{
  AllDigits, line_end-star, atoi-digits, star_from-here, drop-drop, get_or-drop,
}
use bo_atom.KeyValue.Receive.Rows.{Arg, AllArgs, args_bytes, values_of, command, holding}

-- A command: the digits of the number of its items, and the items.
pub record Request : Type 0 where
  pub count : List ℕ
  pub args : List Arg

-- "*count\r\n" and the items
abbrev pub request_bytes : Request → Bytes
request_bytes r = 42 ∷ r.count ++ (13 ∷ 10 ∷ args_bytes r.args)

pub record IsRequest (r : Request) : Type 0 where
  pub some_digit : 0 < length r.count
  pub all_digits : AllDigits r.count
  pub value : digits 0 r.count ≡ length r.args
  pub some_arg : 0 < length r.args
  pub all_args : AllArgs r.args

abbrev pub AllRequests : List Request → Type 0
AllRequests [] = Unit
AllRequests (r ∷ rs) = IsRequest r × AllRequests rs

abbrev pub requests_bytes : List Request → Bytes
requests_bytes [] = []
requests_bytes (r ∷ rs) = request_bytes r ++ requests_bytes rs

-- the command as it stands in the queue, complete
abbrev pub command_of : Request → Items
command_of r = command (length r.args) (values_of r.args)

abbrev pub commands_of : List Request → List (ℕ × Items)
commands_of [] = []
commands_of (r ∷ rs) = (0, command_of r) ∷ commands_of rs

pub length-values_of : (args : List Arg) → length (values_of args) ≡ length args
length-values_of [] = refl
length-values_of (a ∷ args) = ap suc (length-values_of args)

pub command_of_complete : (r : Request) → 0 < length r.args → cmd_complete (command_of r) ≡ true
unfolding cmd_complete
command_of_complete r some_arg =
    let no : (length r.args == 0) ≡ false = ground arith in rw no (ground arith)

module _ {ℓ} {P E S D : Type ℓ} where
  -- The session in which no command is being received or waits.
  abbrev pub idle : Session P E S D → Session P E S D
  idle s = record s { current = none; cmds = []; tail = none }

module _ {ℓ} {P E S D : Type ℓ} (api : Api S) (send_proc : P) (client : E) where
  -- what `if (ResponseCount(_stat) > 0) …` does
  unfoldable pub polled : Session P E S D → Session P E S D
  polled s = record s {
    files =
        if ltb 0 (length s.responses)
        then (create_file_event api s.files s.fd ae_writable send_proc client).0
        else s.files;
  }

  module _ (dict : Dict D) (stale : Items → Bytes) where
    unfoldable pub served : Items → Session P E S D → Session P E S D
    unfolding polled
    served c s =
        let (d, rs) = run_all dict stale none ((0, c) ∷ []) s.store s.responses in
        polled (record s { store = d; responses = rs })

    module _ (malloc : List (ℕ × Items) → ℕ) where
      begin_cmd-idle :
          (n : ℕ) (s : Session P E S D)
          → begin_cmd api send_proc client dict stale malloc n (idle s)
            ≡ some (holding (malloc []) (command n []) (polled s))
      unfolding begin_cmd run_commands insert_cmd all_cmd run_all drop_complete polled
      begin_cmd-idle n s = refl

      pub finish-holding :
          (total pre p : ℕ) (c : Items) (s : Session P E S D)
          → cmd_complete c ≡ true
          → finish api send_proc client dict stale total pre (holding p c s) ≡ (
              if leb total pre
              then accepted (record (idle (served c s)) { recv_pos = 0 })
              else proceed pre (idle (served c s)))
      unfolding finish run_commands all_cmd run_all drop_complete polled served
      finish-holding total pre p c s complete =
          let self : (p == p) ≡ true = ground arith in rw (complete, self) refl

      pub start-idle :
          (total pre : ℕ) (r : Request) (rest : Bytes) (s : Session P E S D)
          → IsRequest r
          → drop pre s.recv_cmd ≡ request_bytes r ++ rest
          → pre < total
          → length r.args ≤ int_max
          → start api send_proc client dict stale malloc total pre (idle s)
            ≡ proceed (pre + 1 + length r.count + 2) (
                holding
                  (malloc [])
                  (command (length r.args) [])
                  (polled (record s { recv_cmd = set s.recv_cmd (pre + 1 + length r.count) 0 })))
      unfolding start header header_line
      start-idle total pre r rest s v here before small =
          let open_line : drop pre s.recv_cmd
              ≡ 42 ∷ r.count ++ 13 ∷ 10 ∷ (args_bytes r.args ++ rest) =
            here ∙ append_assoc (42 ∷ r.count) (13 ∷ 10 ∷ args_bytes r.args) rest in
          let sep : Bytes = 13 ∷ 10 ∷ (args_bytes r.args ++ rest) in
          let next : drop (pre + 1) s.recv_cmd ≡ r.count ++ sep =
            drop-drop pre 1 s.recv_cmd ∙ ap (λ l. drop 1 l) open_line in
          let before_end : leb total pre ≡ false = ground arith in
          let star : star_from (total - pre) pre (drop pre s.recv_cmd) ≡ some pre =
            let n : total - pre ≡ suc (total - pre - 1) = omega arith in
            ap (λ k. star_from k pre (drop pre s.recv_cmd)) n
            ∙ ap (star_from (suc (total - pre - 1)) pre) open_line
            ∙ star_from-here (total - pre - 1) pre (r.count ++ sep) in
          let byte : get_or s.recv_cmd pre 0 ≡ 42 =
            get_or-drop pre s.recv_cmd (r.count ++ sep) 42 0 open_line in
          let end : line_end pre (drop pre s.recv_cmd) ≡ ends_at (pre + 1 + length r.count) =
            ap (line_end pre) open_line
            ∙ line_end-star pre r.count (args_bytes r.args ++ rest) v.all_digits in
          let line : take (pre + 1 + length r.count - (pre + 1)) (drop (pre + 1) s.recv_cmd)
              ≡ r.count =
            ap (λ l. take (pre + 1 + length r.count - (pre + 1)) l) next
            ∙ take-append (pre + 1 + length r.count - (pre + 1)) r.count sep (omega arith) in
          let number : atoi r.count ≡ some (plus (length r.args)) =
            atoi-digits r.count v.some_digit v.all_digits (omega (arith, v.value))
            ∙ ap (λ k. some (plus k)) v.value in
          let nonzero : (length r.args == 0) ≡ false = ground (arith, v.some_arg) in
          let begun =
            begin_cmd-idle (length r.args)
              (record s { recv_cmd = set s.recv_cmd (pre + 1 + length r.count) 0 }) in
          rw (before_end, star, end, byte, line, number, nonzero, begun, start, header, header_line)
            refl
