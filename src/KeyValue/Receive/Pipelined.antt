-- ===== src/KeyValue/Receive/Pipelined.antt =====
-- _check_cmd_complete2 serves the commands of one reading in order.
use bo_atom.Prelude.{
  ℕ, zero, suc, ◌+◌, ◌-◌, ◌≤◌, ◌<◌, ◌≡◌, refl, sym, ap, ◌∙◌, true, false, not, ◌&&◌, none, List, [],
  ◌∷◌, ◌++◌, leb, ltb, if◌then◌else◌, arith, length, drop, set, drop-append, length-append,
  Bool-cases, inl, inr,
}
use mathlib.Core.List.{append_assoc}
use bo_atom.Ae.Files.{Api}
use bo_atom.KeyValue.Items.{Items, cmd_complete}
use bo_atom.KeyValue.Store.{Bytes, Dict, Reply, run_all, run_cmd, insert, is_current}
use bo_atom.KeyValue.Receive.{check_loop, check_cmd_complete}
use bo_atom.KeyValue.Receive.State.{Session, accepted, recv_cmd_length}
use bo_atom.KeyValue.Receive.Strings.{drop-drop, drop-set}
use bo_atom.KeyValue.Receive.Rows.{Arg, bytes_of, args_bytes, item_loop-args}
use bo_atom.KeyValue.Receive.Whole.{
  Request, request_bytes, IsRequest, AllRequests, requests_bytes, command_of, commands_of,
  command_of_complete, idle, polled, served, start-idle, finish-holding,
}

args-short : (args : List Arg) → length args ≤ length (args_bytes args)
args-short [] = omega arith
args-short (a ∷ args) = omega (arith, args-short args, length-append (bytes_of a) (args_bytes args))

behind_header :
    (pre : ℕ) (r : Request) (rest xs : Bytes)
    → drop pre xs ≡ request_bytes r ++ rest
    → drop (pre + 1 + length r.count + 2) xs ≡ args_bytes r.args ++ rest
behind_header pre r rest xs here =
    let k = 1 + length r.count + 2 in
    let open_line : Bytes = 42 ∷ r.count ++ 13 ∷ 10 ∷ [] in
    let place : pre + 1 + length r.count + 2 ≡ pre + k = omega arith in
    let size : k ≡ length open_line = omega (arith, length-append (42 ∷ r.count) (13 ∷ 10 ∷ [])) in
    ap (λ n. drop n xs) place
    ∙ drop-drop pre k xs
    ∙ ap (λ l. drop k l)
        (here
          ∙ append_assoc (42 ∷ r.count) (13 ∷ 10 ∷ args_bytes r.args) rest
          ∙ sym (append_assoc (42 ∷ r.count) (13 ∷ 10 ∷ []) (args_bytes r.args ++ rest)))
    ∙ drop-append k open_line (args_bytes r.args ++ rest) size

module _ {ℓ} {P E S D : Type ℓ} (api : Api S) (send_proc : P) (client : E) (dict : Dict D)
    (stale : Items → Bytes) (malloc : List (ℕ × Items) → ℕ) where
  pub run_all-append :
      (xs ys : List (ℕ × Items)) (d : D) (rs : List Reply)
      → run_all dict stale none (xs ++ ys) d rs
        ≡ run_all dict stale none ys
            (run_all dict stale none xs d rs).0
            (run_all dict stale none xs d rs).1
  unfolding run_all
  run_all-append [] ys d rs = refl
  run_all-append (x ∷ xs) ys d rs =
      elim (Bool-cases (cmd_complete x.1 && ltb 0 x.1.args_num && not (is_current x.0 none))) [
        | inl t ↦ rw t (
            run_all-append xs ys (run_cmd dict stale x.1 d).0
              (insert dict rs (run_cmd dict stale x.1 d).1))
        | inr f ↦ rw f (run_all-append xs ys d rs)
      ]

  -- The session behind a command.
  abbrev after_request : ℕ → Request → Session P E S D → Session P E S D
  after_request pre r s = served api send_proc client dict stale (command_of r) (
      polled api send_proc client
        (record s { recv_cmd = set s.recv_cmd (pre + 1 + length r.count) 0 }))

  check_loop-request :
      (fuel total pre : ℕ) (r : Request) (rest : Bytes) (s : Session P E S D)
      → IsRequest r
      → drop pre s.recv_cmd ≡ request_bytes r ++ rest
      → pre + length (request_bytes r) ≤ total
      → total ≤ recv_cmd_length
      → total - pre < suc fuel
      → check_loop api send_proc client dict stale malloc (suc fuel) total pre (idle s) ≡ (
          if leb total (pre + length (request_bytes r))
          then accepted (record (idle (after_request pre r s)) { recv_pos = 0 })
          else check_loop api send_proc client dict stale malloc fuel total
              (pre + length (request_bytes r))
              (idle (after_request pre r s)))
  unfolding check_loop polled
  check_loop-request fuel total pre r rest s v here fits small fuelled =
      let short = args-short r.args in
      let size = length-append (42 ∷ r.count) (13 ∷ 10 ∷ args_bytes r.args) in
      let opened =
        start-idle api send_proc client dict stale malloc total pre r rest s v here
          (omega (arith, size, fits)) (omega (arith, size, fits, small, short)) in
      let s₁ =
        polled api send_proc client
          (record s { recv_cmd = set s.recv_cmd (pre + 1 + length r.count) 0 }) in
      let looped =
        item_loop-args r.args (suc fuel) total (pre + 1 + length r.count + 2) (malloc [])
          (length r.args) [] rest s₁ v.all_args
          (drop-set (pre + 1 + length r.count + 2) (pre + 1 + length r.count) s.recv_cmd 0
              (omega arith)
            ∙ behind_header pre r rest s.recv_cmd here)
          (omega (arith, size, fits)) small (omega arith) (omega (arith, size, fits, small, short))
          (omega (arith, size, fits, short)) in
      let finished =
        finish-holding api send_proc client dict stale malloc total
          (pre + 1 + length r.count + 2 + length (args_bytes r.args)) (malloc []) (command_of r) s₁
          (command_of_complete r v.some_arg) in
      let end : pre + 1 + length r.count + 2 + length (args_bytes r.args)
          ≡ pre + length (request_bytes r) =
        omega (arith, size) in
      rw (opened, looped, finished, end, check_loop)
        (elim (Bool-cases (leb total (pre + length (request_bytes r)))) [
          | inl t ↦ rw t refl
          | inr f ↦ rw f refl
        ])

  -- A session that has served these commands: the dictionary and the responses are what ALL_cmd makes of
  -- the row of them in the queue.
  abbrev pub Served : List Request → Session P E S D → Session P E S D → Type ℓ
  Served rs s t =
      (t.store ≡ (run_all dict stale none (commands_of rs) s.store s.responses).0)
      × (t.responses ≡ (run_all dict stale none (commands_of rs) s.store s.responses).1)
      × (t.fd ≡ s.fd)

  pub Served-nil : (s : Session P E S D) → Served [] s s
  unfolding run_all
  Served-nil s = (refl, refl, refl)

  Served-cons :
      (pre : ℕ) (r : Request) (rs : List Request) (s t : Session P E S D)
      → Served rs (after_request pre r s) t
      → Served (r ∷ rs) s t
  unfolding served polled
  Served-cons pre r rs s t (store, responses, fd) =
      let split = run_all-append ((0, command_of r) ∷ []) (commands_of rs) s.store s.responses in
      (
        store ∙ sym (ap (λ (q : D × List Reply). q.0) split),
        responses ∙ sym (ap (λ (q : D × List Reply). q.1) split),
        fd,
      )

  after_request-recv_cmd :
      (pre : ℕ) (r : Request) (rest : Bytes) (s : Session P E S D)
      → drop pre s.recv_cmd ≡ request_bytes r ++ rest
      → drop (pre + length (request_bytes r)) (after_request pre r s).recv_cmd ≡ rest
  unfolding served polled
  after_request-recv_cmd pre r rest s here =
      let size = length-append (42 ∷ r.count) (13 ∷ 10 ∷ args_bytes r.args) in
      drop-set (pre + length (request_bytes r)) (pre + 1 + length r.count) s.recv_cmd 0
        (omega (arith, size))
      ∙ drop-drop pre (length (request_bytes r)) s.recv_cmd
      ∙ ap (λ l. drop (length (request_bytes r)) l) here
      ∙ drop-append (length (request_bytes r)) (request_bytes r) rest refl

  check_requests :
      (rs : List Request) (r : Request) (fuel total pre : ℕ) (rest : Bytes) (s : Session P E S D)
      → AllRequests (r ∷ rs)
      → drop pre s.recv_cmd ≡ requests_bytes (r ∷ rs) ++ rest
      → pre + length (requests_bytes (r ∷ rs)) ≡ total
      → total ≤ recv_cmd_length
      → total - pre < fuel
      → (t : Session P E S D) × (check_loop api send_proc client dict stale malloc fuel total pre
            (idle s)
          ≡ accepted (record (idle t) { recv_pos = 0 }))
        × Served (r ∷ rs) s t
  check_requests rs r zero total pre rest s v here whole small fuelled =
      absurd (omega (arith, fuelled))
  check_requests [] r (suc fuel) total pre rest s v here whole small fuelled =
      let size = length-append (request_bytes r) [] in
      let here' = here ∙ append_assoc (request_bytes r) [] rest in
      let last : leb total (pre + length (request_bytes r)) ≡ true = ground (arith, whole, size) in
      let run =
        check_loop-request fuel total pre r rest s v.0 here' (omega (arith, whole, size)) small
          fuelled in
      (
        after_request pre r s,
        run ∙ rw last refl,
        Served-cons pre r [] s (after_request pre r s) (Served-nil (after_request pre r s)),
      )
  check_requests (r' ∷ rs) r (suc fuel) total pre rest s v here whole small fuelled =
      let size = length-append (request_bytes r) (requests_bytes (r' ∷ rs)) in
      let size' = length-append (request_bytes r') (requests_bytes rs) in
      let here' = here ∙ append_assoc (request_bytes r) (requests_bytes (r' ∷ rs)) rest in
      let more : leb total (pre + length (request_bytes r)) ≡ false =
        ground (arith, whole, size, size') in
      let run =
        check_loop-request fuel total pre r (requests_bytes (r' ∷ rs) ++ rest) s v.0 here'
          (omega (arith, whole, size)) small fuelled in
      let (t, then_run, done) =
        check_requests rs r' fuel total (pre + length (request_bytes r)) rest
          (after_request pre r s) v.1
          (after_request-recv_cmd pre r (requests_bytes (r' ∷ rs) ++ rest) s here')
          (omega (arith, whole, size)) small (omega (arith, fuelled)) in
      (t, run ∙ rw more then_run, Served-cons pre r (r' ∷ rs) s t done)

  -- When the bytes received are one or more whole commands, and none is being received,
  -- _check_cmd_complete2 returns 0 with nothing left over: it puts each command in the queue with exactly its
  -- items, runs it and takes it out, so that the dictionary and the responses are those of the row of
  -- commands. Bytes that are left in the array from earlier readings do not matter.
  pub check_cmd_complete-run_all :
      (rs : List Request) (r : Request) (rest : Bytes) (s : Session P E S D)
      → AllRequests (r ∷ rs)
      → s.recv_cmd ≡ requests_bytes (r ∷ rs) ++ rest
      → length (requests_bytes (r ∷ rs)) ≤ recv_cmd_length
      → (t : Session P E S D) × (check_cmd_complete api send_proc client dict stale malloc
            (length (requests_bytes (r ∷ rs)))
            (idle s)
          ≡ accepted (record (idle t) { recv_pos = 0 }))
        × Served (r ∷ rs) s t
  unfolding check_cmd_complete
  check_cmd_complete-run_all rs r rest s v here small =
      check_requests rs r (recv_cmd_length + 2) (length (requests_bytes (r ∷ rs))) 0 rest s v here
        (omega arith) small (omega (arith, small))
