-- ===== src/KeyValue/Receive/Serving.antt =====
-- recv_cmd_handle on readings that hold whole commands.
use bo_atom.Prelude.{
  ℕ, ◌+◌, ◌-◌, ◌≤◌, ◌<◌, ◌≡◌, refl, sym, ap, ◌∙◌, Option, none, some, List, [], ◌∷◌, ◌++◌, arith,
  length, drop,
}
use mathlib.Core.Path.{subst}
use bo_atom.Ae.Files.{Api}
use bo_atom.KeyValue.Items.{Items}
use bo_atom.KeyValue.Store.{Bytes, Dict, Reply, run_all}
use bo_atom.KeyValue.Store.Meaning.{IsDict, value_of}
use bo_atom.KeyValue.Store.Requests.{Op, AllAsk, AllAnswered, last_map}
use bo_atom.KeyValue.Store.Batch.{run_all-Ran}
use bo_atom.KeyValue.Receive.{check_cmd_complete}
use bo_atom.KeyValue.Receive.State.{Session, recv_cmd_length}
use bo_atom.KeyValue.Receive.Whole.{
  Request, AllRequests, requests_bytes, command_of, commands_of, idle,
}
use bo_atom.KeyValue.Receive.Pipelined.{
  Served, Served-nil, run_all-append, check_cmd_complete-run_all,
}
use bo_atom.KeyValue.Receive.Strings.{take-all}
use bo_atom.KeyValue.Receive.Handler.{
  Answer, took, would_block, World, Left, waiting, strayed, open_item, took_line, after_check,
  recv_cmd_handle,
}

-- One reading holds one or more whole commands.
pub record IsReading (rs : List Request) : Type 0 where
  pub some_request : 0 < length rs
  pub all_requests : AllRequests rs
  pub fits : length (requests_bytes rs) ≤ recv_cmd_length

abbrev pub AllReadings : List (List Request) → Type 0
AllReadings [] = Unit
AllReadings (b ∷ bs) = IsReading b × AllReadings bs

-- the answers of `read`, at the end of which there is nothing more to read
abbrev pub answers_of : List (List Request) → List Answer
answers_of [] = would_block ∷ []
answers_of (b ∷ bs) = took (requests_bytes b) ∷ answers_of bs

abbrev pub joined : List (List Request) → List Request
joined [] = []
joined (b ∷ bs) = b ++ joined bs

commands_of-append :
    (xs ys : List Request) → commands_of (xs ++ ys) ≡ commands_of xs ++ commands_of ys
commands_of-append [] ys = refl
commands_of-append (x ∷ xs) ys = ap (λ l. (0, command_of x) ∷ l) (commands_of-append xs ys)

module _ {ℓ} {P E S D : Type ℓ} where
  -- The client has sent nothing that is not served.
  abbrev pub ready : Session P E S D → Session P E S D
  ready s = record (idle s) { recv_pos = 0 }

module _ {ℓ} {P E S D : Type ℓ} (api : Api S) (send_proc : P) (client : E) (dict : Dict D)
    (stale : Items → Bytes) (malloc : List (ℕ × Items) → ℕ) where
  Served-append :
      (xs ys : List Request) (s t u : Session P E S D)
      → Served api send_proc client dict stale malloc xs s t
      → Served api send_proc client dict stale malloc ys t u
      → Served api send_proc client dict stale malloc (xs ++ ys) s u
  Served-append xs ys s t u (store, resp, fd) (store', resp', fd') =
      let split =
        ap (λ cs. run_all dict stale none cs s.store s.responses) (commands_of-append xs ys)
        ∙ run_all-append api send_proc client dict stale malloc (commands_of xs) (commands_of ys)
            s.store s.responses in
      let moved : run_all dict stale none (commands_of ys) t.store t.responses
          ≡ run_all dict stale none (commands_of (xs ++ ys)) s.store s.responses =
        rw (store, resp) (sym split) in
      (
        store' ∙ ap (λ (q : D × List Reply). q.0) moved,
        resp' ∙ ap (λ (q : D × List Reply). q.1) moved,
        fd' ∙ fd,
      )

  took_line-requests :
      (r : Request) (rs : List Request) (s : Session P E S D)
      → AllRequests (r ∷ rs)
      → length (requests_bytes (r ∷ rs)) ≤ recv_cmd_length
      → (t : Session P E S D) × (took_line api send_proc client dict stale malloc
            (requests_bytes (r ∷ rs))
            (ready s)
          ≡ some (ready t))
        × Served api send_proc client dict stale malloc (r ∷ rs) s t
  unfolding took_line after_check
  took_line-requests r rs s v room =
      let bytes = requests_bytes (r ∷ rs) in
      let rest = drop (0 + length bytes) s.recv_cmd in
      let (t, run, done) =
        check_cmd_complete-run_all api send_proc client dict stale malloc rs r rest
          (record s { recv_cmd = bytes ++ rest; recv_pos = 0 + length bytes }) v refl room in
      let total : 0 + length bytes ≡ length bytes = omega arith in
      (
        t,
        ap after_check (
            ap
              (λ n.
                check_cmd_complete api send_proc client dict stale malloc n
                  (idle (record s { recv_cmd = bytes ++ rest; recv_pos = 0 + length bytes })))
              total
            ∙ run),
        done,
      )

module _ {ℓ} {P E S D A : Type ℓ} (api : Api S) (address : ℕ) (send_proc : P) (client : E)
    (dict : Dict D) (stale : Items → Bytes) (malloc : List (ℕ × Items) → ℕ) where
  one_reading :
      (r : Request) (rs : List Request) (more : List Answer) (w : World P E S D A)
      (s t : Session P E S D)
      → length (requests_bytes (r ∷ rs)) ≤ recv_cmd_length
      → took_line api send_proc client dict stale malloc (requests_bytes (r ∷ rs)) (ready s)
        ≡ some (ready t)
      → recv_cmd_handle api address send_proc client dict stale malloc
          (took (requests_bytes (r ∷ rs)) ∷ more)
          (record w { session = ready s })
        ≡ recv_cmd_handle api address send_proc client dict stale malloc more
            (record w { session = ready t })
  unfolding recv_cmd_handle open_item
  one_reading r rs more w s t room run =
      let k : Option (Session P E S D) → Left (World P E S D A) = λ o. elim o [
        | none ↦ strayed
        | some s' ↦
            recv_cmd_handle api address send_proc client dict stale malloc more
              (record w { session = s' })
      ] in
      ap (λ b. k (took_line api send_proc client dict stale malloc b (ready s)))
        (take-all (recv_cmd_length - 0) (requests_bytes (r ∷ rs)) room)
      ∙ ap k run

  recv_cmd_handle-Served :
      (readings : List (List Request)) (w : World P E S D A) (s : Session P E S D)
      → AllReadings readings
      → (t : Session P E S D) × (recv_cmd_handle api address send_proc client dict stale malloc
            (answers_of readings)
            (record w { session = ready s })
          ≡ waiting (record w { session = ready t }))
        × Served api send_proc client dict stale malloc (joined readings) s t
  recv_cmd_handle-Served [] w s a = (
    s,
    unfold recv_cmd_handle open_item in refl,
    Served-nil api send_proc client dict stale malloc s,
  )
  recv_cmd_handle-Served ([] ∷ rest) w s (i, a) = absurd (omega (arith, i.some_request))
  recv_cmd_handle-Served ((r ∷ rs) ∷ rest) w s (i, a) =
      let (t, run, done) =
        took_line-requests api send_proc client dict stale malloc r rs s i.all_requests i.fits in
      let (u, then_run, then_done) = recv_cmd_handle-Served rest w t a in
      (
        u,
        one_reading r rs (answers_of rest) w s t i.fits run ∙ then_run,
        Served-append api send_proc client dict stale malloc (r ∷ rs) (joined rest) s t u done
            then_done,
      )

  -- A client whose earlier commands are served sends SETs and GETs, and each reading gives one or more whole
  -- commands. Then recv_cmd_handle returns to wait for more with nothing left over, the dictionary finds what
  -- a map finds after these operations, and one response to each is behind those that were there, in
  -- order. As they read then, a SET is answered by OK, and a GET by what the map finds before it, except
  -- for a GET of a key that is there and that a later SET sets: its response reads a freed block if
  -- the first such SET is the last command, and nothing is said of it otherwise. The dictionary is
  -- valid at the start. The dictionary
  -- obeys its laws, and a freed first item does not happen to read as GET.
  pub recv_cmd_handle-responses :
      (Valid : D → Type 0) (lawful : IsDict dict Valid) (readings : List (List Request))
      (os : List Op) (w : World P E S D A) (s : Session P E S D)
      → Valid s.store
      → AllReadings readings
      → AllAsk stale (commands_of (joined readings)) os
      → (t : Session P E S D) × (recv_cmd_handle api address send_proc client dict stale malloc
            (answers_of readings)
            (record w { session = ready s })
          ≡ waiting (record w { session = ready t }))
        × (value_of dict t.store ≡ last_map os (value_of dict s.store))
        × (new : List Reply) × (t.responses ≡ s.responses ++ new)
        × AllAnswered dict t.store os (value_of dict s.store) new
  recv_cmd_handle-responses Valid lawful readings os w s valid a asked =
      let (t, run, (store, resp, fd)) = recv_cmd_handle-Served readings w s a in
      let r =
        run_all-Ran dict Valid lawful stale (commands_of (joined readings)) os s.store
          (value_of dict s.store) s.responses asked valid refl in
      (
        t,
        run,
        ap (value_of dict) store ∙ r.found,
        r.new,
        resp ∙ r.appended,
        subst (λ d. AllAnswered dict d os (value_of dict s.store) r.new) (sym store) r.answered,
      )
