-- ===== src/NetTool.antt =====
-- The blocking transfers of netTool/netTool.c over a descriptor that may be interrupted, time out
-- or be closed: readn, writen, eventable and nonblockconnect.
pub mod Read
pub mod Write
pub mod Connect
use bo_atom.Prelude.{
  ℕ, ◌+◌, ◌-◌, Bool, true, false, Option, none, some, List, [], ◌∷◌, ◌++◌, ◌==◌, leb, ltb,
  if◌then◌else◌, length, take, drop, ◌||◌, not,
}

-- How `select` returns: ready, 0, -1 with EINTR, -1 with another error.
pub data Wait : Type 0 where
  ready timed_out wait_interrupted wait_failed : Wait

-- How `read` returns: a positive count with the bytes, -1 with EAGAIN or EINTR, -1 with another
-- error, 0.
pub data Input : Type 0 where
  got : List ℕ → Input
  input_again input_failed end_of_file : Input

-- How `write` returns: a positive count, -1 with EAGAIN or EINTR, -1 with another error, 0.
pub data Output : Type 0 where
  wrote : ℕ → Output
  output_again output_failed wrote_nothing : Output

-- What the system answers in one round of a loop: to `select`, and to the call behind it.
pub record Round {ℓ} (A : Type ℓ) : Type ℓ where
  pub wait : Wait
  pub call : A

-- The value of a transfer, 0 or -1, with the bytes moved; `pending` while the answers last.
pub data Transfer : Type 0 where
  done failed pending : List ℕ → Transfer

-- the loop of readn, with `sum` and the bytes stored so far
unfoldable pub readn_loop : ℕ → ℕ → List ℕ → List (Round Input) → Transfer
readn_loop size sum buf [] = pending buf
readn_loop size sum buf (r ∷ rs) = elim r.wait [
  | timed_out ↦ failed buf
  | wait_failed ↦ failed buf
  | wait_interrupted ↦ readn_loop size sum buf rs
  | ready ↦ (elim r.call [
    | got bytes ↦
        (let sum' = sum + length bytes in
          let more = readn_loop size sum' (buf ++ bytes) rs in
          if leb size sum' then done (buf ++ bytes) else more)
    | input_again ↦ readn_loop size sum buf rs
    | input_failed ↦ failed buf
    | end_of_file ↦ failed buf
  ])
]

unfoldable pub readn : ℕ → List (Round Input) → Transfer
unfolding readn_loop
readn size rs = readn_loop size 0 [] rs

-- the loop of writen, with `sum` and the bytes sent so far
unfoldable pub writen_loop : List ℕ → ℕ → ℕ → List ℕ → List (Round Output) → Transfer
writen_loop buf size sum sent [] = pending sent
writen_loop buf size sum sent (r ∷ rs) = elim r.wait [
  | timed_out ↦ failed sent
  | wait_failed ↦ failed sent
  | wait_interrupted ↦ writen_loop buf size sum sent rs
  | ready ↦ (elim r.call [
    | wrote n ↦
        (let sent' = sent ++ take n (drop sum buf) in
          let more = writen_loop buf size (sum + n) sent' rs in
          if leb size (sum + n) then done sent' else more)
    | output_again ↦ writen_loop buf size sum sent rs
    | output_failed ↦ failed sent
    | wrote_nothing ↦ failed sent
  ])
]

unfoldable pub writen : List ℕ → ℕ → List (Round Output) → Transfer
unfolding writen_loop
writen buf size rs = writen_loop buf size 0 [] rs

-- eventable; none while `select` is interrupted over and over
unfoldable pub eventable : List Wait → Option Bool
eventable [] = none
eventable (ready ∷ ws) = some true
eventable (timed_out ∷ ws) = some false
eventable (wait_interrupted ∷ ws) = eventable ws
eventable (wait_failed ∷ ws) = some false

-- nonblockconnect: the descriptor or -1, and the descriptors closed. `fd` is the result of
-- anetTcpNonBlockConnect, and `sock_error` is what getsockopt stores, none if it fails.
unfoldable pub nonblockconnect : Option ℕ → List Wait → Option ℕ → Option (Option ℕ × List ℕ)
unfolding eventable
nonblockconnect none ws sock_error = some (none, [])
nonblockconnect (some fd) ws sock_error = elim (eventable ws) [
  | none ↦ none
  | some false ↦ some (none, fd ∷ [])
  | some true ↦ (elim sock_error [
    | none ↦ some (none, fd ∷ [])
    | some err ↦ if err == 0 then some (some fd, []) else some (none, fd ∷ [])
  ])
]
