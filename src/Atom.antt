-- ===== src/Atom.antt =====
-- The handlers of Z_my_work_atom/tcp_server.c, with do_protocol of cmd.c and the sequence number of
-- tcp_server.h.
pub mod Protocol
pub mod Sending
use bo_atom.Prelude.{
  ℕ, zero, suc, ◌+◌, ◌-◌, ◌%◌, ◌^◌, Bool, true, false, Option, none, some, List, [], ◌∷◌, ◌++◌,
  ◌==◌, leb, if◌then◌else◌, take, drop, length, ◌>>=◌,
}
use bo_atom.Ae.Mask.{Mask, ae_none, ae_readable, ae_writable, mask_or}

-- CLIENT_RECV_CMD_LENGTH
abbrev pub recv_cmd_length : ℕ
recv_cmd_length = 64

-- The bits SEND_CMD, RECV_CMD and ERR_SENDBUFFERFULL_CMD of what do_protocol returns.
pub record Answer : Type 0 where
  pub send_cmd : Bool
  pub recv_cmd : Bool
  pub err_sendbufferfull_cmd : Bool

-- SUCCESS_CMD, which has none of these bits
abbrev pub success_cmd : Answer
success_cmd = record { send_cmd = false; recv_cmd = false; err_sendbufferfull_cmd = false }

-- do_protocol, on the bytes received
unfoldable pub do_protocol : List ℕ → Answer
do_protocol received = success_cmd

-- How `read` returns.
pub data Reading : Type 0 where
  read_bytes : List ℕ → Reading
  read_end read_again read_error : Reading

-- How the handlers leave the client.
pub data Left : Type 0 where
  kept deleted : Left

-- The loop around do_protocol, on fuel, with the events that the client is registered for. It ends
-- only where the client is deleted; none when the fuel is used up.
unfoldable pub protocol_loop : ℕ → List ℕ → Mask → Option (Left × Mask)
unfolding do_protocol
protocol_loop zero received m = none
protocol_loop (suc fuel) received m =
    let ret = do_protocol received in
    let m₁ = if ret.send_cmd then mask_or m ae_writable else m in
    let m₂ = if ret.recv_cmd then mask_or m₁ ae_readable else m₁ in
    let rest = protocol_loop fuel received m₂ in
    if ret.err_sendbufferfull_cmd then some (deleted, ae_none) else rest

-- recv_cmd_handle, for what `read` returns. A pass of its loop that reads bytes does not come to an
-- end unless the client is deleted, so there is one pass.
unfoldable pub recv_cmd_handle : ℕ → List ℕ → Mask → Reading → Option (Left × Mask)
unfolding protocol_loop
recv_cmd_handle fuel received m r =
    if leb (recv_cmd_length - length received) 0 then some (deleted, ae_none) else (elim r [
      | read_bytes bytes ↦ protocol_loop fuel (received ++ bytes) m
      | read_end ↦ some (deleted, ae_none)
      | read_again ↦ some (kept, m)
      | read_error ↦ some (deleted, ae_none)
    ])

-- How `write` returns: a positive count, a result of at most 0 with EAGAIN, or one with another error.
pub data Writing : Type 0 where
  wrote : ℕ → Writing
  write_again write_error : Writing

-- How the sending handler returns, with the bytes written and the bytes left in the buffer:
-- all is sent and the registration for AE_WRITABLE is deleted, the rest waits, or the client is deleted.
pub data Sent : Type 0 where
  all_sent : List ℕ → Sent
  waiting dropped unanswered : List ℕ → List ℕ → Sent

-- the loop of send_response_handle, on the first send_pos bytes of send_response
unfoldable pub send_loop : List ℕ → List ℕ → List Writing → Sent
send_loop sent [] ws = all_sent sent
send_loop sent (b ∷ left) [] = unanswered sent (b ∷ left)
send_loop sent (b ∷ left) (write_again ∷ ws) = waiting sent (b ∷ left)
send_loop sent (b ∷ left) (write_error ∷ ws) = dropped sent (b ∷ left)
send_loop sent (b ∷ left) (wrote n ∷ ws) =
    send_loop (sent ++ take n (b ∷ left)) (drop n (b ∷ left)) ws

unfoldable pub send_response_handle : List ℕ → List Writing → Sent
unfolding send_loop
send_response_handle buf ws = send_loop [] buf ws

-- ADDSEQ on the 16 bits of gSeq
unfoldable pub addseq : ℕ → ℕ
addseq seq = let next = (seq + 1) % 2 ^ 16 in if next == 0 then 32768 else next
