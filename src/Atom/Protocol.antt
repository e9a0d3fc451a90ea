-- ===== src/Atom/Protocol.antt =====
-- The loop around do_protocol, and the sequence numbers.
use bo_atom.Prelude.{
  ℕ, zero, suc, ◌≤◌, ◌<◌, ◌≡◌, refl, ◌^◌, none, some, List, ◌++◌, length, leb, arith, ◌-◌, false,
}
use bo_atom.Ae.Mask.{Mask, ae_none}
use bo_atom.Atom.{
  read_bytes, read_end, read_again, read_error, kept, deleted, do_protocol, protocol_loop,
  recv_cmd_handle, recv_cmd_length, addseq,
}

protocol_loop_endless :
    (fuel : ℕ) (received : List ℕ) (m : Mask) → protocol_loop fuel received m ≡ none
unfolding protocol_loop do_protocol
protocol_loop_endless zero received m = refl
protocol_loop_endless (suc fuel) received m = protocol_loop_endless fuel received m

-- Once `read` returns bytes while the buffer has room, recv_cmd_handle does not return: no amount of
-- fuel is enough for its inner loop. With room and no bytes it returns: it leaves the client as it is
-- where `read` would block, and deletes it at the end of the stream and after an error.
pub recv_cmd_handle_endless :
    (fuel : ℕ) (received : List ℕ) (m : Mask)
    → length received < recv_cmd_length
    → ((bytes : List ℕ) → recv_cmd_handle fuel received m (read_bytes bytes) ≡ none)
      × (recv_cmd_handle fuel received m read_again ≡ some (kept, m))
      × (recv_cmd_handle fuel received m read_end ≡ some (deleted, ae_none))
      × (recv_cmd_handle fuel received m read_error ≡ some (deleted, ae_none))
unfolding recv_cmd_handle
recv_cmd_handle_endless fuel received m room =
    let has_room : leb (recv_cmd_length - length received) 0 ≡ false = ground arith in
    rw has_room ((λ bytes. protocol_loop_endless fuel (received ++ bytes) m), refl, refl, refl)

-- The sequence number after a 16-bit one is again of 16 bits and never 0, and from 32768 on it stays
-- at 32768 or above.
pub addseq-bounds :
    (seq : ℕ)
    → seq < 2 ^ 16
    → (0 < addseq seq) × (addseq seq < 2 ^ 16) × (32768 ≤ seq → 32768 ≤ addseq seq)
unfolding addseq
addseq-bounds seq h = ground arith
