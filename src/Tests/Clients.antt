-- ===== src/Tests/Clients.antt =====
-- The sequence server's handlers and the upgrade client at concrete inputs.
use bo_atom.Prelude.{
  ℕ, ◌≡◌, refl, true, not, none, some, List, [], ◌∷◌, arith, map, replicate, length,
}
use bo_atom.Ae.Mask.{ae_none, ae_readable}
use bo_atom.Atom.{
  read_bytes, read_again, read_end, read_error, kept, deleted, recv_cmd_handle, wrote, write_again,
  send_response_handle,
}
use bo_atom.Atom.Protocol.{recv_cmd_handle_endless}
use bo_atom.Atom.Sending.{accounted, send_response_handle-accounted}
use bo_atom.Upgrade.Bits.{number}
use bo_atom.Upgrade.Crc.{crc32, bit_loop}
use bo_atom.Upgrade.Crc.Bitwise.{crc32-bit_loop}
use bo_atom.Upgrade.Transfer.{Frame, send_file, sent_all}
use bo_atom.Upgrade.Transfer.Whole.{good_rounds, payloads, Numbered, send_file-sent_all}

recv_cmd_handle_endless_example :
    ((bytes : List ℕ) → recv_cmd_handle 100 (1 ∷ 2 ∷ []) ae_readable (read_bytes bytes) ≡ none)
    × (recv_cmd_handle 100 (1 ∷ 2 ∷ []) ae_readable read_again ≡ some (kept, ae_readable))
    × (recv_cmd_handle 100 (1 ∷ 2 ∷ []) ae_readable read_end ≡ some (deleted, ae_none))
    × (recv_cmd_handle 100 (1 ∷ 2 ∷ []) ae_readable read_error ≡ some (deleted, ae_none))
recv_cmd_handle_endless_example = recv_cmd_handle_endless 100 (1 ∷ 2 ∷ []) ae_readable (omega arith)

send_response_handle-accounted_example :
    accounted (send_response_handle (1 ∷ 2 ∷ 3 ∷ []) (wrote 2 ∷ write_again ∷ [])) ≡ 1 ∷ 2 ∷ 3 ∷ []
send_response_handle-accounted_example =
    send_response_handle-accounted (1 ∷ 2 ∷ 3 ∷ []) (wrote 2 ∷ write_again ∷ [])

-- the check_digits 1 to 9, and the check value that CRC-32 has for them, 0xcbf43926
abbrev check_digits : List ℕ
check_digits = 49 ∷ 50 ∷ 51 ∷ 52 ∷ 53 ∷ 54 ∷ 55 ∷ 56 ∷ 57 ∷ []

check_value : number (crc32 check_digits) ≡ 3421780262
unfolding crc32
check_value = refl

crc32-bit_loop_example :
    crc32 (49 ∷ 50 ∷ []) ≡ map not (bit_loop (replicate 32 true) (49 ∷ 50 ∷ []))
crc32-bit_loop_example = crc32-bit_loop (49 ∷ 50 ∷ []) (omega arith, (omega arith, tt))

abbrev small_file : List (List ℕ)
small_file = (7 ∷ 8 ∷ 9 ∷ []) ∷ []

send_file-sent_all_example :
    (fs : List Frame) × (send_file (some 3) (good_rounds small_file) ≡ sent_all fs)
    × (payloads fs ≡ 7 ∷ 8 ∷ 9 ∷ [])
    × Numbered (length fs) 1 fs
send_file-sent_all_example = send_file-sent_all 3 small_file (omega arith, refl, refl)
