-- ===== src/Tests/Net.antt =====
-- Transfers of netTool/netTool.c at concrete answers of the system.
use bo_atom.Prelude.{ℕ, ◌≡◌, refl, ◌≢◌, ◌++◌, List, [], ◌∷◌, Option, none, some, arith}
use bo_atom.NetTool.{
  Round, Input, Output, ready, wait_interrupted, got, input_again, wrote, output_again, done, readn,
  writen, nonblockconnect,
}
use bo_atom.NetTool.Read.{readn-stream}
use bo_atom.NetTool.Write.{writen-sends}
use bo_atom.NetTool.Connect.{returned, BecomesReady, nonblockconnect-owned}

abbrev in_pieces : List (Round Input)
in_pieces =
    record { wait = ready; call = got (1 ∷ 2 ∷ []) }
    ∷ record { wait = wait_interrupted; call = input_again }
    ∷ record { wait = ready; call = input_again }
    ∷ record { wait = ready; call = got (3 ∷ []) }
    ∷ []

readn-stream_example : readn 3 in_pieces ≡ done (1 ∷ 2 ∷ 3 ∷ [])
readn-stream_example =
    readn-stream 3 in_pieces (omega arith)
      ((omega arith, omega arith), λ h. (tt, λ h. (tt, λ h. ((omega arith, omega arith), λ h. tt))))
      (tt, (tt, (tt, (tt, tt)))) (omega arith)

abbrev out_pieces : List (Round Output)
out_pieces =
    record { wait = ready; call = wrote 2 }
    ∷ record { wait = wait_interrupted; call = output_again }
    ∷ record { wait = ready; call = output_again }
    ∷ record { wait = ready; call = wrote 1 }
    ∷ []

writen-sends_example : writen (7 ∷ 8 ∷ 9 ∷ []) 3 out_pieces ≡ done (7 ∷ 8 ∷ 9 ∷ [])
writen-sends_example =
    writen-sends (7 ∷ 8 ∷ 9 ∷ []) 3 out_pieces (omega arith)
      (omega arith, λ h. (omega arith, λ h. (omega arith, λ h. (omega arith, λ h. tt))))
      (tt, (tt, (tt, (tt, tt)))) (omega arith)

abbrev ready_fd : Option ℕ
ready_fd = some 5

abbrev no_error : Option ℕ
no_error = some 0

connects : nonblockconnect (some 5) (wait_interrupted ∷ ready ∷ []) (some 0) ≡ some (some 5, [])
unfolding nonblockconnect
connects = refl

nonblockconnect-owned_example :
    (returned (some 5) ++ [] ≡ 5 ∷ [])
    × (ready_fd ≢ none → BecomesReady (wait_interrupted ∷ ready ∷ []) × (no_error ≡ some 0))
nonblockconnect-owned_example =
    nonblockconnect-owned 5 (wait_interrupted ∷ ready ∷ []) (some 0) (some 5) [] connects
