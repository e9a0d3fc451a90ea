-- ===== src/Atom/Sending.antt =====
-- send_response_handle of Z_my_work_atom/tcp_server.c loses and repeats no byte.
use bo_atom.Prelude.{ℕ, ◌≡◌, refl, sym, ap, ◌∙◌, List, [], ◌∷◌, ◌++◌, take, drop, take-append-drop}
use mathlib.Core.List.{append_assoc, append-nil}
use bo_atom.Atom.{
  Writing, wrote, write_again, write_error, Sent, all_sent, waiting, dropped, unanswered, send_loop,
  send_response_handle,
}

-- The bytes written, followed by those left in the buffer.
abbrev pub accounted : Sent → List ℕ
accounted (all_sent sent) = sent
accounted (waiting sent left) = sent ++ left
accounted (dropped sent left) = sent ++ left
accounted (unanswered sent left) = sent ++ left

send_loop-accounted :
    (sent left : List ℕ) (ws : List Writing) → accounted (send_loop sent left ws) ≡ sent ++ left
unfolding send_loop
send_loop-accounted sent [] ws = sym (append-nil sent)
send_loop-accounted sent (b ∷ left) [] = refl
send_loop-accounted sent (b ∷ left) (write_again ∷ ws) = refl
send_loop-accounted sent (b ∷ left) (write_error ∷ ws) = refl
send_loop-accounted sent (b ∷ left) (wrote n ∷ ws) =
    send_loop-accounted (sent ++ take n (b ∷ left)) (drop n (b ∷ left)) ws
    ∙ append_assoc sent (take n (b ∷ left)) (drop n (b ∷ left))
    ∙ ap (λ l. sent ++ l) (take-append-drop n (b ∷ left))

-- However `write` answers, the bytes that were written followed by those left in the buffer are the
-- bytes that were there; in particular, when the handler ends with all sent, it wrote exactly these.
pub send_response_handle-accounted :
    (buf : List ℕ) (ws : List Writing) → accounted (send_response_handle buf ws) ≡ buf
unfolding send_response_handle
send_response_handle-accounted buf ws = send_loop-accounted [] buf ws
