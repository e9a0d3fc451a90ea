-- ===== src/KeyValue/Send.antt =====
-- send_response_handle of Z_my_work_mem/tcp_server.c.
pub mod Full
pub mod Middle
use bo_atom.Prelude.{
  ℕ, ◌+◌, ◌-◌, Bool, true, false, List, [], ◌∷◌, ◌++◌, leb, ltb, if◌then◌else◌, take, set,
}
use bo_atom.KeyValue.Items.{Items, value_at, length_at, pos_at}

-- How `write` returns: a count, -1 with EAGAIN, -1 with another error.
pub data Written : Type 0 where
  took : ℕ → Written
  would_block write_error : Written

-- How the handler returns, with the bytes written: the queue is empty and the registration for
-- AE_WRITABLE is deleted; the responses are left for the next call; or the client is deleted.
-- `unanswered` while the answers last.
pub data Handled : Type 0 where
  finished : List ℕ → Handled
  blocked : List Items → List ℕ → Handled
  deleted : List ℕ → Handled
  unanswered : List Items → List ℕ → Handled

-- `if (item_pos[cur_item] >= item_length[cur_item]) cur_item += 1;`
unfoldable pub advance : Items → Items
advance r =
    if leb (length_at r r.cur_item) (pos_at r r.cur_item)
    then record r { cur_item = r.cur_item + 1 }
    else r

-- The queue at the next call of `write`: the loop's steps that only advance and delete.
unfoldable pub drained : List Items → List Items
unfolding advance
drained [] = []
drained (r ∷ rs) =
    let rest = drained rs in if ltb (advance r).cur_item r.args_num then advance r ∷ rs else rest

-- `item_pos[cur_item] += n`
unfoldable pub move_on : ℕ → Items → Items
move_on n r = record r { item_pos = set r.item_pos r.cur_item (pos_at r r.cur_item + n) }

-- The loop from a call of `write` on, with the bytes written so far. The call passes the start of
-- the item's bytes, whatever item_pos is.
unfoldable pub send_from : List Items → List Written → List ℕ → Handled
unfolding drained move_on
send_from [] ws sent = finished sent
send_from (r ∷ rs) [] sent = unanswered (r ∷ rs) sent
send_from (r ∷ rs) (write_error ∷ ws) sent = deleted sent
send_from (r ∷ rs) (would_block ∷ ws) sent = blocked (r ∷ rs) sent
send_from (r ∷ rs) (took n ∷ ws) sent =
    send_from (drained (move_on n r ∷ rs)) ws (sent ++ take n (value_at r r.cur_item))

-- send_response_handle
unfoldable pub send_response_handle : List Items → List Written → Handled
unfolding send_from
send_response_handle rs ws = send_from (drained rs) ws []
