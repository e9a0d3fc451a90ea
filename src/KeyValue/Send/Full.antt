-- ===== src/KeyValue/Send/Full.antt =====
-- What send_response_handle writes when `write` takes all that it is given, and when it does not.
use bo_atom.Prelude.{
  ℕ, ◌+◌, ◌-◌, ◌<◌, ◌≡◌, refl, true, false, List, [], ◌∷◌, ◌++◌, leb, ltb, take, length, map,
  append_snoc, arith, All,
}
use native.Mathlib.Nat.{zero-add}
use mathlib.Core.List.{append_assoc, append-nil}
use bo_atom.KeyValue.Items.{Items, value_at}
use bo_atom.KeyValue.Send.{
  Written, took, finished, advance, drained, move_on, send_from, send_response_handle,
}
use bo_atom.KeyValue.Send.Middle.{
  get_or-middle, set-middle, length-middle, value-middle, lengths-middle, map-snoc, snoc-length,
  take-all,
}

-- When a response of one item, of which nothing is sent, is written in two pieces, the second piece
-- is taken from the start of the item again.
pub second_piece_repeats :
    (v : List ℕ) (n : ℕ)
    → 0 < n
    → n < length v
    → send_response_handle
        (record {
          args_num = 1;
          value = v ∷ [];
          item_length = length v ∷ [];
          item_pos = 0 ∷ [];
          cur_item = 0;
        }
          ∷ [])
        (took n ∷ took (length v - n) ∷ [])
      ≡ finished (take n v ++ take (length v - n) v)
unfolding send_response_handle send_from drained advance move_on
second_piece_repeats v n pos less = ground arith

-- the bytes of the items, and of the items of all responses, in order
abbrev pub concat : List (List ℕ) → List ℕ
concat [] = []
concat (v ∷ vs) = v ++ concat vs

abbrev pub all_bytes : List (List (List ℕ)) → List ℕ
all_bytes [] = []
all_bytes (vs ∷ vss) = concat vs ++ all_bytes vss

-- the answers of a `write` that takes all that it is given, for these items, and for all responses
abbrev pub answers : List (List ℕ) → List Written → List Written
answers [] ws = ws
answers (v ∷ vs) ws = took (length v) ∷ answers vs ws

abbrev pub all_answers : List (List (List ℕ)) → List Written
all_answers [] = []
all_answers (vs ∷ vss) = answers vs (all_answers vss)

abbrev zeros : List (List ℕ) → List ℕ
zeros = map (λ v. 0)

-- A response of items `done`, which are sent, then `v`, of which `k` bytes are counted, then `todo`.
abbrev at : List (List ℕ) → List ℕ → ℕ → List (List ℕ) → Items
at done v k todo = record {
  args_num = length (done ++ v ∷ todo);
  value = done ++ v ∷ todo;
  item_length = map length (done ++ v ∷ todo);
  item_pos = map length done ++ k ∷ zeros todo;
  cur_item = length done;
}

-- A response of which nothing is sent.
abbrev pub fresh : List (List ℕ) → Items
fresh vs = record {
  args_num = length vs;
  value = vs;
  item_length = map length vs;
  item_pos = zeros vs;
  cur_item = 0;
}

-- An item of which nothing is counted is written next.
drained-unsent :
    (done todo : List (List ℕ)) (v : List ℕ) (rs : List Items)
    → 0 < length v
    → drained (at done v 0 todo ∷ rs) ≡ at done v 0 todo ∷ rs
unfolding drained advance
drained-unsent done todo v rs pos =
    rw (lengths-middle done todo v, get_or-middle done length 0 (zeros todo) 0, not_yet, inside)
  where
    not_yet : leb (length v) 0 ≡ false
    not_yet = ground arith

    inside : ltb (length done) (length (done ++ v ∷ todo)) ≡ true
    inside = ground (arith, length-middle done todo v)

-- Behind an item that is sent comes the next, or the next response.
drained-sent :
    (done todo : List (List ℕ)) (v w : List ℕ) (rs : List Items)
    → drained (at done v (length v) (w ∷ todo) ∷ rs) ≡ at (done ++ v ∷ []) w 0 todo ∷ rs
unfolding drained advance
drained-sent done todo v w rs = rw (
  lengths-middle done (w ∷ todo) v,
  get_or-middle done length (length v) (zeros (w ∷ todo)) 0,
  reached,
  inside,
  append_snoc done (w ∷ todo) v,
  map-snoc done v (0 ∷ zeros todo),
  snoc-length done v,
)
  where
    reached : leb (length v) (length v) ≡ true
    reached = ground arith

    inside : ltb (length done + 1) (length (done ++ v ∷ w ∷ todo)) ≡ true
    inside = ground (arith, length-middle done (w ∷ todo) v)

drained-last :
    (done : List (List ℕ)) (v : List ℕ) (rs : List Items)
    → drained (at done v (length v) [] ∷ rs) ≡ drained rs
unfolding drained advance
drained-last done v rs =
    rw (lengths-middle done [] v, get_or-middle done length (length v) [] 0, reached, outside)
  where
    reached : leb (length v) (length v) ≡ true
    reached = ground arith

    outside : ltb (length done + 1) (length (done ++ v ∷ [])) ≡ false
    outside = ground (arith, length-middle done [] v)

move_on-at :
    (done todo : List (List ℕ)) (v : List ℕ)
    → move_on (length v) (at done v 0 todo) ≡ at done v (length v) todo
unfolding move_on
move_on-at done todo v = rw (
  get_or-middle done length 0 (zeros todo) 0,
  set-middle done 0 (0 + length v) (zeros todo),
  zero-add,
)

-- one call of `write` that takes `n` bytes
one-sent :
    (r : Items) (rs : List Items) (n : ℕ) (ws : List Written) (sent : List ℕ)
    → send_from (r ∷ rs) (took n ∷ ws) sent
      ≡ send_from (drained (move_on n r ∷ rs)) ws (sent ++ take n (value_at r r.cur_item))
unfolding send_from
one-sent r rs n ws sent = refl

items-sent :
    (done todo : List (List ℕ)) (v : List ℕ) (rs : List Items) (ws : List Written) (sent : List ℕ)
    → All (λ v. 0 < length v) (v ∷ todo)
    → send_from (at done v 0 todo ∷ rs) (answers (v ∷ todo) ws) sent
      ≡ send_from (drained rs) ws (sent ++ concat (v ∷ todo))
items-sent done [] v rs ws sent pos = rw (
  one-sent (at done v 0 []) rs (length v) ws sent,
  move_on-at done [] v,
  drained-last done v rs,
  value-middle done [] v,
  take-all v,
  append-nil,
)
items-sent done (w ∷ todo) v rs ws sent pos = rw (
  one-sent (at done v 0 (w ∷ todo)) rs (length v) (answers (w ∷ todo) ws) sent,
  move_on-at done (w ∷ todo) v,
  drained-sent done todo v w rs,
  value-middle done (w ∷ todo) v,
  take-all v,
  items-sent (done ++ v ∷ []) todo w rs ws (sent ++ v) pos.1,
  append_assoc,
)

responses-sent :
    (vss : List (List (List ℕ))) (sent : List ℕ)
    → All (All (λ v. 0 < length v)) vss
    → send_from (drained (map fresh vss)) (all_answers vss) sent ≡ finished (sent ++ all_bytes vss)
unfolding send_from
responses-sent [] sent pos = rw append-nil
responses-sent ([] ∷ vss) sent pos = responses-sent vss sent pos.1
responses-sent ((v ∷ vs) ∷ vss) sent pos = rw (
  drained-unsent [] vs v (map fresh vss) pos.0.0,
  items-sent [] vs v (map fresh vss) (all_answers vss) sent pos.0,
  responses-sent vss (sent ++ concat (v ∷ vs)) pos.1,
  append_assoc,
)

-- When `write` takes all that it is given at each call and no item is empty, send_response_handle
-- writes the items of all responses, in order and each once, and ends with an empty queue.
pub send_response_handle-finished :
    (vss : List (List (List ℕ)))
    → All (All (λ v. 0 < length v)) vss
    → send_response_handle (map fresh vss) (all_answers vss) ≡ finished (all_bytes vss)
unfolding send_response_handle
send_response_handle-finished vss pos = responses-sent vss [] pos
