-- ===== src/KeyValue/Receive/Pieces.antt =====
-- recv_cmd_handle on an item that comes in pieces.
use bo_atom.Prelude.{
  ℕ, ◌+◌, ◌-◌, ◌≤◌, ◌<◌, ◌≡◌, refl, sym, ap, ◌∙◌, true, false, none, List, [], ◌∷◌, ◌++◌, ◌==◌, leb,
  ltb, if◌then◌else◌, arith, length, length-append, get_or, take,
}
use mathlib.Core.List.{append_assoc, append-nil}
use bo_atom.Ae.Files.{Api}
use bo_atom.KeyValue.Items.{Items, length_at, pos_at}
use bo_atom.KeyValue.Store.{Bytes, Dict}
use bo_atom.KeyValue.Receive.{run_commands}
use bo_atom.KeyValue.Receive.State.{Session, cmd_args_max, put_at}
use bo_atom.KeyValue.Receive.Rows.{holding, lengths, length-lengths}
use bo_atom.KeyValue.Receive.Strings.{take-all}
use bo_atom.KeyValue.Receive.Handler.{Answer, took, World, open_item, took_item, recv_cmd_handle}

-- The command of `n` items of which the first are there, and `got` of the next, whose length is `num`.
abbrev pub arriving : ℕ → List Bytes → ℕ → Bytes → Items
arriving n vs num got = record {
  args_num = n;
  value = vs ++ got ∷ [];
  item_length = lengths vs ++ num ∷ [];
  item_pos = lengths vs ++ length got ∷ [];
  cur_item = length vs;
}

get_or-end {ℓ} : {A : Type ℓ} (xs : List A) (x d : A) → get_or (xs ++ x ∷ []) (length xs) d ≡ x
get_or-end [] x d = refl
get_or-end (y ∷ xs) x d = get_or-end xs x d

put_at-last {ℓ} :
    {A : Type ℓ} (z : A) (xs : List A) (x v : A)
    → put_at z (xs ++ x ∷ []) (length xs) v ≡ xs ++ v ∷ []
put_at-last z [] x v = refl
put_at-last z (y ∷ xs) x v = ap (λ l. y ∷ l) (put_at-last z xs x v)

length_at-end : (vs : List Bytes) (k : ℕ) → get_or (lengths vs ++ k ∷ []) (length vs) 0 ≡ k
length_at-end vs k =
    ap (λ i. get_or (lengths vs ++ k ∷ []) i 0) (sym (length-lengths vs))
    ∙ get_or-end (lengths vs) k 0

pos_put :
    (vs : List Bytes) (k l : ℕ)
    → put_at 0 (lengths vs ++ k ∷ []) (length vs) l ≡ lengths vs ++ l ∷ []
pos_put vs k l =
    ap (λ i. put_at 0 (lengths vs ++ k ∷ []) i l) (sym (length-lengths vs))
    ∙ put_at-last 0 (lengths vs) k l

module _ {ℓ} {P E S D : Type ℓ} (api : Api S) (send_proc : P) (client : E) (dict : Dict D)
    (stale : Items → Bytes) where
  -- The session when the item is whole: the next item follows, or the command is complete and is run.
  abbrev pub item_whole : ℕ → ℕ → List Bytes → ℕ → Bytes → Session P E S D → Session P E S D
  item_whole p n vs num body s =
      let s' = record (holding p (record (arriving n vs num body) { cur_item = length vs + 1 }) s) {
        recv_pos = 0;
      } in
      if leb n (length vs + 1)
      then run_commands api send_proc client dict stale (record s' { current = none })
      else s'

  took_item-part :
      (p n num : ℕ) (vs : List Bytes) (got piece : Bytes) (s : Session P E S D)
      → length got + length piece < num
      → length vs < n
      → took_item api send_proc client dict stale p
          (arriving n vs num got)
          piece
          (holding p (arriving n vs num got) s)
        ≡ holding p (arriving n vs num (got ++ piece)) s
  unfolding took_item
  took_item-part p n num vs got piece s part lacks =
      let self : (p == p) ≡ true = ground arith in
      let some_left : leb num (length got + length piece) ≡ false = ground arith in
      let more : leb n (length vs) ≡ false = ground arith in
      rw
        (
          length_at-end vs (length got),
          length_at-end vs num,
          some_left,
          more,
          self,
          get_or-end vs got [],
          put_at-last [] vs got (got ++ piece),
          pos_put vs (length got) (length got + length piece),
          length-append got piece,
        )
        refl

  took_item-whole :
      (p n num : ℕ) (vs : List Bytes) (got piece : Bytes) (s : Session P E S D)
      → length got + length piece ≡ num
      → took_item api send_proc client dict stale p
          (arriving n vs num got)
          piece
          (holding p (arriving n vs num got) s)
        ≡ item_whole p n vs num (got ++ piece) s
  unfolding took_item
  took_item-whole p n num vs got piece s whole =
      let self : (p == p) ≡ true = ground arith in
      let all : leb num (length got + length piece) ≡ true = ground arith in
      rw
        (
          length_at-end vs (length got),
          length_at-end vs num,
          all,
          self,
          get_or-end vs got [],
          put_at-last [] vs got (got ++ piece),
          pos_put vs (length got) (length got + length piece),
          length-append got piece,
        )
        refl

-- Pieces with at least one byte each.
abbrev pub NoneEmpty : List Bytes → Type 0
NoneEmpty [] = Unit
NoneEmpty (b ∷ bs) = (0 < length b) × NoneEmpty bs

abbrev pub joined_bytes : List Bytes → Bytes
joined_bytes [] = []
joined_bytes (b ∷ bs) = b ++ joined_bytes bs

abbrev pub took_all : List Bytes → List Answer → List Answer
took_all [] more = more
took_all (b ∷ bs) more = took b ∷ took_all bs more

module _ {ℓ} {P E S D A : Type ℓ} (api : Api S) (address : ℕ) (send_proc : P) (client : E)
    (dict : Dict D) (stale : Items → Bytes) (malloc : List (ℕ × Items) → ℕ) where
  one_piece :
      (p n num : ℕ) (vs : List Bytes) (got piece : Bytes) (more : List Answer) (w : World P E S D A)
      (s t : Session P E S D)
      → 0 < length piece
      → length got + length piece ≤ num
      → length vs < cmd_args_max
      → took_item api send_proc client dict stale p
          (arriving n vs num got)
          piece
          (holding p (arriving n vs num got) s)
        ≡ t
      → recv_cmd_handle api address send_proc client dict stale malloc
          (took piece ∷ more)
          (record w { session = holding p (arriving n vs num got) s })
        ≡ recv_cmd_handle api address send_proc client dict stale malloc more
            (record w { session = t })
  unfolding recv_cmd_handle open_item
  one_piece p n num vs got [] more w s t some_byte fits few step = absurd (omega arith)
  one_piece p n num vs got (b ∷ bs) more w s t some_byte fits few step =
      let self : (p == p) ≡ true = ground arith in
      let room : leb cmd_args_max (length vs) ≡ false = ground arith in
      let sized : (num == 0) ≡ false = ground (arith, fits) in
      let lacks : ltb (length got) num ≡ true = ground (arith, fits) in
      let c = arriving n vs num got in
      let asked : take (length_at c c.cur_item - pos_at c c.cur_item) (b ∷ bs) ≡ b ∷ bs =
        rw (length_at-end vs num, length_at-end vs (length got))
          (take-all (num - length got) (b ∷ bs) (omega (arith, fits))) in
      rw
        (
          self,
          room,
          length_at-end vs num,
          length_at-end vs (length got),
          sized,
          lacks,
          recv_cmd_handle,
        )
        (ap
          (λ q.
            recv_cmd_handle api address send_proc client dict stale malloc more
              (record w { session = q }))
          (ap (λ l. took_item api send_proc client dict stale p c l (holding p c s)) asked ∙ step))

  -- When an item of a command is there in part, and its other bytes come in any number of pieces, then
  -- recv_cmd_handle puts them together: behind the last piece the item is whole, and either the next item follows, or the
  -- command has all of its items and ALL_cmd has run it.
  pub recv_cmd_handle-pieces :
      (piece : Bytes) (pieces : List Bytes) (p n num : ℕ) (vs : List Bytes) (got : Bytes)
      (more : List Answer) (w : World P E S D A) (s : Session P E S D)
      → NoneEmpty (piece ∷ pieces)
      → length got + length (joined_bytes (piece ∷ pieces)) ≡ num
      → length vs < n
      → n ≤ cmd_args_max
      → recv_cmd_handle api address send_proc client dict stale malloc
          (took_all (piece ∷ pieces) more)
          (record w { session = holding p (arriving n vs num got) s })
        ≡ recv_cmd_handle api address send_proc client dict stale malloc more (record w {
          session =
              item_whole api send_proc client dict stale p n vs num
                (got ++ joined_bytes (piece ∷ pieces))
                s;
        })
  recv_cmd_handle-pieces piece [] p n num vs got more w s (e, es) whole lacks few =
      let size = length-append piece [] in
      one_piece p n num vs got piece more w s _ e (omega (arith, whole, size)) (omega arith) (
        took_item-whole api send_proc client dict stale p n num vs got piece s
          (omega (arith, whole, size))
        ∙ ap (λ b. item_whole api send_proc client dict stale p n vs num (got ++ b) s)
            (sym (append-nil piece)))
  recv_cmd_handle-pieces piece (next ∷ rest) p n num vs got more w s (e, es) whole lacks few =
      let size = length-append piece (joined_bytes (next ∷ rest)) in
      let size' = length-append next (joined_bytes rest) in
      let size'' = length-append got piece in
      one_piece p n num vs got piece (took_all (next ∷ rest) more) w s _ e
        (omega (arith, whole, size)) (omega arith)
        (took_item-part api send_proc client dict stale p n num vs got piece s
          (omega (arith, whole, size, size', es.0)) lacks)
      ∙ recv_cmd_handle-pieces next rest p n num vs (got ++ piece) more w s es
          (omega (arith, whole, size, size'')) lacks few
      ∙ ap
          (λ b.
            recv_cmd_handle api address send_proc client dict stale malloc more
              (record w { session = item_whole api send_proc client dict stale p n vs num b s }))
          (append_assoc got piece (joined_bytes (next ∷ rest)))
