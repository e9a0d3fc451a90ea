-- ===== src/KeyValue/Receive/Stale.antt =====
-- _check_cmd_complete2 reads behind the bytes received.
use bo_atom.Prelude.{
  ℕ, suc, ◌+◌, ◌-◌, ◌≤◌, ◌<◌, ◌≡◌, refl, ap, ◌∙◌, true, false, List, [], ◌∷◌, ◌++◌, ◌==◌, leb, ltb,
  arith, length, take, drop, get_or, take-append,
}
use bo_atom.Ae.Files.{Api}
use bo_atom.KeyValue.Items.{Items}
use bo_atom.KeyValue.Store.{Bytes, Dict}
use bo_atom.KeyValue.Receive.{
  one_item, store_item, item_loop, start, check_loop, check_cmd_complete,
}
use bo_atom.KeyValue.Receive.State.{
  Session, accepted, proceed, put_at, cmd_args_max, recv_cmd_length,
}
use bo_atom.KeyValue.Receive.Lines.{line_end, ends_at, digits, int_max}
use bo_atom.KeyValue.Receive.Strings.{AllDigits, line_end-dollar, item_size-digits}
use bo_atom.KeyValue.Receive.Rows.{command, holding, lengths}

-- the command whose next item has the length `num`, of which `total` bytes have come
abbrev pub partial : ℕ → List Bytes → ℕ → ℕ → Bytes → Items
partial n vs num total bytes = record (command n vs) {
  value = put_at [] vs (length vs) bytes;
  item_length = put_at 0 (lengths vs) (length vs) num;
  item_pos = put_at 0 (lengths vs) (length vs) total;
}

module _ {ℓ} {P E S D : Type ℓ} where
  one_item-stale :
      (total p n : ℕ) (vs : List Bytes) (ds rest : Bytes) (s : Session P E S D)
      → 0 < total
      → total ≤ 1 + length ds
      → 0 < length ds
      → AllDigits ds
      → digits 0 ds + length ds + 5 ≤ int_max
      → s.recv_cmd ≡ 36 ∷ ds ++ 13 ∷ 10 ∷ rest
      → length vs < cmd_args_max
      → one_item total 0 p (command n vs) (holding p (command n vs) s)
        ≡ accepted
            (record (holding p
              (partial n vs (digits 0 ds + 1 + length ds + 2 + 2) total (take total s.recv_cmd))
              s) { recv_pos = 0 })
  unfolding one_item store_item
  one_item-stale total p n vs ds rest s some_byte short some_digit all_digits small here few =
      let before_end : leb total 0 ≡ false = ground arith in
      let dollar : get_or s.recv_cmd 0 0 ≡ 36 = ap (λ l. get_or l 0 0) here in
      let end : line_end 0 s.recv_cmd ≡ ends_at (0 + 1 + length ds) =
        ap (line_end 0) here ∙ line_end-dollar 0 ds rest all_digits in
      let line : take (0 + 1 + length ds - (0 + 1)) (drop (0 + 1) s.recv_cmd) ≡ ds =
        ap (λ l. take (0 + 1 + length ds - (0 + 1)) (drop (0 + 1) l)) here
        ∙ take-append (0 + 1 + length ds - (0 + 1)) ds (13 ∷ 10 ∷ rest) (omega arith) in
      let size = item_size-digits ds some_digit all_digits small in
      let big : leb (digits 0 ds + 1 + length ds + 2 + 2) 5 ≡ false = ground arith in
      let room : leb cmd_args_max (length vs) ≡ false = ground arith in
      let lacks : ltb total (0 + (digits 0 ds + 1 + length ds + 2 + 2)) ≡ true = ground arith in
      let self : (p == p) ≡ true = ground arith in
      let all : total - 0 ≡ total = omega arith in
      rw (before_end, dollar, end, line, size, big, room, lacks, self, all) refl

module _ {ℓ} {P E S D : Type ℓ} (api : Api S) (send_proc : P) (client : E) (dict : Dict D)
    (stale : Items → Bytes) (malloc : List (ℕ × Items) → ℕ) where
  start-holding :
      (total p n : ℕ) (vs : List Bytes) (s : Session P E S D)
      → length vs < n
      → start api send_proc client dict stale malloc total 0 (holding p (command n vs) s)
        ≡ proceed 0 (holding p (command n vs) s)
  unfolding start
  start-holding total p n vs s lacks =
      let self : (p == p) ≡ true = ground arith in
      let missing_items : leb n (length vs) ≡ false = ground arith in
      rw (self, missing_items, start) refl

  item_loop-accepted :
      (fuel total p n : ℕ) (vs : List Bytes) (s t : Session P E S D)
      → length vs < n
      → one_item total 0 p (command n vs) (holding p (command n vs) s) ≡ accepted t
      → item_loop (suc fuel) total 0 (holding p (command n vs) s) ≡ accepted t
  unfolding item_loop
  item_loop-accepted fuel total p n vs s t lacks one =
      let self : (p == p) ≡ true = ground arith in
      let missing_items : leb n (length vs) ≡ false = ground arith in
      rw (self, missing_items, one, item_loop) refl

  check_loop-accepted :
      (fuel total p n : ℕ) (vs : List Bytes) (s t : Session P E S D)
      → length vs < n
      → one_item total 0 p (command n vs) (holding p (command n vs) s) ≡ accepted t
      → check_loop api send_proc client dict stale malloc
          (suc fuel)
          total
          0
          (holding p (command n vs) s)
        ≡ accepted t
  unfolding check_loop
  check_loop-accepted fuel total p n vs s t lacks one =
      rw
        (
          start-holding total p n vs s lacks,
          item_loop-accepted fuel total p n vs s t lacks one,
          check_loop,
        )
        refl

  -- While a command is being received, bytes come that are the first of an item's line, at least '$', but not the end of
  -- the line; and in the array an earlier reading has left digits and the end of a line behind them. Then
  -- _check_cmd_complete2 takes the item's length from the old digits.
  pub stale_line_is_read :
      (total p n : ℕ) (vs : List Bytes) (ds rest : Bytes) (s : Session P E S D)
      → 0 < total
      → total ≤ 1 + length ds
      → 0 < length ds
      → AllDigits ds
      → digits 0 ds + length ds + 5 ≤ int_max
      → s.recv_cmd ≡ 36 ∷ ds ++ 13 ∷ 10 ∷ rest
      → length vs < n
      → n ≤ cmd_args_max
      → check_cmd_complete api send_proc client dict stale malloc total (holding p (command n vs) s)
        ≡ accepted
            (record (holding p
              (partial n vs (digits 0 ds + 1 + length ds + 2 + 2) total (take total s.recv_cmd))
              s) { recv_pos = 0 })
  unfolding check_cmd_complete
  stale_line_is_read total p n vs ds rest s some_byte short some_digit all_digits small here lacks
        few =
      check_loop-accepted (recv_cmd_length + 1) total p n vs s _ lacks (
        one_item-stale total p n vs ds rest s some_byte short some_digit all_digits small here
          (omega arith))
