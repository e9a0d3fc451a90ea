-- ===== src/KeyValue/Receive/Rows.antt =====
-- The loop of _check_cmd_complete2 over the items of a command, on bytes that hold all of them.
use bo_atom.Prelude.{
  ℕ, zero, suc, ◌+◌, ◌-◌, ◌≤◌, ◌<◌, ◌≡◌, refl, sym, ap, ◌∙◌, true, false, some, List, [], ◌∷◌, ◌++◌,
  ◌==◌, leb, ltb, arith, length, take, drop, get_or, take-append, drop-append, append_snoc,
  length-append,
}
use mathlib.Core.List.{append_assoc, append-nil}
use bo_atom.KeyValue.Items.{Items}
use bo_atom.KeyValue.Store.{Bytes}
use bo_atom.KeyValue.Receive.{one_item, item_loop, store_item}
use bo_atom.KeyValue.Receive.State.{Session, proceed, put_at, cmd_args_max, recv_cmd_length}
use bo_atom.KeyValue.Receive.Lines.{line_end, ends_at, digits, item_size}
use bo_atom.KeyValue.Receive.Strings.{
  AllDigits, line_end-dollar, item_size-digits, drop-drop, get_or-drop,
}

-- An item: the digits of its length, and its bytes.
pub record Arg : Type 0 where
  pub size : List ℕ
  pub body : Bytes

-- "$size\r\nbody\r\n"
abbrev pub bytes_of : Arg → Bytes
bytes_of a = 36 ∷ a.size ++ (13 ∷ 10 ∷ (a.body ++ 13 ∷ 10 ∷ []))

pub record IsArg (a : Arg) : Type 0 where
  pub some_digit : 0 < length a.size
  pub all_digits : AllDigits a.size
  pub value : digits 0 a.size ≡ length a.body

abbrev pub AllArgs : List Arg → Type 0
AllArgs [] = Unit
AllArgs (a ∷ args) = IsArg a × AllArgs args

abbrev pub args_bytes : List Arg → Bytes
args_bytes [] = []
args_bytes (a ∷ args) = bytes_of a ++ args_bytes args

abbrev pub values_of : List Arg → List Bytes
values_of [] = []
values_of (a ∷ args) = bytes_of a ∷ values_of args

abbrev pub lengths : List Bytes → List ℕ
lengths [] = []
lengths (v ∷ vs) = length v ∷ lengths vs

-- The command of `n` items of which the first, with these bytes, are there in full.
abbrev pub command : ℕ → List Bytes → Items
command n vs = record {
  args_num = n;
  value = vs;
  item_length = lengths vs;
  item_pos = lengths vs;
  cur_item = length vs;
}

pub put_at-end {ℓ} :
    {A : Type ℓ} (d : A) (xs : List A) (v : A) → put_at d xs (length xs) v ≡ xs ++ v ∷ []
put_at-end d [] v = refl
put_at-end d (x ∷ xs) v = ap (λ l. x ∷ l) (put_at-end d xs v)

pub length-lengths : (vs : List Bytes) → length (lengths vs) ≡ length vs
length-lengths [] = refl
length-lengths (v ∷ vs) = ap suc (length-lengths vs)

lengths-snoc : (vs : List Bytes) (v : Bytes) → lengths (vs ++ v ∷ []) ≡ lengths vs ++ length v ∷ []
lengths-snoc [] v = refl
lengths-snoc (w ∷ vs) v = ap (λ l. length w ∷ l) (lengths-snoc vs v)

length-bytes_of : (a : Arg) → length (bytes_of a) ≡ 1 + length a.size + 2 + length a.body + 2
length-bytes_of a =
    let inner = length-append a.body (13 ∷ 10 ∷ []) in
    length-append (36 ∷ a.size) (13 ∷ 10 ∷ (a.body ++ 13 ∷ 10 ∷ [])) ∙ omega (arith, inner)

bytes-split :
    (a : Arg) (rest : Bytes)
    → bytes_of a ++ rest ≡ 36 ∷ a.size ++ 13 ∷ 10 ∷ (a.body ++ 13 ∷ 10 ∷ rest)
bytes-split a rest =
    append_assoc (36 ∷ a.size) (13 ∷ 10 ∷ (a.body ++ 13 ∷ 10 ∷ [])) rest
    ∙ ap (λ l. (36 ∷ a.size) ++ 13 ∷ 10 ∷ l) (append_assoc a.body (13 ∷ 10 ∷ []) rest)

-- The command with one more item.
command-snoc :
    (n : ℕ) (vs : List Bytes) (v : Bytes)
    → (record (command n vs) {
      value = put_at [] vs (length vs) v;
      item_length = put_at 0 (lengths vs) (length vs) (length v);
      item_pos = put_at 0 (lengths vs) (length vs) (length v);
      cur_item = length vs + 1;
    })
      ≡ command n (vs ++ v ∷ [])
command-snoc n vs v =
    let at_end = put_at-end 0 (lengths vs) (length v) in
    let lens : put_at 0 (lengths vs) (length vs) (length v) ≡ lengths (vs ++ v ∷ []) =
      ap (λ k. put_at 0 (lengths vs) k (length v)) (sym (length-lengths vs))
      ∙ at_end
      ∙ sym (lengths-snoc vs v) in
    let count : length vs + 1 ≡ length (vs ++ v ∷ []) = sym (length-append vs (v ∷ [])) in
    rw (put_at-end [] vs v, lens, count) refl

module _ {ℓ} {P E S D : Type ℓ} where
  -- the session in which the command `c` at `p` is the only one, and is being received
  abbrev pub holding : ℕ → Items → Session P E S D → Session P E S D
  holding p c s = record s { current = some p; cmds = (p, c) ∷ []; tail = some p }

  one_item-command :
      (total pre p n : ℕ) (vs : List Bytes) (a : Arg) (rest : Bytes) (s : Session P E S D)
      → IsArg a
      → drop pre s.recv_cmd ≡ bytes_of a ++ rest
      → pre + length (bytes_of a) ≤ total
      → total ≤ recv_cmd_length
      → length vs < cmd_args_max
      → one_item total pre p (command n vs) (holding p (command n vs) s)
        ≡ proceed (pre + length (bytes_of a)) (holding p (command n (vs ++ bytes_of a ∷ [])) s)
  unfolding one_item store_item
  one_item-command total pre p n vs a rest s v here fits small few =
      let open_line = here ∙ bytes-split a rest in
      let sep : Bytes = 13 ∷ 10 ∷ (a.body ++ 13 ∷ 10 ∷ rest) in
      let next : drop (pre + 1) s.recv_cmd ≡ a.size ++ sep =
        drop-drop pre 1 s.recv_cmd ∙ ap (λ l. drop 1 l) open_line in
      let total_bytes = length-bytes_of a in
      let before_end : leb total pre ≡ false = ground (arith, fits, total_bytes) in
      let dollar : get_or s.recv_cmd pre 0 ≡ 36 =
        get_or-drop pre s.recv_cmd (a.size ++ sep) 36 0 open_line in
      let end : line_end pre (drop pre s.recv_cmd) ≡ ends_at (pre + 1 + length a.size) =
        ap (line_end pre) open_line
        ∙ line_end-dollar pre a.size (a.body ++ 13 ∷ 10 ∷ rest) v.all_digits in
      let line : take (pre + 1 + length a.size - (pre + 1)) (drop (pre + 1) s.recv_cmd) ≡ a.size =
        ap (λ l. take (pre + 1 + length a.size - (pre + 1)) l) next
        ∙ take-append (pre + 1 + length a.size - (pre + 1)) a.size sep (omega arith) in
      let size : item_size a.size ≡ some (length (bytes_of a)) =
        item_size-digits a.size v.some_digit v.all_digits
          (omega (arith, v.value, fits, small, total_bytes))
        ∙ ap some (omega (arith, v.value, total_bytes)) in
      let big : leb (length (bytes_of a)) 5 ≡ false = ground (arith, total_bytes, v.some_digit) in
      let room : leb cmd_args_max (length vs) ≡ false = ground arith in
      let whole : ltb total (pre + length (bytes_of a)) ≡ false = ground (arith, fits) in
      let text : take (length (bytes_of a)) (drop pre s.recv_cmd) ≡ bytes_of a =
        ap (λ l. take (length (bytes_of a)) l) here
        ∙ take-append (length (bytes_of a)) (bytes_of a) rest refl in
      let self : (p == p) ≡ true = ground arith in
      rw (before_end, dollar, end, line, size, big, room, whole, text, self)
        (ap (λ c. proceed (pre + length (bytes_of a)) (holding p c s))
          (command-snoc n vs (bytes_of a)))

  -- The loop comes to the end of the last item with the command complete.
  pub item_loop-args :
      (args : List Arg) (fuel total pre p n : ℕ) (vs : List Bytes) (rest : Bytes)
      (s : Session P E S D)
      → AllArgs args
      → drop pre s.recv_cmd ≡ args_bytes args ++ rest
      → pre + length (args_bytes args) ≤ total
      → total ≤ recv_cmd_length
      → n ≡ length vs + length args
      → n < cmd_args_max
      → length args < fuel
      → item_loop fuel total pre (holding p (command n vs) s)
        ≡ proceed (pre + length (args_bytes args)) (holding p (command n (vs ++ values_of args)) s)
  unfolding item_loop
  item_loop-args args zero total pre p n vs rest s v here fits small count few fuelled =
      absurd (omega arith)
  item_loop-args [] (suc fuel) total pre p n vs rest s v here fits small count few fuelled =
      let done : leb n (length vs) ≡ true = ground arith in
      let self : (p == p) ≡ true = ground arith in
      rw (self, done, item_loop)
        (rw (append-nil vs) (ap (λ k. proceed k (holding p (command n vs) s)) (omega arith)))
  item_loop-args (a ∷ args) (suc fuel) total pre p n vs rest s v here fits small count few fuelled =
      let more : leb n (length vs) ≡ false = ground arith in
      let both = length-append (bytes_of a) (args_bytes args) in
      let here' = here ∙ append_assoc (bytes_of a) (args_bytes args) rest in
      let one =
        one_item-command total pre p n vs a (args_bytes args ++ rest) s v.0 here'
          (omega (arith, fits, both)) small (omega arith) in
      let next =
        drop-drop pre (length (bytes_of a)) s.recv_cmd
        ∙ ap (λ l. drop (length (bytes_of a)) l) here'
        ∙ drop-append (length (bytes_of a)) (bytes_of a) (args_bytes args ++ rest) refl in
      let rest_run =
        item_loop-args args fuel total (pre + length (bytes_of a)) p n (vs ++ bytes_of a ∷ []) rest
          s v.1 next (omega (arith, fits, both)) small
          (omega (arith, length-append vs (bytes_of a ∷ []))) few (omega arith) in
      let self : (p == p) ≡ true = ground arith in
      rw (self, more, one, item_loop)
        (rest_run
          ∙ rw (append_snoc vs (values_of args) (bytes_of a)) (
              ap (λ k. proceed k (holding p (command n (vs ++ bytes_of a ∷ values_of args)) s))
                (omega (arith, both))))
