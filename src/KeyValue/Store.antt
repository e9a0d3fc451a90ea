-- ===== src/KeyValue/Store.antt =====
-- The commands of Z_my_work_mem/cmd.c over the dictionary of redis_dict: SET_cmd, GET_cmd, ALL_cmd.
pub mod Meaning
pub mod Batch
pub mod Blocks
pub mod Requests
use bo_atom.Prelude.{
  ℕ, zero, suc, ◌-◌, Bool, true, false, ◌&&◌, ◌||◌, not, Option, none, some, List, [], ◌∷◌, ◌++◌,
  ◌==◌, leb, ltb, if◌then◌else◌, take, length,
}
use bo_atom.KeyValue.Items.{Items, value_at, length_at, pos_at, cmd_complete}

-- Bytes, compared as memcmp does.
abbrev pub Bytes : Type 0
Bytes = List ℕ

abbrev pub same_bytes : Bytes → Bytes → Bool
same_bytes [] [] = true
same_bytes (x ∷ xs) (y ∷ ys) = x == y && same_bytes xs ys
same_bytes _ _ = false

-- DictItem: an address and a length.
pub record DictItem : Type 0 where
  pub item : ℕ
  pub length : ℕ

-- The dictionary: dictFind, dictAdd (none when the key is there), dictReplace. A value that is found is
-- an address and a length; `load` gives the bytes at an address, and none when the block there is
-- freed.
pub record Dict {ℓ} (D : Type ℓ) : Type ℓ where
  pub find : D → Bytes → Option DictItem
  pub load : D → ℕ → Option Bytes
  pub add : D → Bytes → Bytes → Option D
  pub replace : D → Bytes → Bytes → D

-- "*1\r\n$2\r\nOK\r\n" and "*1\r\nS3\r\nERR\r\n"
abbrev pub set_ok_str : Bytes
set_ok_str = 42 ∷ 49 ∷ 13 ∷ 10 ∷ 36 ∷ 50 ∷ 13 ∷ 10 ∷ 79 ∷ 75 ∷ 13 ∷ 10 ∷ []

abbrev pub set_err_str : Bytes
set_err_str = 42 ∷ 49 ∷ 13 ∷ 10 ∷ 83 ∷ 51 ∷ 13 ∷ 10 ∷ 69 ∷ 82 ∷ 82 ∷ 13 ∷ 10 ∷ []

-- "*1\r\n"
abbrev pub num_1 : Bytes
num_1 = 42 ∷ 49 ∷ 13 ∷ 10 ∷ []

-- "$3\r\nSET\r\n", "$3\r\nset\r\n", "$3\r\nGET\r\n", "$3\r\nget\r\n", each with its final NUL
abbrev pub upper_set : Bytes
upper_set = 36 ∷ 51 ∷ 13 ∷ 10 ∷ 83 ∷ 69 ∷ 84 ∷ 13 ∷ 10 ∷ 0 ∷ []

abbrev pub lower_set : Bytes
lower_set = 36 ∷ 51 ∷ 13 ∷ 10 ∷ 115 ∷ 101 ∷ 116 ∷ 13 ∷ 10 ∷ 0 ∷ []

abbrev pub upper_get : Bytes
upper_get = 36 ∷ 51 ∷ 13 ∷ 10 ∷ 71 ∷ 69 ∷ 84 ∷ 13 ∷ 10 ∷ 0 ∷ []

abbrev pub lower_get : Bytes
lower_get = 36 ∷ 51 ∷ 13 ∷ 10 ∷ 103 ∷ 101 ∷ 116 ∷ 13 ∷ 10 ∷ 0 ∷ []

-- a response of one item, or of two
abbrev pub reply : Bytes → Items
reply v = record {
  args_num = 1;
  value = v ∷ [];
  item_length = length v ∷ [];
  item_pos = 0 ∷ [];
  cur_item = 0;
}

abbrev pub ok_response : Items
ok_response = reply set_ok_str

abbrev pub err_response : Items
err_response = reply set_err_str

abbrev pub stored_response : Bytes → ℕ → Items
stored_response v n = record {
  args_num = 2;
  value = num_1 ∷ v ∷ [];
  item_length = length num_1 ∷ n ∷ [];
  item_pos = 0 ∷ 0 ∷ [];
  cur_item = 0;
}

abbrev pub read_block : Option Bytes → ℕ → Option Items
read_block none n = none
read_block (some v) n = some (stored_response v n)

-- A Response: it has its own bytes, or its second item is the dictionary's value, which is not copied.
pub data Reply : Type 0 where
  own : Items → Reply
  borrowed : DictItem → Reply

-- the bytes that item `i` of a command stands for
abbrev pub item : Items → ℕ → Bytes
item c i = take (length_at c i) (value_at c i)

-- `memcmp(value, word, length) == 0`, for the first item's length
abbrev pub is_word : ℕ → Bytes → Bytes → Bool
is_word n value word = same_bytes (take n value) (take n word)

abbrev pub is_set_word : ℕ → Bytes → Bool
is_set_word n value = is_word n value upper_set || is_word n value lower_set

abbrev pub is_get_word : ℕ → Bytes → Bool
is_get_word n value = is_word n value upper_get || is_word n value lower_get

-- `cmd(client) == tmp`
abbrev pub is_current : ℕ → Option ℕ → Bool
is_current p none = false
is_current p (some q) = q == p

module _ {ℓ} {D : Type ℓ} (dict : Dict D) where
  -- SET_cmd
  unfoldable pub set_cmd : Items → D → D × Reply
  set_cmd c d =
      if not (c.args_num == 3)
      then (d, own err_response)
      else (elim (dict.add d (item c 1) (item c 2)) [
        | some d' ↦ (d', own ok_response)
        | none ↦ (dict.replace d (item c 1) (item c 2), own ok_response)
      ])

  -- GET_cmd
  unfoldable pub get_cmd : Items → D → Reply
  get_cmd c d =
      if not (c.args_num == 2) && not (c.args_num == 3)
      then own err_response
      else (elim (dict.find d (item c 1)) [ none ↦ own err_response | some v ↦ borrowed v ])

  -- The items of a response at the time at which the dictionary is `d`; none where they are read from
  -- a block that is freed.
  abbrev pub read_reply : D → Reply → Option Items
  read_reply d (own i) = some i
  read_reply d (borrowed v) = read_block (dict.load d v.item) v.length

  -- the first test of ALL_cmd for a complete command
  try_set : Items → D → D × Option Reply
  unfolding set_cmd
  try_set c d =
      if is_set_word (length_at c 0) (value_at c 0)
      then ((set_cmd c d).0, some (set_cmd c d).1)
      else (d, none)

  -- What the second test reads as the first item: SET_cmd of three items has freed it, and then it
  -- reads `stale`.
  second_read : (Items → Bytes) → Items → Bytes
  second_read stale c =
      if is_set_word (length_at c 0) (value_at c 0) && (c.args_num == 3)
      then stale c
      else value_at c 0

  -- both tests
  unfoldable pub run_cmd : (Items → Bytes) → Items → D → D × Option Reply
  unfolding try_set second_read get_cmd
  run_cmd stale c d =
      let (d', res) = try_set c d in
      if is_get_word (length_at c 0) (second_read stale c)
      then (d', some (get_cmd c d'))
      else (d', res)

  -- ResponseInsert, which does nothing for NULL
  abbrev pub insert : List Reply → Option Reply → List Reply
  insert rs none = rs
  insert rs (some r) = rs ++ r ∷ []

  -- The loop of ALL_cmd over the queue, with the addresses of the commands; `current` is the address
  -- of the command that is being received, if any.
  unfoldable pub run_all :
      (Items → Bytes) → Option ℕ → List (ℕ × Items) → D → List Reply → D × List Reply
  unfolding run_cmd
  run_all stale current [] d rs = (d, rs)
  run_all stale current (c ∷ cs) d rs =
      let skipped = run_all stale current cs d rs in
      let (d', res) = run_cmd stale c.1 d in
      let ran = run_all stale current cs d' (insert rs res) in
      if cmd_complete c.1 && ltb 0 c.1.args_num && not (is_current c.0 current)
      then ran
      else skipped

-- the loop that deletes complete commands from the head
unfoldable pub drop_complete : List (ℕ × Items) → List (ℕ × Items)
drop_complete [] = []
drop_complete (c ∷ cs) = let rest = drop_complete cs in if cmd_complete c.1 then rest else c ∷ cs

module _ {ℓ} {D : Type ℓ} (dict : Dict D) where
  -- ALL_cmd: the commands left, the dictionary, and the responses
  unfoldable pub all_cmd :
      (Items → Bytes)
      → Option ℕ
      → List (ℕ × Items)
      → D
      → List Reply
      → List (ℕ × Items) × D × List Reply
  unfolding run_all drop_complete
  all_cmd stale current cs d rs =
      let (d', rs') = run_all dict stale current cs d rs in (drop_complete cs, d', rs')
