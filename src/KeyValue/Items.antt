-- ===== src/KeyValue/Items.antt =====
-- The fields that Cmd and Response of Z_my_work_mem/tcp_server.h share: a row of items, each with its
-- bytes, its length, and how many of its bytes were received or sent.
use bo_atom.Prelude.{ℕ, ◌-◌, Bool, false, List, [], get_or, leb, ◌==◌, if◌then◌else◌}

pub record Items : Type 0 where
  pub args_num : ℕ
  pub value : List (List ℕ)
  pub item_length : List ℕ
  pub item_pos : List ℕ
  pub cur_item : ℕ

abbrev pub value_at : Items → ℕ → List ℕ
value_at c i = get_or c.value i []

abbrev pub length_at : Items → ℕ → ℕ
length_at c i = get_or c.item_length i 0

abbrev pub pos_at : Items → ℕ → ℕ
pos_at c i = get_or c.item_pos i 0

-- CmdComplete, of a command that is not NULL
unfoldable pub cmd_complete : Items → Bool
cmd_complete c =
    if c.args_num == 0
    then false
    else leb (length_at c (c.args_num - 1)) (pos_at c (c.args_num - 1))
