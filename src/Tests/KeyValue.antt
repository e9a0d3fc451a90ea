-- ===== src/Tests/KeyValue.antt =====
-- Commands and responses of the key-value server: SET of a key of one byte, then GET of it.
use bo_atom.Prelude.{ℕ, ◌≡◌, refl, none, List, [], ◌∷◌, ◌++◌, true, arith, map, take}
use bo_atom.KeyValue.Items.{Items, cmd_complete}
use bo_atom.KeyValue.Send.{send_response_handle, took, finished}
use bo_atom.KeyValue.Send.Full.{fresh, send_response_handle-finished, second_piece_repeats}
use bo_atom.KeyValue.Store.{Bytes, Reply, all_cmd, upper_set, upper_get}
use bo_atom.KeyValue.Store.Meaning.{value_of}
use bo_atom.KeyValue.Store.Requests.{Op, put, fetch, Map, AllAnswered, last_map}
use bo_atom.KeyValue.Store.Batch.{all_cmd-responses}
use bo_atom.Tests.Dictionary.{heap_dict, heap_dict-IsDict, IsHeap, no_blocks, no_blocks-IsHeap}

send_response_handle-finished_example :
    send_response_handle
      (map fresh (((1 ∷ 2 ∷ []) ∷ (3 ∷ []) ∷ []) ∷ ((4 ∷ []) ∷ []) ∷ []))
      (took 2 ∷ took 1 ∷ took 1 ∷ [])
    ≡ finished (1 ∷ 2 ∷ 3 ∷ 4 ∷ [])
send_response_handle-finished_example =
    send_response_handle-finished (((1 ∷ 2 ∷ []) ∷ (3 ∷ []) ∷ []) ∷ ((4 ∷ []) ∷ []) ∷ [])
      ((omega arith, (omega arith, tt)), ((omega arith, tt), tt))

second_piece_repeats_example :
    send_response_handle
      (record {
        args_num = 1;
        value = (5 ∷ 6 ∷ 7 ∷ []) ∷ [];
        item_length = 3 ∷ [];
        item_pos = 0 ∷ [];
        cur_item = 0;
      }
        ∷ [])
      (took 2 ∷ took 1 ∷ [])
    ≡ finished (5 ∷ 6 ∷ 5 ∷ [])
second_piece_repeats_example = second_piece_repeats (5 ∷ 6 ∷ 7 ∷ []) 2 (omega arith) (omega arith)

abbrev set_key : Items
set_key = record {
  args_num = 3;
  value = take 9 upper_set ∷ (107 ∷ []) ∷ (118 ∷ 119 ∷ []) ∷ [];
  item_length = 9 ∷ 1 ∷ 2 ∷ [];
  item_pos = 9 ∷ 1 ∷ 2 ∷ [];
  cur_item = 3;
}

abbrev get_key : Items
get_key = record {
  args_num = 2;
  value = take 9 upper_get ∷ (107 ∷ []) ∷ [];
  item_length = 9 ∷ 1 ∷ [];
  item_pos = 9 ∷ 1 ∷ [];
  cur_item = 2;
}

-- freed memory that reads as zeros
abbrev pub zero_memory : Items → Bytes
zero_memory c = 0 ∷ 0 ∷ 0 ∷ 0 ∷ 0 ∷ 0 ∷ 0 ∷ 0 ∷ 0 ∷ []

abbrev key : Bytes
key = 107 ∷ []

abbrev word : Bytes
word = 118 ∷ 119 ∷ []

complete_set : cmd_complete set_key ≡ true
unfolding cmd_complete
complete_set = refl

complete_get : cmd_complete get_key ≡ true
unfolding cmd_complete
complete_get = refl

-- the value is set, asked for, and set again before the response is sent
abbrev queue : List (ℕ × Items)
queue = (1, set_key) ∷ (2, get_key) ∷ (3, set_key) ∷ []

abbrev operations : List Op
operations = put key word ∷ fetch key ∷ put key word ∷ []

abbrev before_all : Map
before_all = value_of heap_dict no_blocks

all_cmd-responses_example :
    (new : List Reply) × ((all_cmd heap_dict zero_memory none queue no_blocks []).0 ≡ [])
    × (value_of heap_dict (all_cmd heap_dict zero_memory none queue no_blocks []).1
        ≡ last_map operations before_all)
    × ((all_cmd heap_dict zero_memory none queue no_blocks []).2 ≡ [] ++ new)
    × AllAnswered heap_dict
        (all_cmd heap_dict zero_memory none queue no_blocks []).1
        operations
        before_all
        new
all_cmd-responses_example =
    all_cmd-responses heap_dict IsHeap heap_dict-IsDict zero_memory queue operations no_blocks []
      no_blocks-IsHeap
      (
        complete_set,
        (refl, refl, refl, refl, refl),
        (
          complete_get,
          (refl, refl, refl, refl),
          (complete_set, (refl, refl, refl, refl, refl), tt),
        ),
      )
