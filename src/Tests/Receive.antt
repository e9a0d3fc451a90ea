-- ===== src/Tests/Receive.antt =====
-- A client of the key-value server that sends SET and GET of a key.
use bo_atom.Prelude.{
  ℕ, ◌+◌, ◌≤◌, ◌≡◌, ◌≢◌, refl, none, List, [], ◌∷◌, ◌++◌, arith, length, replicate,
}
use bo_atom.KeyValue.Items.{Items}
use bo_atom.KeyValue.Store.{Bytes, Reply}
use bo_atom.KeyValue.Store.Requests.{Op, put, fetch, AllAsk, AllAnswered, last_map}
use bo_atom.KeyValue.Receive.{check_cmd_complete}
use bo_atom.KeyValue.Receive.State.{Session, accepted, endless, proceed}
use bo_atom.KeyValue.Receive.Lines.{digits}
use bo_atom.KeyValue.Receive.Rows.{Arg, bytes_of, IsArg, command, holding}
use bo_atom.KeyValue.Receive.Whole.{
  Request, IsRequest, requests_bytes, commands_of, command_of_complete, idle,
}
use bo_atom.KeyValue.Receive.Pipelined.{Served, check_cmd_complete-run_all}
use bo_atom.KeyValue.Receive.Handler.{World, took, would_block, waiting, recv_cmd_handle}
use bo_atom.KeyValue.Receive.Serving.{answers_of, joined, ready, recv_cmd_handle-responses}
use bo_atom.KeyValue.Receive.Pieces.{arriving, item_whole, recv_cmd_handle-pieces}
use bo_atom.KeyValue.Receive.Fuel.{check_cmd_complete-ends}
use bo_atom.KeyValue.Receive.Stale.{partial, stale_line_is_read}
use bo_atom.Tests.Connections.{layer, no_files}
use bo_atom.KeyValue.Store.Meaning.{value_of}
use bo_atom.Tests.Dictionary.{
  Heap, heap_dict, heap_dict-IsDict, IsHeap, no_blocks, no_blocks-IsHeap,
}
use bo_atom.Tests.KeyValue.{zero_memory}

abbrev arg : List ℕ → Bytes → Arg
arg ds bytes = record { size = ds; body = bytes }

-- "*3\r\n$3\r\nset\r\n$1\r\nk\r\n$2\r\nvw\r\n"
abbrev set_request : Request
set_request = record {
  count = 51 ∷ [];
  args =
      arg (51 ∷ []) (115 ∷ 101 ∷ 116 ∷ [])
      ∷ arg (49 ∷ []) (107 ∷ [])
      ∷ arg (50 ∷ []) (118 ∷ 119 ∷ [])
      ∷ [];
}

-- "*2\r\n$3\r\nget\r\n$1\r\nk\r\n"
abbrev get_request : Request
get_request = record {
  count = 50 ∷ [];
  args = arg (51 ∷ []) (103 ∷ 101 ∷ 116 ∷ []) ∷ arg (49 ∷ []) (107 ∷ []) ∷ [];
}

one_digit :
    (d : ℕ) (bytes : Bytes)
    → (48 ≤ d) × (d ≤ 57)
    → d ≡ 48 + length bytes
    → IsArg (arg (d ∷ []) bytes)
unfolding digits
one_digit d bytes range size = record {
  some_digit = omega arith;
  all_digits = (ground arith, tt);
  value = ground arith;
}

set_request-IsRequest : IsRequest set_request
unfolding digits
set_request-IsRequest = record {
  some_digit = omega arith;
  all_digits = (refl, tt);
  value = refl;
  some_arg = omega arith;
  all_args = (
    one_digit 51 (115 ∷ 101 ∷ 116 ∷ []) (omega arith, omega arith) refl,
    (
      one_digit 49 (107 ∷ []) (omega arith, omega arith) refl,
      (one_digit 50 (118 ∷ 119 ∷ []) (omega arith, omega arith) refl, tt),
    ),
  );
}

get_request-IsRequest : IsRequest get_request
unfolding digits
get_request-IsRequest = record {
  some_digit = omega arith;
  all_digits = (refl, tt);
  value = refl;
  some_arg = omega arith;
  all_args = (
    one_digit 51 (103 ∷ 101 ∷ 116 ∷ []) (omega arith, omega arith) refl,
    (one_digit 49 (107 ∷ []) (omega arith, omega arith) refl, tt),
  );
}

abbrev session : Session ℕ ℕ ℕ Heap
session = record {
  fd = 1;
  recv_cmd = replicate 64 0;
  recv_pos = 0;
  current = none;
  cmds = [];
  tail = none;
  responses = [];
  store = no_blocks;
  files = no_files;
}

abbrev address_7 : List (ℕ × Items) → ℕ
address_7 cs = 7

abbrev received : Session ℕ ℕ ℕ Heap
received = record session {
  recv_cmd = requests_bytes (set_request ∷ get_request ∷ []) ++ replicate 16 0;
}

check_cmd_complete-run_all_example :
    (t : Session ℕ ℕ ℕ Heap) × (check_cmd_complete layer 8 9 heap_dict zero_memory address_7
        (length (requests_bytes (set_request ∷ get_request ∷ [])))
        (idle received)
      ≡ accepted (record (idle t) { recv_pos = 0 }))
    × Served layer 8 9 heap_dict zero_memory address_7 (set_request ∷ get_request ∷ []) received t
check_cmd_complete-run_all_example =
    check_cmd_complete-run_all layer 8 9 heap_dict zero_memory address_7 (get_request ∷ [])
      set_request (replicate 16 0) received (set_request-IsRequest, (get_request-IsRequest, tt))
      refl (omega arith)

abbrev key : Bytes
key = bytes_of (arg (49 ∷ []) (107 ∷ []))

abbrev word : Bytes
word = bytes_of (arg (50 ∷ []) (118 ∷ 119 ∷ []))

abbrev operations : List Op
operations = put key word ∷ fetch key ∷ []

abbrev readings : List (List Request)
readings = (set_request ∷ []) ∷ (get_request ∷ []) ∷ []

operations-AllAsk : AllAsk zero_memory (commands_of (joined readings)) operations
operations-AllAsk = (
  command_of_complete set_request (omega arith),
  (refl, refl, refl, refl, refl),
  (command_of_complete get_request (omega arith), (refl, refl, refl, refl), tt),
)

abbrev world : World ℕ ℕ ℕ Heap ℕ
world = record {
  session = session;
  clients = record { nodes = λ i. none; queue = none };
  closed = [];
}

recv_cmd_handle-responses_example :
    (t : Session ℕ ℕ ℕ Heap) × (recv_cmd_handle layer 5 8 9 heap_dict zero_memory address_7
        (answers_of readings)
        (record world { session = ready session })
      ≡ waiting (record world { session = ready t }))
    × (value_of heap_dict t.store ≡ last_map operations (value_of heap_dict no_blocks))
    × (new : List Reply) × (t.responses ≡ [] ++ new)
    × AllAnswered heap_dict t.store operations (value_of heap_dict no_blocks) new
recv_cmd_handle-responses_example =
    recv_cmd_handle-responses layer 5 8 9 heap_dict zero_memory address_7 IsHeap heap_dict-IsDict
      readings operations world session no_blocks-IsHeap
      (
        record {
          some_request = omega arith;
          all_requests = (set_request-IsRequest, tt);
          fits = omega arith;
        },
        (
          record {
            some_request = omega arith;
            all_requests = (get_request-IsRequest, tt);
            fits = omega arith;
          },
          tt,
        ),
      )
      operations-AllAsk

check_cmd_complete-ends_example :
    (check_cmd_complete layer 8 9 heap_dict zero_memory address_7 48 received ≢ endless)
    × ((pre : ℕ) (t : Session ℕ ℕ ℕ Heap)
        → check_cmd_complete layer 8 9 heap_dict zero_memory address_7 48 received ≢ proceed pre t)
check_cmd_complete-ends_example =
    check_cmd_complete-ends layer 8 9 heap_dict zero_memory address_7 48 received (omega arith)

-- '$' has come, and "3\r\n" is old
abbrev old_line : Session ℕ ℕ ℕ Heap
old_line = record session { recv_cmd = 36 ∷ 51 ∷ 13 ∷ 10 ∷ replicate 60 0 }

stale_line_is_read_example :
    check_cmd_complete layer 8 9 heap_dict zero_memory address_7 1
      (holding 7 (command 3 []) old_line)
    ≡ accepted
        (record (holding 7
          (partial 3 [] (digits 0 (51 ∷ []) + 1 + 1 + 2 + 2) 1 (36 ∷ []))
          old_line) { recv_pos = 0 })
unfolding digits
stale_line_is_read_example =
    stale_line_is_read layer 8 9 heap_dict zero_memory address_7 1 7 3 [] (51 ∷ []) (replicate 60 0)
      old_line (omega arith) (omega arith) (omega arith) (refl, tt) (omega arith) refl (omega arith)
      (omega arith)

-- the key comes in two pieces behind its first byte
recv_cmd_handle-pieces_example :
    recv_cmd_handle layer 5 8 9 heap_dict zero_memory address_7
      (took (49 ∷ 13 ∷ 10 ∷ []) ∷ took (107 ∷ 13 ∷ 10 ∷ []) ∷ would_block ∷ [])
      (record world { session = holding 7 (arriving 3 [] 7 (36 ∷ [])) session })
    ≡ recv_cmd_handle layer 5 8 9 heap_dict zero_memory address_7
        (would_block ∷ [])
        (record world { session = item_whole layer 8 9 heap_dict zero_memory 7 3 [] 7 key session })
recv_cmd_handle-pieces_example =
    recv_cmd_handle-pieces layer 5 8 9 heap_dict zero_memory address_7 (49 ∷ 13 ∷ 10 ∷ [])
      ((107 ∷ 13 ∷ 10 ∷ []) ∷ []) 7 3 7 [] (36 ∷ []) (would_block ∷ []) world session
      (omega arith, (omega arith, tt)) refl (omega arith) (omega arith)
