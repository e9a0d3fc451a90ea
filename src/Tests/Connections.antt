-- ===== src/Tests/Connections.antt =====
-- Two connections that the sequence server accepts, and one that it deletes.
use bo_atom.Prelude.{
  ℕ, ◌≡◌, refl, true, false, Option, none, some, List, [], ◌∷◌, ◌==◌, if◌then◌else◌, arith,
}
use bo_atom.Ae.Mask.{both}
use bo_atom.Ae.Files.{Api, FileTable, unset, delete_file_event}
use bo_atom.Ae.Timers.{Timers, stamp}
use bo_atom.Ae.Timers.Ids
use bo_atom.Ae.Timers.Ids.{live}
use bo_atom.Server.Clients.{Client, client}
use bo_atom.Server.Clients.Refines.{IsList}
use bo_atom.Server.Connections.{
  Stat, new_stat, Accepted, World, server_accept_handle, delete_client,
}
use bo_atom.Server.Connections.Accepts.{joined, registrations, server_accept_handle-joined}
use bo_atom.Server.Connections.Removal.{delete_client-live}

abbrev pub layer : Api ℕ
layer = record {
  add_event = λ s old fd m. some s;
  del_event = λ s old fd m. s;
  resize = λ s n. some s;
}

abbrev pub no_files : FileTable ℕ ℕ ℕ
no_files = record { maxfd = none; setsize = 2; events = unset ∷ unset ∷ []; apidata = 0 }

-- the timer that the server's start-up made, with the first identifier
abbrev one_timer : Timers ℕ ℕ ℕ
one_timer = record {
  head =
      record {
        id = some 0;
        when = stamp 3 0;
        time_proc = 7;
        finalizer_proc = none;
        client_data = 1;
      }
      ∷ [];
  next_id = 1;
  last_time = 0;
}

one_timer-IsValid : Ids.IsValid one_timer
unfolding live
one_timer-IsValid = record { once = λ i. ground arith; fresh = λ i h. ground arith }

abbrev empty : World ℕ ℕ ℕ ℕ ℕ
empty = record {
  clients = record { nodes = λ i. none; queue = none };
  files = no_files;
  timers = one_timer;
  closed = [];
}

abbrev answers : List Accepted
answers =
    record { fd = 1; port = 80; nonblock_ok = true; address = 10 }
    ∷ record { fd = 2; port = 81; nonblock_ok = true; address = 11 }
    ∷ record { fd = 3; port = 82; nonblock_ok = false; address = 12 }
    ∷ []

server_accept_handle-joined_example :
    (w' : World ℕ ℕ ℕ ℕ ℕ) × (server_accept_handle layer 5 (λ a. a) answers empty ≡ some w')
    × IsList w'.clients (joined answers [])
    × (w'.files ≡ registrations layer 5 (λ a. a) answers no_files)
server_accept_handle-joined_example =
    server_accept_handle-joined layer 5 (λ a. a) answers empty []
      (record { start = refl; linked = tt; distinct = tt })
      (tt, ((refl, tt), ((refl, (refl, tt)), tt)))

abbrev one_client : ℕ → Option (Client Stat)
one_client i = if i == 10 then some (client none none (new_stat 1 80)) else none

delete_client-live_example :
    (w' : World ℕ ℕ ℕ ℕ ℕ) × (delete_client layer 10 (record {
      clients = record { nodes = one_client; queue = some 10 };
      files = no_files;
      timers = one_timer;
      closed = [];
    })
      ≡ some w')
    × IsList w'.clients []
    × (w'.closed ≡ 1 ∷ [])
    × (w'.files ≡ delete_file_event layer no_files 1 both)
    × ((j : ℕ) → live j w'.timers.head ≡ (if 0 == j then 0 else live j one_timer.head))
delete_client-live_example =
    delete_client-live layer one_client [] [] 10 1 80 no_files one_timer []
      (record { start = refl; linked = (refl, tt); distinct = (tt, tt) }) one_timer-IsValid
