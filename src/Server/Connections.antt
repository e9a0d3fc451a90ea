-- ===== src/Server/Connections.antt =====
-- server_accept_handle and clientDelete of Z_my_work_atom/tcp_server.c, with the event loop's state
-- that they change.
pub mod Accepts
pub mod Removal
use bo_atom.Prelude.{
  ℕ, Bool, true, false, Option, none, some, List, [], ◌∷◌, ◌++◌, if◌then◌else◌, replicate, ◌>>=◌,
}
use bo_atom.Ae.Mask.{ae_readable, both}
use bo_atom.Ae.Files.{Api, FileTable, create_file_event, delete_file_event}
use bo_atom.Ae.Timers.{Timers, delete_time_event}
use bo_atom.Server.Clients.{Client, client, Clients, put, client_add, client_delete}

-- The fields of ClientStat that these functions use; an identifier below 0 is none.
pub record Stat : Type 0 where
  pub fd : ℕ
  pub port : ℕ
  pub time_event_id : List (Option ℕ)

-- The client that `memset` and the assignments of server_accept_handle make: every identifier is 0.
abbrev pub new_stat : ℕ → ℕ → Stat
new_stat fd port = record { fd = fd; port = port; time_event_id = replicate 5 (some 0) }

-- One answer of anetTcpAccept, with whether anetNonBlock succeeds and the address that malloc gives.
pub record Accepted : Type 0 where
  pub fd : ℕ
  pub port : ℕ
  pub nonblock_ok : Bool
  pub address : ℕ

-- The clients, the event loop's registrations and timers, and the descriptors closed.
pub record World {ℓ} (P T F D S : Type ℓ) : Type ℓ where
  pub clients : Clients Stat
  pub files : FileTable P D S
  pub timers : Timers T F D
  pub closed : List ℕ

-- the loop over time_event_id in clientDelete
unfoldable pub drop_timers {ℓ} : {T F D : Type ℓ} → List (Option ℕ) → Timers T F D → Timers T F D
drop_timers [] ts = ts
drop_timers (none ∷ ids) ts = drop_timers ids ts
drop_timers (some i ∷ ids) ts = drop_timers ids (delete_time_event ts i).0

module _ {ℓ} {P T F D S : Type ℓ} (api : Api S) (recv_proc : P) (as_data : ℕ → D) where
  -- the part of the loop behind anetNonBlock
  unfoldable pub accept_one : Accepted → World P T F D S → Option (World P T F D S)
  accept_one a w =
      client_add a.address (record (w.clients) {
        nodes = put w.clients.nodes a.address (some (client none none (new_stat a.fd a.port)));
      })
      >>= (λ c. some (record w {
        clients = c;
        files = (create_file_event api w.files a.fd ae_readable recv_proc (as_data a.address)).0;
      }))

  -- server_accept_handle, on the answers of anetTcpAccept before the first that is not positive
  unfoldable pub server_accept_handle : List Accepted → World P T F D S → Option (World P T F D S)
  unfolding accept_one
  server_accept_handle [] w = some w
  server_accept_handle (a ∷ rest) w =
      if a.nonblock_ok then (accept_one a w >>= server_accept_handle rest) else some w

-- clientDelete, of a client that is not NULL
unfoldable pub delete_client {ℓ} :
    {P T F D S : Type ℓ} → Api S → ℕ → World P T F D S → Option (World P T F D S)
unfolding drop_timers
delete_client api tmp w = w.clients.nodes tmp >>= (λ n. client_delete tmp w.clients >>= (λ c.
    some (record {
      clients = c;
      files = delete_file_event api w.files n.stat.fd both;
      closed = w.closed ++ n.stat.fd ∷ [];
      timers = drop_timers n.stat.time_event_id w.timers;
    })))
