-- ===== src/Tests/Queues.antt =====
-- The client list and the queues of the servers, with nodes at addresses 1, 2 and 3.
use bo_atom.Prelude.{ℕ, ◌≡◌, refl, Option, none, some, List, [], ◌∷◌, ◌==◌, if◌then◌else◌, ◌>>=◌}
use bo_atom.Server.Clients.{Client, client, Clients, client_delete}
use bo_atom.Server.Clients.Refines.{IsList}
use bo_atom.Server.Clients.Delete.{client_delete-IsList}
use bo_atom.KeyValue.Queue.{Node, queued, Queue, response_insert, cmd_insert}
use bo_atom.KeyValue.Queue.Responses.{Chain, IsQueue, response_insert-IsQueue}
use bo_atom.KeyValue.Queue.Commands.{cmd_insert_loses_second}

-- three clients, of which 1 and 2 are in the list
abbrev memory : ℕ → Option (Client ℕ)
memory i =
    if i == 1
    then some (client (some 2) none 10)
    else if i == 2
    then some (client none (some 1) 20)
    else if i == 3
    then some (client none none 30)
    else none

abbrev two_clients : Clients ℕ
two_clients = record { nodes = memory; queue = some 1 }

abbrev entries : List (ℕ × ℕ)
entries = (1, 10) ∷ (2, 20) ∷ []

two_clients-IsList : IsList two_clients entries
two_clients-IsList = record {
  start = refl;
  linked = (refl, (refl, tt));
  distinct = ((refl, tt), (tt, tt));
}

client_delete-IsList_example :
    (c' : Clients ℕ) × (client_delete 2 two_clients ≡ some c')
    × IsList c' ((1, 10) ∷ [])
    × (c'.nodes 2 ≡ none)
client_delete-IsList_example =
    client_delete-IsList memory ((1, 10) ∷ []) [] (2, 20) two_clients-IsList

-- three nodes, of which 1 is in the queue
abbrev heap : ℕ → Option (Node ℕ)
heap i =
    if i == 1
    then some (queued none 10)
    else if i == 2
    then some (queued none 20)
    else if i == 3
    then some (queued none 30)
    else none

abbrev one_queued : Queue ℕ
one_queued = record { nodes = heap; head = some 1; tail = some 1 }

abbrev none_queued : Queue ℕ
none_queued = record { nodes = heap; head = none; tail = none }

one_queued-IsQueue : IsQueue one_queued ((1, 10) ∷ [])
one_queued-IsQueue = record { front = refl; back = refl; chain = (refl, tt); distinct = (tt, tt) }

none_queued-IsQueue : IsQueue none_queued []
none_queued-IsQueue = record { front = refl; back = refl; chain = tt; distinct = tt }

response_insert-IsQueue_example :
    (q : Queue ℕ) × (response_insert 2 one_queued ≡ some q) × IsQueue q ((1, 10) ∷ (2, 20) ∷ [])
response_insert-IsQueue_example =
    response_insert-IsQueue one_queued ((1, 10) ∷ []) 2 (queued none 20) one_queued-IsQueue refl
      (refl, tt)

cmd_insert_loses_second_example :
    (q : Queue ℕ) × ((cmd_insert 2 one_queued >>= cmd_insert 3) ≡ some q)
    × (q.head ≡ some 1)
    × Chain q.nodes ((1, 10) ∷ (3, 30) ∷ [])
cmd_insert_loses_second_example =
    cmd_insert_loses_second one_queued (1, 10) (2, 20) (3, 30) none none one_queued-IsQueue refl
      refl ((refl, (refl, tt)), ((refl, tt), (tt, tt)))
