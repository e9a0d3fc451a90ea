-- ===== src/Server/Connections/Removal.antt =====
-- clientDelete of a client as server_accept_handle makes it deletes the time event 0.
use bo_atom.Prelude.{
  ℕ, ◌≡◌, refl, ◌∙◌, zero, suc, replicate, Bool-cases, inl, inr, Option, none, some, List, [], ◌∷◌,
  ◌++◌, ◌==◌, if◌then◌else◌,
}
use bo_atom.Ae.Mask.{both}
use bo_atom.Ae.Files.{Api, FileTable, delete_file_event}
use bo_atom.Ae.Timers.{Timers, delete_time_event}
use bo_atom.Ae.Timers.Ids
use bo_atom.Ae.Timers.Ids.{live, delete_time-IsValid}
use bo_atom.Server.Clients.{Client}
use bo_atom.Server.Clients.Refines.{IsList, first}
use bo_atom.Server.Clients.Delete.{client_delete-IsList, stored_client}
use bo_atom.Server.Connections.{Stat, new_stat, World, drop_timers, delete_client}

module _ {ℓ} {T F D : Type ℓ} where
  -- Deleting the event 0 any positive number of times deletes it, and no other.
  drop_timers-live :
      (n : ℕ) (ts : Timers T F D) (j : ℕ)
      → Ids.IsValid ts
      → live j (drop_timers (some 0 ∷ replicate n (some 0)) ts).head
        ≡ (if 0 == j then 0 else live j ts.head)
  unfolding drop_timers
  drop_timers-live zero ts j v = (delete_time-IsValid ts v 0).2 j
  drop_timers-live (suc n) ts j v =
      let d = delete_time-IsValid ts v 0 in
      drop_timers-live n (delete_time_event ts 0).0 j d.0 ∙ elim (Bool-cases (0 == j)) [
        | inl zero_id ↦ rw zero_id
        | inr other ↦ rw other (d.2 j ∙ rw other)
      ]

module _ {ℓ} {P T F D S : Type ℓ} (api : Api S) where
  -- When the client list is sound, clientDelete of a client as server_accept_handle made it follows
  -- no bad pointer, takes the client out of the list, closes its descriptor once and drops its
  -- registrations. As `memset` left 0 in time_event_id, it also deletes the time event 0, whoever
  -- created it, and no other event.
  pub delete_client-live :
      (h : ℕ → Option (Client Stat)) (front back : List (ℕ × Stat)) (x fd port : ℕ)
      (files : FileTable P D S) (timers : Timers T F D) (closed : List ℕ)
      → IsList
          (record { nodes = h; queue = first (front ++ (x, new_stat fd port) ∷ back) })
          (front ++ (x, new_stat fd port) ∷ back)
      → Ids.IsValid timers
      → (w' : World P T F D S) × (delete_client api x (record {
        clients = record { nodes = h; queue = first (front ++ (x, new_stat fd port) ∷ back) };
        files = files;
        timers = timers;
        closed = closed;
      })
          ≡ some w')
        × IsList w'.clients (front ++ back)
        × (w'.closed ≡ closed ++ fd ∷ [])
        × (w'.files ≡ delete_file_event api files fd both)
        × ((j : ℕ) → live j w'.timers.head ≡ (if 0 == j then 0 else live j timers.head))
  unfolding delete_client
  delete_client-live h front back x fd port files timers closed l v =
      let e : ℕ × Stat = (x, new_stat fd port) in
      let (c, run, l', freed) = client_delete-IsList h front back e l in
      let (u, stored) = stored_client h none front back e l.linked in
      let w' : World P T F D S = record {
        clients = c;
        files = delete_file_event api files fd both;
        closed = closed ++ fd ∷ [];
        timers = drop_timers (replicate 5 (some 0)) timers;
      } in
      (w', rw (stored, run), l', refl, refl, λ j. drop_timers-live 4 timers j v)
