-- ===== src/Server/Connections/Accepts.antt =====
-- Every connection that is accepted is in the client list, and the registrations stay sound.
use bo_atom.Prelude.{
  ℕ, ◌≡◌, refl, ap, ◌∙◌, none, some, List, [], ◌∷◌, if◌then◌else◌, Bool-cases, inl, inr,
}
use bo_atom.Ae.Mask.{ae_readable}
use bo_atom.Ae.Files.{Api, FileTable, create_file_event}
use bo_atom.Server.Clients.{client, put}
use bo_atom.Server.Clients.Refines.{IsList, Absent, put-Linked, put-same, client_add-IsList}
use bo_atom.Server.Connections.{Stat, new_stat, Accepted, World, accept_one, server_accept_handle}

-- The abstract list after the answers, up to the first for which anetNonBlock fails.
abbrev pub joined : List Accepted → List (ℕ × Stat) → List (ℕ × Stat)
joined [] es = es
joined (a ∷ rest) es =
    if a.nonblock_ok then joined rest ((a.address, new_stat a.fd a.port) ∷ es) else es

-- The registrations after the answers, up to the first for which anetNonBlock fails: each accepted
-- descriptor is registered as readable, with the reading procedure and its own client.
abbrev pub registrations {ℓ} :
    {P D S : Type ℓ} → Api S → P → (ℕ → D) → List Accepted → FileTable P D S → FileTable P D S
registrations api recv_proc as_data [] t = t
registrations api recv_proc as_data (a ∷ rest) t =
    if a.nonblock_ok
    then registrations api recv_proc as_data rest
        (create_file_event api t a.fd ae_readable recv_proc (as_data a.address)).0
    else t

-- malloc gives addresses that are not in the list, and different ones.
abbrev pub AllNew : List Accepted → List (ℕ × Stat) → Type 0
AllNew [] es = Unit
AllNew (a ∷ rest) es = Absent a.address es × AllNew rest ((a.address, new_stat a.fd a.port) ∷ es)

module _ {ℓ} {P T F D S : Type ℓ} (api : Api S) (recv_proc : P) (as_data : ℕ → D) where
  accept_one-IsList :
      (a : Accepted) (w : World P T F D S) (es : List (ℕ × Stat))
      → IsList w.clients es
      → Absent a.address es
      → (w' : World P T F D S) × (accept_one api recv_proc as_data a w ≡ some w')
        × IsList w'.clients ((a.address, new_stat a.fd a.port) ∷ es)
        × (w'.files
            ≡ (create_file_event api w.files a.fd ae_readable recv_proc (as_data a.address)).0)
  unfolding accept_one
  accept_one-IsList a w es l new =
      let fresh = client none none (new_stat a.fd a.port) in
      let h = put w.clients.nodes a.address (some fresh) in
      let (c, added, l') =
        client_add-IsList (record (w.clients) { nodes = h }) es a.address fresh
          (record {
            start = l.start;
            linked = put-Linked w.clients.nodes a.address (some fresh) none es new l.linked;
            distinct = l.distinct;
          })
          (put-same w.clients.nodes a.address (some fresh)) new in
      (
        record w {
          clients = c;
          files = (create_file_event api w.files a.fd ae_readable recv_proc (as_data a.address)).0;
        },
        rw added,
        l',
        refl,
      )

  -- When the client list is sound and malloc gives new addresses, server_accept_handle follows no bad
  -- pointer; the list then has the accepted clients in front, the last one first, up to the
  -- first whose descriptor cannot be made non-blocking, and the registrations are those that
  -- aeCreateFileEvent makes of the same descriptors, in order, each as readable for its client.
  pub server_accept_handle-joined :
      (answers : List Accepted) (w : World P T F D S) (es : List (ℕ × Stat))
      → IsList w.clients es
      → AllNew answers es
      → (w' : World P T F D S) × (server_accept_handle api recv_proc as_data answers w ≡ some w')
        × IsList w'.clients (joined answers es)
        × (w'.files ≡ registrations api recv_proc as_data answers w.files)
  unfolding server_accept_handle
  server_accept_handle-joined [] w es l new = (w, refl, l, refl)
  server_accept_handle-joined (a ∷ rest) w es l new = elim (Bool-cases a.nonblock_ok) [
    | inr fails ↦ rw fails (w, refl, l, refl)
    | inl ok ↦
        let (w₁, run, l₁, r₁) = accept_one-IsList a w es l new.0 in
        let (w₂, run₂, l₂, r₂) =
          server_accept_handle-joined rest w₁ ((a.address, new_stat a.fd a.port) ∷ es) l₁ new.1 in
        rw (ok, run) (w₂, run₂, l₂, r₂ ∙ ap (registrations api recv_proc as_data rest) r₁)
  ]
