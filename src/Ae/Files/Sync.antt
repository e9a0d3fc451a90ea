-- ===== src/Ae/Files/Sync.antt =====
-- The polling layer watches what the array of ae/ae.c registers, with any layer that keeps to the
-- laws below. The layers of ae/ae_select.c and ae/ae_epoll.c are instances in `Ae.Backends`.
use bo_atom.Prelude.{
  ℕ, ◌≡◌, false, ◌==◌, leb, if◌then◌else◌, some, inl, inr, Bool-cases, Option-cases, arith, true,
  set,
}
use mathlib.Core.Path.{fun_ext}
use bo_atom.Ae.Mask.{Mask, mask_or, mask_without, is_set}
use bo_atom.Ae.Files.{
  FileEvent, Api, FileTable, mask_at, event_at, with_bits, without_bits, create_file_event,
  delete_file_event, register, unregister, resize_set_size, resized, above,
}
use bo_atom.Ae.Files.Valid.{IsValid, mask_at-set}
use bo_atom.Ae.Files.Resize.{masks-resized}

-- `f` with the mask `m` at `fd`
abbrev pub at_fd : (ℕ → Mask) → ℕ → Mask → ℕ → Mask
at_fd f fd m i = if fd == i then m else f i

-- `Watches s f`: in state `s` the layer watches descriptor `i` for the events `f i`.
pub record IsLayer {ℓ} {S : Type ℓ} (api : Api S) (Watches : S → (ℕ → Mask) → Type 0) : Type ℓ where
  pub adds :
      (s s' : S) (f : ℕ → Mask) (fd : ℕ) (m : Mask)
      → is_set m ≡ true
      → api.add_event s (f fd) fd m ≡ some s'
      → Watches s f
      → Watches s' (at_fd f fd (mask_or (f fd) m))
  pub dels :
      (s : S) (f : ℕ → Mask) (fd : ℕ) (m : Mask)
      → is_set (f fd) ≡ true
      → Watches s f
      → Watches (api.del_event s (f fd) fd m) (at_fd f fd (mask_without (f fd) m))
  pub resizes :
      (s s' : S) (f : ℕ → Mask) (n : ℕ) → api.resize s n ≡ some s' → Watches s f → Watches s' f

module _ {ℓ} {P D S : Type ℓ} (api : Api S) (Watches : S → (ℕ → Mask) → Type 0)
    (layer : IsLayer api Watches) (t : FileTable P D S) (v : IsValid t) where
  abbrev pub IsSynced : FileTable P D S → Type 0
  IsSynced u = Watches u.apidata (mask_at u.events)

  masks-set :
      (fd : ℕ) (e : FileEvent P D)
      → leb t.setsize fd ≡ false
      → at_fd (mask_at t.events) fd e.mask ≡ mask_at (set t.events fd e)
  masks-set fd e low = fun_ext λ i. ground (arith, mask_at-set t.events fd i e, v.sized)

  pub create-IsSynced :
      (fd : ℕ) (m : Mask) (proc : P) (arg : D)
      → is_set m ≡ true
      → IsSynced t
      → IsSynced (create_file_event api t fd m proc arg).0
  unfolding create_file_event register
  create-IsSynced fd m proc arg bit w = elim (Bool-cases (leb t.setsize fd)) [
    | inl high ↦ rw high w
    | inr low ↦ rw low (elim (Option-cases (api.add_event t.apidata (mask_at t.events fd) fd m)) [
      | inl fails ↦ rw fails w
      | inr (s, added) ↦ rw added (
          rw (masks-set fd (with_bits (event_at t.events fd) m proc arg) low) at
            (layer.adds t.apidata s (mask_at t.events) fd m bit added w))
    ])
  ]

  pub delete-IsSynced : (fd : ℕ) (m : Mask) → IsSynced t → IsSynced (delete_file_event api t fd m)
  unfolding delete_file_event unregister
  delete-IsSynced fd m w = elim (Bool-cases (leb t.setsize fd)) [
    | inl high ↦ rw high w
    | inr low ↦ rw low (elim (Bool-cases (is_set (mask_at t.events fd))) [
      | inr empty ↦ rw empty w
      | inl used ↦ rw used (
          rw (masks-set fd (without_bits (event_at t.events fd) m) low) at
            (layer.dels t.apidata (mask_at t.events) fd m used w))
    ])
  ]

  pub resize-IsSynced : (n : ℕ) → IsSynced t → IsSynced (resize_set_size api t n).0
  unfolding resize_set_size
  resize-IsSynced n w = elim (Bool-cases (n == t.setsize)) [
    | inl same ↦ rw same w
    | inr other ↦ rw other (elim (Bool-cases (above n t.maxfd)) [
      | inr low ↦ rw low w
      | inl fits ↦ rw fits (elim (Option-cases (api.resize t.apidata n)) [
        | inl fails ↦ rw fails w
        | inr (s, grown) ↦ rw grown (
            layer.resizes t.apidata s (mask_at (resized api t n)) n grown
              (rw (masks-resized api t v n fits) w))
      ])
    ])
  ]
