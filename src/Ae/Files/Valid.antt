-- ===== src/Ae/Files/Valid.antt =====
-- The registration array of ae/ae.c is well formed, and stays so: every slot is in bounds, and
-- `maxfd` is the largest descriptor with a non-empty mask.
use bo_atom.Prelude.{
  ◌⊎◌, ℕ, zero, suc, ◌-◌, ◌≤◌, ◌<◌, ◌≡◌, true, false, Option, none, some, List, length, set, inl,
  inr, Bool-cases, ◌==◌, ◌&&◌, not, ltb, leb, ◌∙◌, Option-cases, if◌then◌else◌, arith, length-set,
  get_or-set,
}
use bo_atom.Ae.Mask.{Mask, is_set, is_set-without}
use bo_atom.Ae.Files.{
  ae_ok, ae_err, FileEvent, Api, FileTable, unset, mask_at, event_at, without_bits, above, after,
  last_set, register, unregister, is_top, create_file_event, delete_file_event,
}

-- `m` is the largest descriptor of `es` with a non-empty mask, or `none` if there is none
abbrev pub IsTop {ℓ} : {P D : Type ℓ} → List (FileEvent P D) → Option ℕ → Type 0
IsTop es none = (fd : ℕ) → is_set (mask_at es fd) ≡ false
IsTop es (some m) =
    (is_set (mask_at es m) ≡ true) × ((fd : ℕ) → m < fd → is_set (mask_at es fd) ≡ false)

pub record IsValid {ℓ} {P D S : Type ℓ} (t : FileTable P D S) : Type ℓ where
  pub sized : length t.events ≡ t.setsize
  pub top : IsTop t.events t.maxfd

module _ {ℓ} {P D : Type ℓ} where
  pub mask_at-set :
      (es : List (FileEvent P D)) (i j : ℕ) (e : FileEvent P D)
      → i < length es
      → mask_at (set es i e) j ≡ (if i == j then e.mask else mask_at es j)
  mask_at-set es i j e h = ground (arith, get_or-set es i j e unset)

  -- The scan finds the largest registered descriptor below its start.
  last_set-IsTop :
      (k : ℕ) (es : List (FileEvent P D))
      → ((fd : ℕ) → k ≤ fd → is_set (mask_at es fd) ≡ false)
      → IsTop es (last_set k es)
  unfolding last_set
  last_set-IsTop zero es clear = λ fd. clear fd (omega arith)
  last_set-IsTop (suc j) es clear = elim (Bool-cases (is_set (mask_at es j))) [
    | inl found ↦ rw found (found, λ fd h. clear fd h)
    | inr empty ↦ rw empty (
        last_set-IsTop j es (λ fd h. elim (Bool-cases (fd == j)) [
          | inl same ↦ let e : fd ≡ j = ground arith in rw e empty
          | inr other ↦ clear fd (ground arith)
        ]))
  ]

  -- Nothing is registered at or above the position after the largest descriptor.
  pub IsTop-after :
      (es : List (FileEvent P D)) (m : Option ℕ) (fd : ℕ)
      → IsTop es m
      → after m ≤ fd
      → is_set (mask_at es fd) ≡ false
  IsTop-after es none fd t h = t fd
  IsTop-after es (some m) fd t h = t.1 fd h

  -- Storing a non-empty mask at `fd` makes the larger of `fd` and the old maximum the new one.
  set-IsTop :
      (es : List (FileEvent P D)) (top : Option ℕ) (fd : ℕ) (e : FileEvent P D)
      → fd < length es
      → is_set e.mask ≡ true
      → IsTop es top
      → IsTop (set es fd e) (if above fd top then some fd else top)
  set-IsTop es none fd e h bit t =
      (rw mask_at-set (ground arith), λ i above. ground (arith, mask_at-set es fd i e, t i))
  set-IsTop es (some m) fd e h bit t = elim (Bool-cases (ltb m fd)) [
    | inl higher ↦ rw higher (
      ground (arith, mask_at-set es fd fd e),
      λ i past. ground (arith, mask_at-set es fd i e, t.1 i),
    )
    | inr lower ↦ rw lower (
      ground (arith, mask_at-set es fd m e, t.0),
      λ i past. ground (arith, mask_at-set es fd i e, t.1 i),
    )
  ]

  -- Storing a mask that is no larger keeps the maximum, unless it empties the maximum's slot.
  shrink-IsTop :
      (es : List (FileEvent P D)) (top : Option ℕ) (fd : ℕ) (e : FileEvent P D)
      → fd < length es
      → (is_set e.mask ≡ true → is_set (mask_at es fd) ≡ true)
      → IsTop es top
      → IsTop (set es fd e) (
          if is_top fd top && not (is_set e.mask)
          then last_set (after top - 1) (set es fd e)
          else top)
  shrink-IsTop es none fd e h less t = λ i. ground (arith, mask_at-set es fd i e, t i, t fd, less)
  shrink-IsTop es (some m) fd e h less t = elim (Bool-cases (fd == m && not (is_set e.mask))) [
    | inl emptied ↦ rw emptied (
        last_set-IsTop (suc m - 1) (set es fd e)
          λ i past. ground (arith, mask_at-set es fd i e, t.1 i))
    | inr kept ↦ rw kept (
      ground (arith, mask_at-set es fd m e, t.0),
      λ i past. ground (arith, mask_at-set es fd i e, t.1 i),
    )
  ]

module _ {ℓ} {P D S : Type ℓ} (api : Api S) (t : FileTable P D S) (v : IsValid t) (fd : ℕ) where
  register-IsValid :
      (m : Mask) (proc : P) (arg : D) (s : S)
      → is_set m ≡ true
      → fd < t.setsize
      → IsValid (register api t fd m proc arg s)
  unfolding register
  register-IsValid m proc arg s bit h = record {
    sized = length-set t.events fd _ ∙ v.sized;
    top = set-IsTop t.events t.maxfd fd _ (omega (arith, v.sized)) (ground arith) v.top;
  }

  -- Either nothing changed, or the descriptor is in range and registered.
  pub create-cases :
      (m : Mask) (proc : P) (arg : D)
      → (create_file_event api t fd m proc arg ≡ (t, ae_err))
        ⊎ ((s : S) × (create_file_event api t fd m proc arg
              ≡ (register api t fd m proc arg s, ae_ok))
            × (fd < t.setsize))
  unfolding create_file_event
  create-cases m proc arg = elim (Bool-cases (leb t.setsize fd)) [
    | inl high ↦ inl (rw high)
    | inr low ↦ elim (Option-cases (api.add_event t.apidata (mask_at t.events fd) fd m)) [
      | inl fails ↦ inl (rw (low, fails))
      | inr (s, added) ↦ inr (s, rw (low, added), ground arith)
    ]
  ]

  pub create-IsValid :
      (m : Mask) (proc : P) (arg : D)
      → is_set m ≡ true
      → IsValid (create_file_event api t fd m proc arg).0
  unfolding create_file_event
  create-IsValid m proc arg bit = elim (Bool-cases (leb t.setsize fd)) [
    | inl high ↦ rw high v
    | inr low ↦ rw low (elim (Option-cases (api.add_event t.apidata (mask_at t.events fd) fd m)) [
      | inl fails ↦ rw fails v
      | inr (s, added) ↦ rw added (register-IsValid m proc arg s bit (ground arith))
    ])
  ]

  unregister-IsValid : (m : Mask) → fd < t.setsize → IsValid (unregister api t fd m)
  unfolding unregister
  unregister-IsValid m h = record {
    sized = length-set t.events fd _ ∙ v.sized;
    top =
        shrink-IsTop t.events t.maxfd fd (without_bits (event_at t.events fd) m)
          (omega (arith, v.sized)) (is_set-without (mask_at t.events fd) m) v.top;
  }

  pub delete-IsValid : (m : Mask) → IsValid (delete_file_event api t fd m)
  unfolding delete_file_event
  delete-IsValid m = ground (arith, v, unregister-IsValid m)
