-- ===== src/Ae/Files/Resize.antt =====
-- aeResizeSetSize keeps the registration array well formed and changes no mask.
use bo_atom.Prelude.{
  ℕ, zero, suc, ◌-◌, ◌≤◌, ◌<◌, ◌≡◌, refl, true, Option, none, some, List, [], ◌∷◌, length, take,
  inl, inr, Bool-cases, replicate, ◌++◌, ◌==◌, ltb, ap, ◌∙◌, Option-cases, if◌then◌else◌, arith,
  sym, tests, ltb→lt, length-append, length-take, length-replicate, get_or-append, get_or-take,
  get_or-replicate, get_or-beyond,
}
use mathlib.Core.Path.{fun_ext}
use bo_atom.Ae.Mask.{eq_none, ae_none}
use bo_atom.Ae.Files.{
  FileEvent, Api, FileTable, unset, mask_at, above, after, clear_from, resized, resize_set_size,
}
use bo_atom.Ae.Files.Valid.{IsTop, IsValid, IsTop-after}

module _ {ℓ} {P D : Type ℓ} where
  mask_at-clear_from :
      (k : ℕ) (es : List (FileEvent P D)) (i : ℕ)
      → mask_at (clear_from k es) i ≡ (if ltb i k then mask_at es i else ae_none)
  unfolding clear_from
  mask_at-clear_from k [] i = ground arith
  mask_at-clear_from zero (e ∷ es) zero = ground arith
  mask_at-clear_from zero (e ∷ es) (suc i) = ground (arith, mask_at-clear_from zero es i)
  mask_at-clear_from (suc k) (e ∷ es) zero = ground arith
  mask_at-clear_from (suc k) (e ∷ es) (suc i) = ground (arith, mask_at-clear_from k es i)

  length-clear_from : (k : ℕ) (es : List (FileEvent P D)) → length (clear_from k es) ≡ length es
  unfolding clear_from
  length-clear_from k [] = refl
  length-clear_from zero (e ∷ es) = ap suc (length-clear_from zero es)
  length-clear_from (suc k) (e ∷ es) = ap suc (length-clear_from k es)

  -- Clearing the slots from `after top` on of an array that agrees below keeps the maximum.
  clear_from-IsTop :
      (es fs : List (FileEvent P D)) (top : Option ℕ)
      → ((i : ℕ) → i < after top → mask_at fs i ≡ mask_at es i)
      → IsTop es top
      → IsTop (clear_from (after top) fs) top
  clear_from-IsTop es fs none same t = λ i. ground (arith, mask_at-clear_from 0 fs i)
  clear_from-IsTop es fs (some m) same t = (
    ground (arith, mask_at-clear_from (suc m) fs m, same m, t.0),
    λ i past. ground (arith, mask_at-clear_from (suc m) fs i),
  )

  mask_at-realloc :
      (es : List (FileEvent P D)) (n i : ℕ)
      → i < n
      → mask_at (take n es ++ replicate (n - length es) unset) i ≡ mask_at es i
  mask_at-realloc es n i h =
      let u : FileEvent P D = unset in
      let kept = take n es in
      let fresh = replicate (n - length es) u in
      ground (
        arith,
        get_or-append kept fresh i u,
        get_or-take n es i u,
        length-take n es,
        get_or-replicate (n - length es) (i - length kept) u,
        get_or-beyond es i u,
      )

module _ {ℓ} {P D S : Type ℓ} (api : Api S) (t : FileTable P D S) (v : IsValid t) (n : ℕ) where
  after-le-of-above : (top : Option ℕ) → above n top ≡ true → after top ≤ n
  after-le-of-above none h = omega arith
  after-le-of-above (some m) h = ground arith

  resize-grown :
      (s : S)
      → above n t.maxfd ≡ true
      → IsValid (record t { events = resized api t n; setsize = n; apidata = s })
  unfolding resized
  resize-grown s fits = record {
    sized =
        length-clear_from (after t.maxfd) _
        ∙ omega (
          arith,
          length-append (take n t.events) (replicate (n - length t.events) unset),
          length-take n t.events,
          length-replicate {A = FileEvent P D} (n - length t.events) unset,
        );
    top =
        clear_from-IsTop t.events _ t.maxfd
          (λ i h. mask_at-realloc t.events n i (omega (arith, after-le-of-above t.maxfd fits)))
          v.top;
  }

  -- `realloc` and the clearing loop change no mask.
  pub masks-resized : above n t.maxfd ≡ true → mask_at (resized api t n) ≡ mask_at t.events
  unfolding resized
  masks-resized fits = fun_ext λ i. elim (Bool-cases (ltb i (after t.maxfd))) [
    | inl kept ↦
        mask_at-clear_from (after t.maxfd) _ i
        ∙ rw kept (
            mask_at-realloc t.events n i
              (omega (tests, after-le-of-above t.maxfd fits, ltb→lt i (after t.maxfd) kept)))
    | inr cleared ↦
        mask_at-clear_from (after t.maxfd) _ i
        ∙ rw cleared (sym (eq_none _ (IsTop-after t.events t.maxfd i v.top (ground arith))))
  ]

  pub resize-IsValid : IsValid (resize_set_size api t n).0
  unfolding resize_set_size
  resize-IsValid = elim (Bool-cases (n == t.setsize)) [
    | inl same ↦ rw same v
    | inr other ↦ rw other (elim (Bool-cases (above n t.maxfd)) [
      | inr low ↦ rw low v
      | inl fits ↦ rw fits (elim (Option-cases (api.resize t.apidata n)) [
        | inl fails ↦ rw fails v
        | inr (s, grown) ↦ rw grown (resize-grown s fits)
      ])
    ])
  ]
