-- ===== src/Upgrade/Header/Replaces.antt =====
-- add_hisiHead leaves nothing open, keeps the file when it fails, and puts the header in front of it
-- when it succeeds.
use bo_atom.Prelude.{
  ℕ, zero, suc, ◌-◌, ◌≤◌, Bool, Option, none, if◌then◌else◌, Option-cases, ◌≡◌, refl, sym, ap, ◌∙◌,
  true, false, some, List, [], ◌∷◌, ◌++◌, ◌==◌, length, take, replicate, arith, Bool-cases, inl,
  inr, length-append, length-replicate, take-append, drop-append,
}
use mathlib.Core.List.{append_assoc, append-nil}
use mathlib.Core.Bool.{true≢false}
use mathlib.Core.Path.{subst}
use bo_atom.Upgrade.Header.{
  Md5, Files, Outcomes, held, close_positive, Done, fail, copy, overwrite, fill, add_hisi_head,
  upgrade_head, head_length, magic_string_header,
}

-- the bytes of the blocks, in order
abbrev pub contents : List (List ℕ × ℕ) → List ℕ
contents [] = []
contents (b ∷ bs) = b.0 ++ contents bs

-- `write` takes every block whole.
abbrev pub AllTaken : List (List ℕ × ℕ) → Type 0
AllTaken [] = Unit
AllTaken (b ∷ bs) = (b.1 ≡ length b.0) × AllTaken bs

module _ {ℓ} {C : Type ℓ} (md5 : Md5 C) where
  abbrev pub digest : List (List ℕ × ℕ) → C → List ℕ
  digest [] c = md5.final c
  digest (b ∷ bs) c = digest bs (md5.update c b.0)

  copy-contents :
      (bs : List (List ℕ × ℕ)) (written : List ℕ) (c : C)
      → AllTaken bs
      → (copy md5 bs written c).0 ≡ written ++ contents bs
  unfolding copy
  copy-contents [] written c h = sym (append-nil written)
  copy-contents (b ∷ bs) written c h =
      copy-contents bs (written ++ take b.1 b.0) (md5.update c b.0) h.1
      ∙ append_assoc written (take b.1 b.0) (contents bs)
      ∙ ap (λ l. written ++ (l ++ contents bs)) (ap (λ k. take k b.0) (h.0) ∙ take-whole b.0)
    where
      take-whole : (v : List ℕ) → take (length v) v ≡ v
      take-whole [] = refl
      take-whole (x ∷ v) = ap (λ l. x ∷ l) (take-whole v)

  copy-digest :
      (bs : List (List ℕ × ℕ)) (written : List ℕ) (c : C)
      → md5.final (copy md5 bs written c).1 ≡ digest bs c
  unfolding copy
  copy-digest [] written c = refl
  copy-digest (b ∷ bs) written c = copy-digest bs (written ++ take b.1 b.0) (md5.update c b.0)

length-upgrade_head :
    (version md5 : List ℕ)
    → length version ≤ 32
    → length md5 ≡ 16
    → length (upgrade_head version md5) ≡ 128
length-upgrade_head version md5 h e =
    let zero_byte : ℕ = 0 in
    let padded = version ++ replicate (32 - length version) 0 in
    omega (
      arith,
      length-append version (replicate (32 - length version) zero_byte),
      length-replicate (32 - length version) zero_byte,
      length-append magic_string_header padded,
      length-append (magic_string_header ++ padded) md5,
      length-append (magic_string_header ++ padded ++ md5) (replicate 72 zero_byte),
    )

-- the two descriptors that are opened: the second only if there is a buffer and the first
abbrev pub opened_src : Outcomes → Option ℕ
opened_src o = if o.malloc_ok then o.src_fd else none

abbrev pub opened_dst : Outcomes → Option ℕ
opened_dst o = elim (opened_src o) [ none ↦ none | some s ↦ o.dst_fd ]

-- The part of an opened descriptor that stays open: the whole of it after a failure if it is 0.
abbrev pub stays : Bool → Option ℕ → Option ℕ
stays true fd = none
stays false none = none
stays false (some zero) = some 0
stays false (some (suc n)) = none

-- The buffer is freed, and of the descriptors only those that stay are still open; after a failure
-- the file is as it was.
abbrev pub IsReleased : Outcomes → Files → Done → Type 0
IsReleased o fs d =
    (d.left ≡ held (stays d.succeeded (opened_src o)) (stays d.succeeded (opened_dst o)) false)
    × (d.succeeded ≡ false → d.files.file ≡ fs.file)

close_positive-stays : (fd : Option ℕ) → close_positive fd ≡ stays false fd
close_positive-stays none = refl
close_positive-stays (some zero) = refl
close_positive-stays (some (suc n)) = ground arith

fail-IsReleased :
    (o : Outcomes) (src dst : Option ℕ) (buf : Bool) (fs gs : Files)
    → opened_src o ≡ src
    → opened_dst o ≡ dst
    → gs.file ≡ fs.file
    → IsReleased o fs (fail (held src dst buf) gs)
unfolding fail
fail-IsReleased o src dst buf fs gs s d e = (
  simp (s, d, close_positive-stays src, close_positive-stays dst)
      (elim (Bool-cases buf) [ inl b ↦ rw b refl | inr b ↦ rw b refl ]),
  λ f. e,
)

take-exact : (n : ℕ) (xs : List ℕ) → length xs ≡ n → take n xs ≡ xs
take-exact n xs e = ap (take n) (sym (append-nil xs)) ∙ take-append n xs [] (sym e)

-- Writing `head` over a start of the same length keeps what is behind it.
overwrite-start :
    (n : ℕ) (head start rest : List ℕ)
    → length head ≡ n
    → length start ≡ n
    → overwrite n head (take n start ++ rest) ≡ head ++ rest
overwrite-start n head start rest e f =
    rw (take-exact n head e, take-exact n start f)
      (ap (λ l. head ++ l) (drop-append (length head) start rest (e ∙ sym f)))

module _ {ℓ} {C : Type ℓ} (md5 : Md5 C) (version : List ℕ) where
  fill-IsReleased :
      (o : Outcomes) (src dst : ℕ) (fs : Files)
      → opened_src o ≡ some src
      → opened_dst o ≡ some dst
      → IsReleased o fs (fill md5 version src dst o fs)
  unfolding fill
  fill-IsReleased o src dst fs s d =
      let blank = take o.head_taken (upgrade_head version (replicate 16 0)) in
      let (written, c) = copy md5 o.blocks blank md5.init in
      let final = overwrite o.final_taken (upgrade_head version (md5.final c)) written in
      let fails = λ (gs : Files) (e : gs.file ≡ fs.file).
        fail-IsReleased o (some src) (some dst) true fs gs s d e in
      elim (Bool-cases (o.head_taken == head_length)) [
        | inr short ↦ simp short (fails (record fs { tmp = some blank }) refl)
        | inl whole ↦ elim (Bool-cases o.seek_ok) [
          | inr stuck ↦ simp (whole, stuck) (fails (record fs { tmp = some written }) refl)
          | inl sought ↦ elim (Bool-cases (o.final_taken == head_length)) [
            | inr short ↦ simp (whole, sought, short) (fails (record fs { tmp = some final }) refl)
            | inl full ↦ simp (whole, sought, full) (refl, λ h. absurd (true≢false h))
          ]
        ]
      ]

  -- On every outcome the buffer is freed. When add_hisiHead returns 0, both descriptors are closed.
  -- When it returns -1, the descriptors that it opened are closed except for descriptor 0, which stays
  -- open, and the file itself is as it was.
  pub add_hisi_head-IsReleased :
      (o : Outcomes) (fs : Files) → IsReleased o fs (add_hisi_head md5 version o fs)
  unfolding add_hisi_head
  add_hisi_head-IsReleased o fs = elim (Bool-cases o.malloc_ok) [
    | inr fails ↦
        ends (fail (held none none false) fs) (rw fails refl)
          (fail-IsReleased o none none false fs fs (rw fails refl) (rw fails refl) refl)
    | inl got ↦ elim (Option-cases o.src_fd) [
      | inl fails ↦ ends (fail (held none none true) fs) (rw (got, fails) refl) (
          fail-IsReleased o none none true fs fs (rw (got, fails) refl) (rw (got, fails) refl) refl)
      | inr (s, src) ↦ elim (Option-cases o.dst_fd) [
        | inl fails ↦ ends (fail (held (some s) none true) fs) (rw (got, src, fails) refl) (
            fail-IsReleased o (some s) none true fs fs (rw (got, src) refl)
              (rw (got, src, fails) refl) refl)
        | inr (d, dst) ↦
            ends (fill md5 version s d o fs) (rw (got, src, dst) refl)
              (fill-IsReleased o s d fs (rw (got, src) refl) (rw (got, src, dst) refl))
      ]
    ]
  ]
    where
      ends :
          (d : Done)
          → add_hisi_head md5 version o fs ≡ d
          → IsReleased o fs d
          → IsReleased o fs (add_hisi_head md5 version o fs)
      ends d e h = subst (λ d. IsReleased o fs d) (sym e) h

  -- When every call succeeds, the version fits its field and a digest has 16 bytes, add_hisiHead
  -- returns 0 with the file replaced by the header, which holds the digest of the blocks read, and
  -- the bytes of these blocks.
  pub add_hisi_head-replaces :
      (o : Outcomes) (fs : Files) (src dst : ℕ)
      → o.malloc_ok ≡ true
      → o.src_fd ≡ some src
      → o.dst_fd ≡ some dst
      → o.head_taken ≡ 128
      → o.seek_ok ≡ true
      → o.final_taken ≡ 128
      → AllTaken o.blocks
      → length version ≤ 32
      → ((c : C) → length (md5.final c) ≡ 16)
      → ((add_hisi_head md5 version o fs).succeeded ≡ true)
        × ((add_hisi_head md5 version o fs).files.file
            ≡ some (upgrade_head version (digest md5 o.blocks md5.init) ++ contents o.blocks))
  unfolding add_hisi_head fill
  add_hisi_head-replaces o fs src dst m s d h k f taken fits sixteen =
      rw (m, s, d, h, k, f) (refl, ap some rewritten)
    where
      blank : List ℕ
      blank = upgrade_head version (replicate 16 0)

      head : C → List ℕ
      head c = upgrade_head version (md5.final c)

      rewritten :
          overwrite 128
            (head (copy md5 o.blocks (take 128 blank) md5.init).1)
            (copy md5 o.blocks (take 128 blank) md5.init).0
          ≡ upgrade_head version (digest md5 o.blocks md5.init) ++ contents o.blocks
      rewritten =
          ap (overwrite 128 (head (copy md5 o.blocks (take 128 blank) md5.init).1))
            (copy-contents md5 o.blocks (take 128 blank) md5.init taken)
          ∙ overwrite-start 128 (head (copy md5 o.blocks (take 128 blank) md5.init).1) blank
              (contents o.blocks)
              (length-upgrade_head version
                (md5.final (copy md5 o.blocks (take 128 blank) md5.init).1) fits
                (sixteen (copy md5 o.blocks (take 128 blank) md5.init).1))
              (length-upgrade_head version (replicate 16 0) fits refl)
          ∙ ap (λ l. upgrade_head version l ++ contents o.blocks)
              (copy-digest md5 o.blocks (take 128 blank) md5.init)
