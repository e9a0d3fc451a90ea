-- ===== src/Upgrade/Crc/Bitwise.antt =====
-- The table-driven crc32 is the division by the polynomial, one bit at a time.
use bo_atom.Prelude.{
  ℕ, zero, suc, ◌<◌, ◌/◌, ◌≡◌, refl, sym, ap, ◌∙◌, Bool, true, false, not, List, [], ◌∷◌, ◌++◌,
  get_or, take, drop, replicate, map, length, arith, All, take-append-drop, length-take,
  length-drop, length-replicate, length-append,
}
use bo_atom.Upgrade.Bits.{bits, number, xor_bits, for_all, for_all_holds, same_bits, same_bits_eq}
use bo_atom.Upgrade.Crc.{crc32_tab, crc_step, crc_loop, crc32, shift, times, bit_step, bit_loop}
use bo_atom.Upgrade.Crc.Linear.{
  length-times, length-xor_bits, xor_bits-append, times-xor_bits, times-zeros,
}

-- the check of one byte of the table
abbrev entry_matches : List Bool → Bool
entry_matches low =
    same_bits (bits 32 (get_or crc32_tab (number low) 0))
      (times 8 shift (low ++ replicate 24 false))

table_matches : for_all 8 entry_matches ≡ true
table_matches = refl

entry :
    (low : List Bool)
    → length low ≡ 8
    → times 8 shift (low ++ replicate 24 false) ≡ bits 32 (get_or crc32_tab (number low) 0)
entry low e = sym (same_bits_eq _ _ (for_all_holds 8 entry_matches low table_matches e))

xor_bits-zeros : (u : List Bool) (n : ℕ) → length u ≡ n → xor_bits u (replicate n false) ≡ u
xor_bits-zeros [] zero e = refl
xor_bits-zeros [] (suc n) e = refl
xor_bits-zeros (a ∷ u) zero e = absurd (omega arith)
xor_bits-zeros (true ∷ u) (suc n) e = ap (λ l. true ∷ l) (xor_bits-zeros u n (omega arith))
xor_bits-zeros (false ∷ u) (suc n) e = ap (λ l. false ∷ l) (xor_bits-zeros u n (omega arith))

zeros-xor_bits : (v : List Bool) (n : ℕ) → length v ≡ n → xor_bits (replicate n false) v ≡ v
zeros-xor_bits [] zero e = refl
zeros-xor_bits [] (suc n) e = absurd (omega arith)
zeros-xor_bits (a ∷ v) zero e = absurd (omega arith)
zeros-xor_bits (a ∷ v) (suc n) e = ap (λ l. a ∷ l) (zeros-xor_bits v n (omega arith))

-- A word is its lowest byte and the rest.
halves :
    (w : List Bool)
    → length w ≡ 32
    → xor_bits (take 8 w ++ replicate 24 false) (replicate 8 false ++ drop 8 w) ≡ w
halves w e =
    xor_bits-append (take 8 w) (replicate 24 false) (replicate 8 false) (drop 8 w)
      (omega (arith, length-take 8 w))
    ∙ rw
        (
          xor_bits-zeros (take 8 w) 8 (omega (arith, length-take 8 w)),
          zeros-xor_bits (drop 8 w) 24 (omega (arith, length-drop 8 w)),
        )
        (take-append-drop 8 w)

byte_shifted :
    (w : List Bool)
    → length w ≡ 32
    → times 8 shift w
      ≡ xor_bits (bits 32 (get_or crc32_tab (number (take 8 w)) 0)) (drop 8 w ++ replicate 8 false)
byte_shifted w e =
    let low = take 8 w ++ replicate 24 false in
    let high = replicate 8 false ++ drop 8 w in
    let short : length (take 8 w) ≡ 8 = omega (arith, length-take 8 w) in
    let low32 : length low ≡ 32 =
      omega
        (arith, short, length-append (take 8 w) (replicate 24 false), length-replicate 24 false) in
    let high32 : length high ≡ 32 = omega (arith, length-drop 8 w) in
    ap (times 8 shift) (sym (halves w e))
    ∙ times-xor_bits 8 low high low32 high32
    ∙ ap (λ l. xor_bits l (times 8 shift high)) (entry (take 8 w) short)
    ∙ ap (xor_bits (bits 32 (get_or crc32_tab (number (take 8 w)) 0))) (times-zeros 8 (drop 8 w))

drop-xor_bits :
    (n : ℕ) (u v : List Bool)
    → length u ≡ length v
    → drop n (xor_bits u v) ≡ xor_bits (drop n u) (drop n v)
drop-xor_bits zero u v e = refl
drop-xor_bits (suc n) [] [] e = refl
drop-xor_bits (suc n) [] (b ∷ v) e = absurd (omega arith)
drop-xor_bits (suc n) (a ∷ u) [] e = absurd (omega arith)
drop-xor_bits (suc n) (a ∷ u) (b ∷ v) e = drop-xor_bits n u v (omega arith)

bits_zero : (w : ℕ) → bits w 0 ≡ replicate w false
bits_zero zero = refl
bits_zero (suc w) = ap (λ l. false ∷ l) (bits_zero w)

length-bits : (w n : ℕ) → length (bits w n) ≡ w
length-bits zero n = refl
length-bits (suc w) n = ap suc (length-bits w (n / 2))

-- A byte has no bits above the eighth.
byte_high : (p : ℕ) → p < 256 → drop 8 (bits 32 p) ≡ replicate 24 false
byte_high p h =
    let none_left : p / 2 / 2 / 2 / 2 / 2 / 2 / 2 / 2 ≡ 0 = omega arith in
    ap (bits 24) none_left ∙ bits_zero 24

crc_step-bit_step :
    (crc : List Bool) (p : ℕ)
    → length crc ≡ 32
    → p < 256
    → (crc_step crc p ≡ bit_step crc p) × (length (crc_step crc p) ≡ 32)
unfolding crc_step
crc_step-bit_step crc p e h =
    let same : length crc ≡ length (bits 32 p) = e ∙ sym (length-bits 32 p) in
    let w32 : length (xor_bits crc (bits 32 p)) ≡ 32 = length-xor_bits crc (bits 32 p) same ∙ e in
    let high : drop 8 (xor_bits crc (bits 32 p)) ≡ drop 8 crc =
      drop-xor_bits 8 crc (bits 32 p) same
      ∙ ap (xor_bits (drop 8 crc)) (byte_high p h)
      ∙ xor_bits-zeros (drop 8 crc) 24 (omega (arith, length-drop 8 crc)) in
    let w = xor_bits crc (bits 32 p) in
    let steps : crc_step crc p ≡ bit_step crc p = sym (
      byte_shifted w w32
      ∙ ap
          (λ d.
            xor_bits (bits 32 (get_or crc32_tab (number (take 8 w)) 0)) (d ++ replicate 8 false))
          high) in
    (steps, ap (λ (l : List Bool). length l) steps ∙ length-times 8 w w32)

crc_loop-bit_loop :
    (crc : List Bool) (buf : List ℕ)
    → length crc ≡ 32
    → All (λ p. p < 256) buf
    → crc_loop crc buf ≡ bit_loop crc buf
unfolding crc_loop
crc_loop-bit_loop crc [] e h = refl
crc_loop-bit_loop crc (p ∷ buf) e h =
    let step = crc_step-bit_step crc p e h.0 in
    crc_loop-bit_loop (crc_step crc p) buf step.1 h.1 ∙ ap (λ c. bit_loop c buf) step.0

-- On every sequence of bytes the table-driven crc32 is the complement of the remainder that the
-- reflected division by the polynomial 0xedb88320, one bit at a time and from all ones, leaves.
pub crc32-bit_loop :
    (buf : List ℕ) → All (λ p. p < 256) buf → crc32 buf ≡ map not (bit_loop (replicate 32 true) buf)
unfolding crc32
crc32-bit_loop buf h = ap (map not) (crc_loop-bit_loop (replicate 32 true) buf refl h)
