-- ===== src/Upgrade/Crc/Linear.antt =====
-- The step of the reference CRC is linear.
use bo_atom.Prelude.{
  ℕ, zero, suc, ◌≡◌, refl, sym, ap, ◌∙◌, Bool, true, false, List, [], ◌∷◌, ◌++◌, replicate, length,
  arith, length-append, append_snoc,
}
use mathlib.Core.List.{append_assoc, append-nil}
use bo_atom.Upgrade.Bits.{xor, xor_bits}
use bo_atom.Upgrade.Crc.{polynomial, shift, times}

pub length-xor_bits : (u v : List Bool) → length u ≡ length v → length (xor_bits u v) ≡ length u
length-xor_bits [] v e = refl
length-xor_bits (a ∷ u) [] e = absurd (omega arith)
length-xor_bits (a ∷ u) (b ∷ v) e = omega (arith, length-xor_bits u v (omega arith))

xor_assoc : (a b c : Bool) → xor (xor a b) c ≡ xor a (xor b c)
xor_assoc a b c = ground arith

xor_comm : (a b : Bool) → xor a b ≡ xor b a
xor_comm a b = ground arith

xor_cancel : (a b c : Bool) → xor (xor a c) (xor b c) ≡ xor a b
xor_cancel a b c = ground arith

cons_eq : (a b : Bool) (u v : List Bool) → a ≡ b → u ≡ v → a ∷ u ≡ b ∷ v
cons_eq a b u v e f = rw (e, f)

xor_bits_comm : (u v : List Bool) → xor_bits u v ≡ xor_bits v u
xor_bits_comm [] [] = refl
xor_bits_comm [] (b ∷ v) = refl
xor_bits_comm (a ∷ u) [] = refl
xor_bits_comm (a ∷ u) (b ∷ v) = cons_eq _ _ _ _ (xor_comm a b) (xor_bits_comm u v)

xor_bits_assoc : (u v w : List Bool) → xor_bits (xor_bits u v) w ≡ xor_bits u (xor_bits v w)
xor_bits_assoc [] v w = refl
xor_bits_assoc (a ∷ u) [] w = refl
xor_bits_assoc (a ∷ u) (b ∷ v) [] = refl
xor_bits_assoc (a ∷ u) (b ∷ v) (c ∷ w) = cons_eq _ _ _ _ (xor_assoc a b c) (xor_bits_assoc u v w)

xor_bits_cancel :
    (u v w : List Bool)
    → length u ≡ length w
    → xor_bits (xor_bits u w) (xor_bits v w) ≡ xor_bits u v
xor_bits_cancel [] v w e = refl
xor_bits_cancel (a ∷ u) v [] e = absurd (omega arith)
xor_bits_cancel (a ∷ u) [] (c ∷ w) e = refl
xor_bits_cancel (a ∷ u) (b ∷ v) (c ∷ w) e =
    cons_eq _ _ _ _ (xor_cancel a b c) (xor_bits_cancel u v w (omega arith))

pub xor_bits-append :
    (a b c d : List Bool)
    → length a ≡ length c
    → xor_bits (a ++ b) (c ++ d) ≡ xor_bits a c ++ xor_bits b d
xor_bits-append [] b [] d e = refl
xor_bits-append [] b (y ∷ c) d e = absurd (omega arith)
xor_bits-append (x ∷ a) b [] d e = absurd (omega arith)
xor_bits-append (x ∷ a) b (y ∷ c) d e =
    ap (λ l. xor x y ∷ l) (xor_bits-append a b c d (omega arith))

-- words of 32 bits
pub length-shift : (w : List Bool) → length w ≡ 32 → length (shift w) ≡ 32
length-shift [] e = e
length-shift (false ∷ w) e = omega (arith, length-append w (false ∷ []))
length-shift (true ∷ w) e =
    let longer : length (w ++ false ∷ []) ≡ 32 = omega (arith, length-append w (false ∷ [])) in
    length-xor_bits (w ++ false ∷ []) polynomial longer ∙ longer

shift-xor_bits :
    (u v : List Bool)
    → length u ≡ 32
    → length v ≡ 32
    → shift (xor_bits u v) ≡ xor_bits (shift u) (shift v)
shift-xor_bits [] v e f = absurd (omega arith)
shift-xor_bits (a ∷ u) [] e f = absurd (omega arith)
shift-xor_bits (false ∷ u) (false ∷ v) e f =
    sym (xor_bits-append u (false ∷ []) v (false ∷ []) (omega arith))
shift-xor_bits (true ∷ u) (false ∷ v) e f =
    let long = xor_bits-append u (false ∷ []) v (false ∷ []) (omega arith) in
    let uu = u ++ false ∷ [] in
    let vv = v ++ false ∷ [] in
    ap (λ l. xor_bits l polynomial) (sym long)
    ∙ xor_bits_assoc uu vv polynomial
    ∙ ap (λ l. xor_bits uu l) (xor_bits_comm vv polynomial)
    ∙ sym (xor_bits_assoc uu polynomial vv)
shift-xor_bits (false ∷ u) (true ∷ v) e f =
    let long = xor_bits-append u (false ∷ []) v (false ∷ []) (omega arith) in
    ap (λ l. xor_bits l polynomial) (sym long)
    ∙ xor_bits_assoc (u ++ false ∷ []) (v ++ false ∷ []) polynomial
shift-xor_bits (true ∷ u) (true ∷ v) e f =
    sym (xor_bits-append u (false ∷ []) v (false ∷ []) (omega arith))
    ∙ sym (
        xor_bits_cancel (u ++ false ∷ []) (v ++ false ∷ []) polynomial
          (omega (arith, length-append u (false ∷ []))))

pub times-xor_bits :
    (n : ℕ) (u v : List Bool)
    → length u ≡ 32
    → length v ≡ 32
    → times n shift (xor_bits u v) ≡ xor_bits (times n shift u) (times n shift v)
times-xor_bits zero u v e f = refl
times-xor_bits (suc n) u v e f =
    ap (times n shift) (shift-xor_bits u v e f)
    ∙ times-xor_bits n (shift u) (shift v) (length-shift u e) (length-shift v f)

pub length-times : (n : ℕ) (w : List Bool) → length w ≡ 32 → length (times n shift w) ≡ 32
length-times zero w e = e
length-times (suc n) w e = length-times n (shift w) (length-shift w e)

-- Zeros that are shifted out come back at the other end.
pub times-zeros :
    (n : ℕ) (v : List Bool) → times n shift (replicate n false ++ v) ≡ v ++ replicate n false
times-zeros zero v = sym (append-nil v)
times-zeros (suc n) v =
    ap (times n shift) (append_assoc (replicate n false) v (false ∷ []))
    ∙ times-zeros n (v ++ false ∷ [])
    ∙ append_snoc v (replicate n false) false
