-- ===== src/Ae/Mask.antt =====
-- The event masks of ae/ae.h. A mask is a C int with two bits in use: bit 0 is AE_READABLE and
-- bit 1 is AE_WRITABLE. It is a record of these two bits here.
use bo_atom.Prelude.{Bool, true, false, not, ◌&&◌, ◌||◌, ◌≡◌, arith}

pub record Mask : Type 0 where
  pub readable : Bool
  pub writable : Bool

abbrev pub mask : Bool → Bool → Mask
mask r w = record { readable = r; writable = w }

-- AE_NONE, AE_READABLE, AE_WRITABLE
abbrev pub ae_none : Mask
ae_none = mask false false

abbrev pub ae_readable : Mask
ae_readable = mask true false

abbrev pub ae_writable : Mask
ae_writable = mask false true

abbrev pub both : Mask
both = mask true true

-- `a | b`, `a & b` and `a & ~b`
abbrev pub mask_or : Mask → Mask → Mask
mask_or a b = mask (a.readable || b.readable) (a.writable || b.writable)

abbrev pub mask_and : Mask → Mask → Mask
mask_and a b = mask (a.readable && b.readable) (a.writable && b.writable)

abbrev pub mask_without : Mask → Mask → Mask
mask_without a b = mask (a.readable && not b.readable) (a.writable && not b.writable)

-- the test `m != AE_NONE`
abbrev pub is_set : Mask → Bool
is_set m = m.readable || m.writable

pub eq_none : (m : Mask) → is_set m ≡ false → m ≡ ae_none
eq_none m h = ground arith

pub is_set-or : (a b : Mask) → is_set (mask_or a b) ≡ (is_set a || is_set b)
is_set-or a b = ground arith

pub is_set-without : (a b : Mask) → is_set (mask_without a b) ≡ true → is_set a ≡ true
is_set-without a b h = ground arith
