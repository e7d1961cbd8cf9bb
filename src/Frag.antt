-- ===== src/Frag.antt =====
-- include/linux/ceph/ceph_frag.h and fs/ceph/ceph_frag.c: a frag is a subset of a 24-bit number
-- space, in a 32-bit word with the number of significant bits in the top 8 bits and the value in
-- the lower 24. Arithmetic is that of `unsigned`; a shift by more than 31, undefined in C, is met
-- only for frags of more than 24 bits, which `IsFrag` leaves out.
pub mod Fields
pub mod Containment
pub mod Tree
pub mod Order
pub mod Tests
use kmod_ceph.Base.{
  ℕ, ◌+◌, ◌-◌, ◌*◌, ◌/◌, ◌%◌, ◌^◌, ◌≤◌, bit_and, bit_or, bit_xor, u32, sub32, ◌<<<◌, ◌>>>◌, Bool,
  ◌&&◌, ltb, leb, ◌==◌, if◌then◌else◌, ◌≡◌,
}
use kmod_ceph.Base.Int.{ℤ, pos, negsuc}

pub frag_make : ℕ → ℕ → ℕ
frag_make b v =
    bit_or (u32 (b <<< 24)) (bit_and v (bit_and (u32 (0xffffff <<< sub32 24 b)) 0xffffff))

pub frag_bits : ℕ → ℕ
frag_bits f = f >>> 24

pub frag_value : ℕ → ℕ
frag_value f = bit_and f 0xffffff

pub frag_mask : ℕ → ℕ
frag_mask f = bit_and (u32 (0xffffff <<< sub32 24 (frag_bits f))) 0xffffff

pub frag_mask_shift : ℕ → ℕ
frag_mask_shift f = sub32 24 (frag_bits f)

pub frag_contains_value : ℕ → ℕ → Bool
frag_contains_value f v = bit_and v (frag_mask f) == frag_value f

pub frag_contains_frag : ℕ → ℕ → Bool
frag_contains_frag f sub =
    leb (frag_bits f) (frag_bits sub) && (bit_and (frag_value sub) (frag_mask f) == frag_value f)

pub frag_parent : ℕ → ℕ
frag_parent f = frag_make (sub32 (frag_bits f) 1) (bit_and (frag_value f) (u32 (frag_mask f <<< 1)))

pub frag_is_left_child : ℕ → Bool
frag_is_left_child f =
    ltb 0 (frag_bits f) && (bit_and (frag_value f) (0x1000000 >>> frag_bits f) == 0)

pub frag_is_right_child : ℕ → Bool
frag_is_right_child f =
    ltb 0 (frag_bits f) && (bit_and (frag_value f) (0x1000000 >>> frag_bits f) == 1)

pub frag_sibling : ℕ → ℕ
frag_sibling f = frag_make (frag_bits f) (bit_xor (frag_value f) (0x1000000 >>> frag_bits f))

pub frag_left_child : ℕ → ℕ
frag_left_child f = frag_make (u32 (frag_bits f + 1)) (frag_value f)

pub frag_right_child : ℕ → ℕ
frag_right_child f =
    frag_make (u32 (frag_bits f + 1)) (bit_or (frag_value f) (0x1000000 >>> (1 + frag_bits f)))

-- `by` and `i` are small non-negative ints.
pub frag_make_child : ℕ → ℕ → ℕ → ℕ
frag_make_child f by i =
    let newbits = frag_bits f + by in
    frag_make newbits (bit_or (frag_value f) (u32 (i <<< sub32 24 newbits)))

pub frag_is_leftmost : ℕ → Bool
frag_is_leftmost f = frag_value f == 0

pub frag_is_rightmost : ℕ → Bool
frag_is_rightmost f = frag_value f == frag_mask f

pub frag_next : ℕ → ℕ
frag_next f = frag_make (frag_bits f) (u32 (frag_value f + (0x1000000 >>> frag_bits f)))

pub frag_compare : ℕ → ℕ → ℤ
frag_compare a b =
    if ltb (frag_value a) (frag_value b)
    then negsuc 0
    else if ltb (frag_value b) (frag_value a)
    then pos 1
    else if ltb (frag_bits a) (frag_bits b)
    then negsuc 0
    else if ltb (frag_bits b) (frag_bits a)
    then pos 1
    else pos 0

-- A well-formed frag: `b` significant bits, at the top of the 24, which hold the number `q`.
pub record IsFrag (f b q : ℕ) : Type 0 where
  pub depth : b ≤ 24
  pub fits : q + 1 ≤ 2 ^ b
  pub word : f ≡ b * 2 ^ 24 + q * 2 ^ (24 - b)
