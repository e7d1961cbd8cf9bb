-- ===== src/Frag/Fields.antt =====
-- The fields of a well-formed frag.
use native.Mathlib.Nat.{pow-suc, one-le-pow}
use kmod_ceph.Base.{
  ℕ, zero, suc, ◌+◌, ◌-◌, ◌*◌, ◌/◌, ◌%◌, ◌^◌, ◌≤◌, ◌<◌, ◌≡◌, ◌∙◌, ==_iff, holds_below, true,
  holds_below_at, div_unique, mod_unique, ◌==◌, refl, sym, ap, arith, bit_and, u32, sub32, ◌<<<◌,
}
use kmod_ceph.Base.Bits.{bit_and_low, bit_and_high, bit_or_sum}
use kmod_ceph.Frag.{frag_make, frag_bits, frag_value}

-- Splitting a power of two, for the exponents that frags use.
pub pow-split : (b k : ℕ) → 2 ^ (b + k) ≡ 2 ^ b * 2 ^ k
pow-split b zero = let e : b + 0 ≡ b = omega arith in rw e (omega arith)
pow-split b (suc k) =
    let e : b + suc k ≡ suc (b + k) = omega arith in
    rw e (omega (arith, pow-suc 2 (b + k), pow-split b k, ap (λ (t : ℕ). 2 ^ b * t) (pow-suc 2 k)))

pub pow-split_24 : (b : ℕ) → b ≤ 24 → 2 ^ b * 2 ^ (24 - b) ≡ 2 ^ 24
pow-split_24 b h =
    let e : b + (24 - b) ≡ 24 = omega arith in sym (pow-split b (24 - b)) ∙ ap (λ (t : ℕ). 2 ^ t) e

ap_whole : (b c : ℕ) → 2 ^ b * 2 ^ (24 - b) ≡ 2 ^ 24 → c * 2 ^ b * 2 ^ (24 - b) ≡ c * 2 ^ 24
ap_whole b c e = omega (arith, ap (λ (t : ℕ). c * t) e)

div_add : (w u : ℕ) → w ≡ w / u * u + w % u
div_add w u = grind arith

div-below : (w u n : ℕ) → 1 ≤ u → w < n * u → w / u < n
div-below w u n p h = grind arith

module _ (b q : ℕ) (depth : b ≤ 24) (fits : q + 1 ≤ 2 ^ b) where
  abbrev unit : ℕ
  unit = 2 ^ (24 - b)

  pub value-lt : q * unit + unit ≤ 2 ^ 24
  value-lt = grind (arith, pow-split_24 b depth)

  abbrev word : ℕ
  word = b * 2 ^ 24 + q * unit

  pub frag_bits-word : frag_bits word ≡ b
  unfolding frag_bits
  frag_bits-word = omega (arith, value-lt, one-le-pow (24 - b) 2 (omega arith))

  pub frag_value-word : frag_value word ≡ q * unit
  unfolding frag_value
  frag_value-word =
      omega (arith, bit_and_low 24 word, value-lt, one-le-pow (24 - b) 2 (omega arith))

mask_of : ℕ → ℕ
mask_of b = bit_and (u32 (0xffffff <<< sub32 24 b)) 0xffffff

mask_table : holds_below 25 (λ b. mask_of b == (2 ^ b - 1) * 2 ^ (24 - b)) ≡ true
unfolding mask_of
mask_table = refl

-- The mask of `b` bits, as a number.
pub mask-eq :
    (b : ℕ) → b ≤ 24 → bit_and (u32 (0xffffff <<< sub32 24 b)) 0xffffff ≡ (2 ^ b - 1) * 2 ^ (24 - b)
unfolding mask_of
mask-eq b h =
    (==_iff _ _).0
      (holds_below_at 25 (λ x. mask_of x == (2 ^ x - 1) * 2 ^ (24 - x)) b mask_table (omega arith))

-- Masking keeps the top `b` of the 24 digits.
pub masked :
    (b v : ℕ)
    → b ≤ 24
    → bit_and v (bit_and (u32 (0xffffff <<< sub32 24 b)) 0xffffff)
      ≡ (v / 2 ^ (24 - b)) % 2 ^ b * 2 ^ (24 - b)
masked b v h =
    rw (mask-eq b h, bit_and_high (24 - b) v (2 ^ b - 1), bit_and_low b (v / 2 ^ (24 - b))) refl

pub top_bits-lt : (b n : ℕ) → n % 2 ^ b + 1 ≤ 2 ^ b
top_bits-lt b n = grind (arith, one-le-pow b 2 (omega arith))

pub frag_make-eq :
    (b v : ℕ) → b ≤ 24 → frag_make b v ≡ b * 2 ^ 24 + (v / 2 ^ (24 - b)) % 2 ^ b * 2 ^ (24 - b)
unfolding frag_make
frag_make-eq b v h =
    let q : ℕ = (v / 2 ^ (24 - b)) % 2 ^ b in
    let small : u32 (b <<< 24) ≡ b * 2 ^ 24 = omega arith in
    rw (masked b v h, small)
      (bit_or_sum 24 b (q * 2 ^ (24 - b)) (
        omega (
          arith,
          value-lt b q h (top_bits-lt b (v / 2 ^ (24 - b))),
          one-le-pow (24 - b) 2 (omega arith),
        )))

-- The position of the 24 low digits of `v` among the ranges of frags of `b` bits.
pub masked_range : (b v : ℕ) → b ≤ 24 → (v / 2 ^ (24 - b)) % 2 ^ b ≡ v % 2 ^ 24 / 2 ^ (24 - b)
masked_range b v h =
    let u : ℕ = 2 ^ (24 - b) in
    let w : ℕ = v % 2 ^ 24 in
    let c : ℕ = v / 2 ^ 24 in
    let pu : 1 ≤ 2 ^ (24 - b) = one-le-pow (24 - b) 2 (omega arith) in
    let whole : 2 ^ b * 2 ^ (24 - b) ≡ 2 ^ 24 = pow-split_24 b h in
    let high : c * 2 ^ b * 2 ^ (24 - b) ≡ c * 2 ^ 24 = ap_whole b c whole in
    let parts : w ≡ w / u * u + w % u = div_add w u in
    let below : w % u < u = grind arith in
    let quotient : v / u ≡ c * 2 ^ b + w / u =
      div_unique v u (c * 2 ^ b + w / u) (w % u) (omega arith) below in
    let small : w / u < 2 ^ b = div-below w u (2 ^ b) pu (omega arith) in
    mod_unique (v / u) (2 ^ b) c (w / u) quotient small
