-- ===== src/Frag/Order.antt =====
-- `ceph_frag_compare` as an order.
use kmod_ceph.Base.{ℕ, ◌%◌, ◌^◌, ◌<◌, ◌≡◌, ◌↔◌, ◌⊎◌, arith}
use kmod_ceph.Base.Bits.{bit_and_low}
use kmod_ceph.Base.Int.{pos, negsuc}
use kmod_ceph.Frag.{frag_bits, frag_value, frag_compare}

low_digits : (f : ℕ) → frag_value f ≡ f % 2 ^ 24
unfolding frag_value
low_digits f = bit_and_low 24 f

-- `ceph_frag_compare` answers 0 only for equal words, changes its sign when the frags change
-- places, and sorts by the value first and then by the number of bits.
pub frag_compare-order :
    (a b : ℕ)
    → ((frag_compare a b ≡ pos 0) ↔ (a ≡ b))
      × ((frag_compare a b ≡ negsuc 0) ↔ (frag_compare b a ≡ pos 1))
      × ((frag_compare a b ≡ negsuc 0) ↔ (
          (frag_value a < frag_value b)
          ⊎ ((frag_value a ≡ frag_value b) × (frag_bits a < frag_bits b))))
unfolding frag_compare frag_bits
frag_compare-order a b =
    let la = low_digits a in
    let lb = low_digits b in
    (
      ground (arith, low_digits a, low_digits b),
      ground (arith, low_digits a, low_digits b),
      ground (arith, low_digits a, low_digits b),
    )
