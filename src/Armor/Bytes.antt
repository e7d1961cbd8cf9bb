-- ===== src/Armor/Bytes.antt =====
-- The codes of six bits, and how four of them make three bytes.
use kmod_ceph.Base.{
  ℕ, ◌+◌, ◌*◌, ◌/◌, ◌%◌, ◌<◌, ◌≡◌, refl, ap, arith, bit_and, bit_or, u8, ◌<<<◌, ◌>>>◌, Bool, true,
  false, ◌&&◌, ◌==◌, ==_iff, not, holds_below, holds_below_at, Option, none, some,
}
use kmod_ceph.Base.Bits.{bit_and_low, bit_or_sum}
use kmod_ceph.Armor.{encode_bits, decode_bits}

is_code : Option ℕ → ℕ → Bool
is_code none n = false
is_code (some m) n = m == n

is_code-eq : (o : Option ℕ) (n : ℕ) → is_code o n ≡ true → o ≡ some n
unfolding is_code
is_code-eq none n h = cc
is_code-eq (some m) n h = ap some ((==_iff m n).0 h)

good_code : ℕ → Bool
good_code n =
    is_code (decode_bits (encode_bits n)) n
    && (not (encode_bits n == 10) && not (encode_bits n == b'='))

code_table : holds_below 64 (λ n. good_code n) ≡ true
unfolding good_code is_code encode_bits decode_bits
code_table = refl

good : (n : ℕ) → n < 64 → good_code n ≡ true
good n h = holds_below_at 64 (λ n. good_code n) n code_table h

-- Decoding undoes encoding, and no code is the line break or the padding.
pub decode-encode : (n : ℕ) → n < 64 → decode_bits (encode_bits n) ≡ some n
unfolding good_code
decode-encode n h = is_code-eq _ n (ground (arith, good n h))

pub encode-ne_newline : (n : ℕ) → n < 64 → (encode_bits n == 10) ≡ false
unfolding good_code
encode-ne_newline n h = ground (arith, good n h)

pub encode-ne_pad : (n : ℕ) → n < 64 → (encode_bits n == b'=') ≡ false
unfolding good_code
encode-ne_pad n h = ground (arith, good n h)

-- The six-bit groups as sums.
pub second_group : (a b : ℕ) → b < 256 → bit_or (bit_and a 3 <<< 4) (b >>> 4) ≡ a % 4 * 16 + b / 16
second_group a b h = rw (bit_and_low 2 a) (bit_or_sum 4 (a % 4) (b / 16) (omega arith))

pub third_group : (b c : ℕ) → c < 256 → bit_or (bit_and b 15 <<< 2) (c >>> 6) ≡ b % 16 * 4 + c / 64
third_group b c h = rw (bit_and_low 4 b) (bit_or_sum 2 (b % 16) (c / 64) (omega arith))

pub fourth_group : (c : ℕ) → bit_and c 63 ≡ c % 64
fourth_group c = bit_and_low 6 c

-- The three bytes as sums.
pub first_byte : (p q : ℕ) → p < 64 → q < 64 → u8 (bit_or (p <<< 2) (q >>> 4)) ≡ p * 4 + q / 16
first_byte p q hp hq = rw (bit_or_sum 2 p (q / 16) (omega arith)) (omega arith)

pub second_byte :
    (q r : ℕ) → r < 64 → u8 (bit_or (bit_and q 15 <<< 4) (r >>> 2)) ≡ q % 16 * 16 + r / 4
second_byte q r h = rw (bit_and_low 4 q, bit_or_sum 4 (q % 16) (r / 4) (omega arith)) (omega arith)

pub third_byte : (r s : ℕ) → s < 64 → u8 (bit_or (bit_and r 3 <<< 6) s) ≡ r % 4 * 64 + s
third_byte r s h = rw (bit_and_low 2 r, bit_or_sum 6 (r % 4) s (omega arith)) (omega arith)
