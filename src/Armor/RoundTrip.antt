-- ===== src/Armor/RoundTrip.antt =====
-- `ceph_unarmor` after `ceph_armor`.
use kmod_ceph.Base.{
  ℕ, ◌+◌, ◌*◌, ◌/◌, ◌%◌, ◌<◌, ◌≡◌, ◌∙◌, refl, arith, bit_and, ◌<<<◌, false, ◌==◌, Option,
  Bool-cases, inl, inr, none, some, List, [], ◌∷◌, length, All,
}
use kmod_ceph.Base.Bits.{bit_and_low}
use kmod_ceph.Armor.{
  Output, encode_bits, decode_bits, armor, armor_loop, end_quad, next_line, nothing, unarmor,
  unarmor_quad,
}
use kmod_ceph.Armor.Bytes.{
  decode-encode, encode-ne_newline, encode-ne_pad, second_group, third_group, fourth_group,
  first_byte, second_byte, third_byte,
}

abbrev pub IsBytes : List ℕ → Type 0
IsBytes = All (λ x. x < 256)

-- A line break between groups is skipped.
unarmor-newline : (src : List ℕ) → unarmor (10 ∷ src) ≡ unarmor src
unfolding unarmor
unarmor-newline [] = refl
unarmor-newline (x ∷ []) = refl
unarmor-newline (x ∷ y ∷ []) = refl
unarmor-newline (x ∷ y ∷ z ∷ src) = refl

unarmor-code :
    (x y z w : ℕ) (src : List ℕ)
    → (x == 10) ≡ false
    → unarmor (x ∷ y ∷ z ∷ w ∷ src) ≡ unarmor_quad x y z w (unarmor src)
unfolding unarmor
unarmor-code x y z w src h = rw (h, unarmor) refl

abbrev joined : ℕ → ℕ → ℕ → Option Output → Option Output
joined a b c none = none
joined a b c (some r) = some (record { dst = a ∷ b ∷ c ∷ r.dst; olen = 3 + r.olen })

-- Four codes give back the bytes p * 4 + q / 16, q % 16 * 16 + r / 4 and r % 4 * 64 + s.
unarmor_quad-codes :
    (p q r s : ℕ) (rest : Option Output)
    → p < 64
    → q < 64
    → r < 64
    → s < 64
    → unarmor_quad (encode_bits p) (encode_bits q) (encode_bits r) (encode_bits s) rest
      ≡ joined (p * 4 + q / 16) (q % 16 * 16 + r / 4) (r % 4 * 64 + s) rest
unfolding unarmor_quad
unarmor_quad-codes p q r s none hp hq hr hs =
    rw
      (
        decode-encode p hp,
        decode-encode q hq,
        decode-encode r hr,
        decode-encode s hs,
        encode-ne_pad r hr,
        encode-ne_pad s hs,
      )
      refl
unarmor_quad-codes p q r s (some t) hp hq hr hs =
    rw
      (
        decode-encode p hp,
        decode-encode q hq,
        decode-encode r hr,
        decode-encode s hs,
        encode-ne_pad r hr,
        encode-ne_pad s hs,
        first_byte p q hp hq,
        second_byte q r hr,
        third_byte r s hs,
      )
      refl

decode_pad : decode_bits b'=' ≡ some 0
unfolding decode_bits
decode_pad = refl

unarmor_quad-two :
    (p q r : ℕ) (rest : Option Output)
    → p < 64
    → q < 64
    → r < 64
    → unarmor_quad (encode_bits p) (encode_bits q) (encode_bits r) b'=' rest
      ≡ some (record { dst = (p * 4 + q / 16) ∷ (q % 16 * 16 + r / 4) ∷ []; olen = 2 })
unfolding unarmor_quad
unarmor_quad-two p q r rest hp hq hr =
    rw
      (
        decode-encode p hp,
        decode-encode q hq,
        decode-encode r hr,
        encode-ne_pad r hr,
        decode_pad,
        first_byte p q hp hq,
        second_byte q r hr,
      )
      refl

unarmor_quad-one :
    (p q : ℕ) (rest : Option Output)
    → p < 64
    → q < 64
    → unarmor_quad (encode_bits p) (encode_bits q) b'=' b'=' rest
      ≡ some (record { dst = (p * 4 + q / 16) ∷ []; olen = 1 })
unfolding unarmor_quad
unarmor_quad-one p q rest hp hq =
    rw (decode-encode p hp, decode-encode q hq, decode_pad, first_byte p q hp hq) refl

-- The line break after a group changes nothing for the reader.
unarmor-end_quad :
    (x y z w line : ℕ) (rest : Output)
    → (x == 10) ≡ false
    → unarmor (end_quad (x ∷ y ∷ z ∷ w ∷ []) line rest).dst
      ≡ unarmor_quad x y z w (unarmor rest.dst)
unfolding end_quad
unarmor-end_quad x y z w line rest h = elim (Bool-cases (line + 4 == 64)) [
  | inl e ↦ rw (e, unarmor-code x y z w (10 ∷ rest.dst) h, unarmor-newline rest.dst) refl
  | inr e ↦ rw (e, unarmor-code x y z w rest.dst h) refl
]

lone_group : (a : ℕ) → bit_and a 3 <<< 4 ≡ a % 4 * 16
lone_group a = rw (bit_and_low 2 a) refl

pair_group : (b : ℕ) → bit_and b 15 <<< 2 ≡ b % 16 * 4
pair_group b = rw (bit_and_low 4 b) refl

unarmor-armor_loop :
    (src : List ℕ) (line : ℕ)
    → IsBytes src
    → unarmor (armor_loop src line).dst ≡ some (record { dst = src; olen = length src })
unfolding armor_loop
unarmor-armor_loop [] line h = unfold unarmor in refl
unarmor-armor_loop (a ∷ []) line h =
    rw
      (
        lone_group a,
        unarmor-end_quad _ _ _ _ line nothing (encode-ne_newline (a / 4) (omega arith)),
      )
      (unarmor_quad-one (a / 4) (a % 4 * 16) _ (omega arith) (omega arith) ∙ ground arith)
unarmor-armor_loop (a ∷ b ∷ []) line h =
    rw
      (
        second_group a b (omega arith),
        pair_group b,
        unarmor-end_quad _ _ _ _ line nothing (encode-ne_newline (a / 4) (omega arith)),
      )
      (unarmor_quad-two (a / 4) (a % 4 * 16 + b / 16) (b % 16 * 4) _ (omega arith) (omega arith)
          (omega arith)
        ∙ ground arith)
unarmor-armor_loop (a ∷ b ∷ c ∷ src) line h =
    rw
      (
        second_group a b (omega arith),
        third_group b c (omega arith),
        fourth_group c,
        unarmor-end_quad _ _ _ _ line _ (encode-ne_newline (a / 4) (omega arith)),
        unarmor-armor_loop src (next_line line) h.1.1.1,
      )
      (unarmor_quad-codes (a / 4) (a % 4 * 16 + b / 16) (b % 16 * 4 + c / 64) (c % 64) _
          (omega arith) (omega arith) (omega arith) (omega arith)
        ∙ ground arith)

-- Whatever bytes are armored, `ceph_unarmor` gives them back, with their number.
pub unarmor-armor :
    (src : List ℕ)
    → IsBytes src
    → unarmor (armor src).dst ≡ some (record { dst = src; olen = length src })
unfolding armor
unarmor-armor src h = unarmor-armor_loop src 0 h
