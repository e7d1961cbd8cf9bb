-- ===== src/Frag/Tree.antt =====
-- Parents, children, siblings and successors in the tree of frags.
use native.Mathlib.Nat.{pow-suc, one-le-pow}
use kmod_ceph.Base.{
  ℕ, zero, suc, ◌+◌, ◌-◌, ◌*◌, ◌/◌, ◌%◌, ◌^◌, ◌≤◌, ◌<◌, ◌≡◌, ◌≢◌, ◌∙◌, ◌↔◌, ◌⊎◌, ◌&&◌, inl, inr,
  div_unique, mod_unique, true, false, ◌==◌, refl, sym, ap, arith, bit_and, bit_xor, u32, sub32,
  ltb,
}
use kmod_ceph.Base.Bits.{
  bit_and_low, bit_and_high, bit_or_sum, bit_xor_split, bit_xor_digit, bit_xor-zero, differ_one,
}
use native.Mathlib.Decide.{dec_lt}
use kmod_ceph.Frag.{
  frag_contains_value, frag_make, frag_mask, frag_parent, frag_is_left_child, frag_is_right_child,
  frag_sibling, frag_left_child, frag_right_child, frag_make_child, frag_next, IsFrag,
}
use kmod_ceph.Frag.Fields.{frag_make-eq, pow-split, pow-split_24, value-lt, mask-eq}
use kmod_ceph.Frag.Containment.{IsFrag-frag_bits, IsFrag-frag_value, frag_contains_value_iff}

unit_pos : (b : ℕ) → 1 ≤ 2 ^ (24 - b)
unit_pos b = one-le-pow (24 - b) 2 (omega arith)

unit-suc : (b : ℕ) → b + 1 ≤ 24 → 2 ^ (24 - b) ≡ 2 * 2 ^ (24 - (b + 1))
unit-suc b h =
    let e : 24 - b ≡ suc (24 - (b + 1)) = omega arith in
    ap (λ (t : ℕ). 2 ^ t) e ∙ pow-suc 2 (24 - (b + 1)) ∙ omega arith

unit-shift : (b : ℕ) → b ≤ 24 → 0x1000000 / 2 ^ b ≡ 2 ^ (24 - b)
unit-shift b h =
    div_unique 0x1000000 (2 ^ b) (2 ^ (24 - b)) 0 (omega (arith, pow-split_24 b h))
      (one-le-pow b 2 (omega arith))

-- A frag made from a value in the range of `q` has the index `q`.
pub frag_make-IsFrag :
    (b q r v : ℕ)
    → b ≤ 24
    → q + 1 ≤ 2 ^ b
    → v ≡ q * 2 ^ (24 - b) + r
    → r < 2 ^ (24 - b)
    → IsFrag (frag_make b v) b q
frag_make-IsFrag b q r v h fits e lt =
    let d : v / 2 ^ (24 - b) ≡ q = div_unique v (2 ^ (24 - b)) q r e lt in
    let m : q % 2 ^ b ≡ q = mod_unique q (2 ^ b) 0 q (omega arith) (omega arith) in
    record { depth = h; fits = fits; word = frag_make-eq b v h ∙ rw (d, m) refl }

child_fits : (b q i : ℕ) → i < 2 → q + 1 ≤ 2 ^ b → 2 * q + i + 1 ≤ 2 ^ (b + 1)
child_fits b q i h fits = let e : b + 1 ≡ suc b = omega arith in rw e (omega (arith, pow-suc 2 b))

module _ (f b q : ℕ) (w : IsFrag f b q) (room : b + 1 ≤ 24) where
  pub frag_left_child-IsFrag : IsFrag (frag_left_child f) (b + 1) (2 * q)
  unfolding frag_left_child
  frag_left_child-IsFrag =
      let e : u32 (b + 1) ≡ b + 1 = omega arith in
      let fits : 2 * q + 1 ≤ 2 ^ (b + 1) = omega (arith, child_fits b q 0 (omega arith) w.fits) in
      rw (IsFrag-frag_bits f b q w, IsFrag-frag_value f b q w, e)
        (frag_make-IsFrag (b + 1) (2 * q) 0 (q * 2 ^ (24 - b)) room fits
          (rw (unit-suc b room) (omega arith)) (unit_pos (b + 1)))

  pub frag_right_child-IsFrag : IsFrag (frag_right_child f) (b + 1) (2 * q + 1)
  unfolding frag_right_child
  frag_right_child-IsFrag =
      let e : u32 (b + 1) ≡ b + 1 = omega arith in
      let c : 1 + b ≡ b + 1 = omega arith in
      let u : 2 ^ (24 - b) ≡ 2 * 2 ^ (24 - (b + 1)) = unit-suc b room in
      let p : 1 ≤ 2 ^ (24 - (b + 1)) = unit_pos (b + 1) in
      rw
        (
          IsFrag-frag_bits f b q w,
          IsFrag-frag_value f b q w,
          e,
          c,
          unit-shift (b + 1) room,
          bit_or_sum (24 - b) q (2 ^ (24 - (b + 1))) (omega arith),
        )
        (frag_make-IsFrag (b + 1) (2 * q + 1) 0 (q * 2 ^ (24 - b) + 2 ^ (24 - (b + 1))) room
          (child_fits b q 1 (omega arith) w.fits) (omega (arith, ap (λ (t : ℕ). q * t) u)) p)

xor_unit : (k q : ℕ) → bit_xor (q * 2 ^ k) (2 ^ k) ≡ bit_xor q 1 * 2 ^ k
xor_unit k q =
    let p : 1 ≤ 2 ^ k = one-le-pow k 2 (omega arith) in
    let a : q * 2 ^ k + 0 ≡ q * 2 ^ k = omega arith in
    let c : 1 * 2 ^ k + 0 ≡ 2 ^ k = omega arith in
    omega (
      arith,
      ap (λ (t : ℕ). bit_xor t (1 * 2 ^ k + 0)) a,
      ap (λ (t : ℕ). bit_xor (q * 2 ^ k) t) c,
      bit_xor_split k q 0 1 0 p p,
    )

and_unit : (k v : ℕ) → bit_and v (2 ^ k) ≡ v / 2 ^ k % 2 * 2 ^ k
and_unit k v =
    let c : 1 * 2 ^ k ≡ 2 ^ k = omega arith in
    omega (
      arith,
      ap (λ (t : ℕ). bit_and v t) c,
      bit_and_high k v 1,
      ap (λ (t : ℕ). t * 2 ^ k) (bit_and_low 1 (v / 2 ^ k)),
    )

doubled_mask : (m h : ℕ) → m * h ≡ 2 ^ 24 → (m - 1) * h * 2 ^ 1 % 2 ^ 32 ≡ (m - 1) * (2 * h)
doubled_mask zero h e = omega arith
doubled_mask (suc k) h e = let p : suc k - 1 ≡ k = omega arith in rw p (omega arith)

halves : (q : ℕ) → q ≡ q / 2 * 2 + q % 2
halves q = omega arith

parity_fits : (x u : ℕ) → x < 2 → 1 ≤ u → x * u < 2 * u
parity_fits x u h p = grind arith

module _ (f b q : ℕ) (w : IsFrag f (b + 1) q) where
  abbrev half_unit : ℕ
  half_unit = 2 ^ (24 - (b + 1))

  half-fits : q / 2 + 1 ≤ 2 ^ b
  half-fits =
      let e : b + 1 ≡ suc b = omega arith in
      let h : q + 1 ≤ 2 ^ suc b = rw e at w.fits in omega (arith, pow-suc 2 b)

  wide_mask :
      (2 ^ (b + 1) - 1) * 2 ^ (24 - (b + 1)) * 2 ^ 1 % 2 ^ 32 ≡ (2 ^ (b + 1) - 1) * 2 ^ (24 - b)
  wide_mask =
      rw (unit-suc b w.depth) (doubled_mask (2 ^ (b + 1)) half_unit (pow-split_24 (b + 1) w.depth))

  coarse : q * half_unit / 2 ^ (24 - b) ≡ q / 2
  coarse =
      let u : 2 ^ (24 - b) ≡ 2 * half_unit = unit-suc b w.depth in
      let p : 1 ≤ half_unit = unit_pos (b + 1) in
      let e : q * half_unit ≡ q / 2 * (2 * half_unit) + q % 2 * half_unit =
        omega (arith, ap (λ (t : ℕ). t * half_unit) (halves q)) in
      rw u (
        div_unique (q * half_unit) (2 * half_unit) (q / 2) (q % 2 * half_unit) e
          (parity_fits (q % 2) half_unit (omega arith) p))

  narrow : q / 2 % 2 ^ (b + 1) ≡ q / 2
  narrow = mod_unique (q / 2) (2 ^ (b + 1)) 0 (q / 2) (omega arith) (omega (arith, w.fits))

  pub frag_parent-IsFrag : IsFrag (frag_parent f) b (q / 2)
  unfolding frag_parent frag_mask
  frag_parent-IsFrag =
      let d : b + 1 ≤ 24 = w.depth in
      let e : sub32 (b + 1) 1 ≡ b = omega arith in
      let u : 2 ^ (24 - b) ≡ 2 * half_unit = unit-suc b w.depth in
      rw
        (
          IsFrag-frag_bits f (b + 1) q w,
          IsFrag-frag_value f (b + 1) q w,
          e,
          mask-eq (b + 1) w.depth,
          wide_mask,
          bit_and_high (24 - b) (q * half_unit) (2 ^ (b + 1) - 1),
          coarse,
          bit_and_low (b + 1) (q / 2),
          narrow,
        )
        (frag_make-IsFrag b (q / 2) 0 (q / 2 * 2 ^ (24 - b)) (omega arith) half-fits (omega arith)
          (unit_pos b))

  flipped : bit_xor (q * half_unit) half_unit ≡ (q / 2 * 2 + (1 - q % 2)) * half_unit
  flipped =
      let p : 1 ≤ half_unit = unit_pos (b + 1) in
      let digit : bit_xor q 1 ≡ q / 2 * 2 + (1 - q % 2) =
        omega (arith, bit_xor_digit q 1, bit_xor-zero (q / 2), differ_one (q % 2) (omega arith)) in
      xor_unit (24 - (b + 1)) q ∙ ap (λ (t : ℕ). t * half_unit) digit

  sibling-fits : q / 2 * 2 + (1 - q % 2) + 1 ≤ 2 ^ (b + 1)
  sibling-fits =
      let e : b + 1 ≡ suc b = omega arith in
      let h : q + 1 ≤ 2 ^ suc b = rw e at w.fits in rw e (omega (arith, pow-suc 2 b))

  pub frag_sibling-IsFrag : IsFrag (frag_sibling f) (b + 1) (q / 2 * 2 + (1 - q % 2))
  unfolding frag_sibling
  frag_sibling-IsFrag =
      let p : 1 ≤ half_unit = unit_pos (b + 1) in
      rw
        (
          IsFrag-frag_bits f (b + 1) q w,
          IsFrag-frag_value f (b + 1) q w,
          unit-shift (b + 1) w.depth,
          flipped,
        )
        (frag_make-IsFrag (b + 1) (q / 2 * 2 + (1 - q % 2)) 0
          ((q / 2 * 2 + (1 - q % 2)) * half_unit) w.depth sibling-fits (omega arith) p)

  child_bit : bit_and (q * half_unit) half_unit ≡ q % 2 * half_unit
  child_bit =
      let p : 1 ≤ half_unit = unit_pos (b + 1) in
      let d : q * half_unit / half_unit ≡ q = div_unique _ half_unit q 0 (omega arith) p in
      and_unit (24 - (b + 1)) (q * half_unit) ∙ rw d refl

IsFrag-unique : (f g b q r : ℕ) → IsFrag f b q → IsFrag g b r → q ≡ r → f ≡ g
IsFrag-unique f g b q r w v e =
    w.word ∙ ap (λ (t : ℕ). b * 2 ^ 24 + t * 2 ^ (24 - b)) e ∙ sym v.word

split_range :
    (q u h n : ℕ)
    → u ≡ 2 * h
    → ((q * u ≤ n) × (n < (q + 1) * u)) ↔ (
        ((2 * q * h ≤ n) × (n < (2 * q + 1) * h))
        ⊎ (((2 * q + 1) * h ≤ n) × (n < (2 * q + 1 + 1) * h)))
split_range q u h n e = (forth, back)
  where
    scaled : q * u ≡ 2 * (q * h)
    scaled = omega (arith, ap (λ (t : ℕ). q * t) e)

    forth :
        (q * u ≤ n) × (n < (q + 1) * u)
        → ((2 * q * h ≤ n) × (n < (2 * q + 1) * h))
          ⊎ (((2 * q + 1) * h ≤ n) × (n < (2 * q + 1 + 1) * h))
    forth p = elim (dec_lt n ((2 * q + 1) * h)) [
      | yes l ↦ inl (omega (arith, scaled, p.0), l)
      | no r ↦ inr (omega arith, omega (arith, scaled, e, p.1))
    ]

    back :
        ((2 * q * h ≤ n) × (n < (2 * q + 1) * h))
          ⊎ (((2 * q + 1) * h ≤ n) × (n < (2 * q + 1 + 1) * h))
        → (q * u ≤ n) × (n < (q + 1) * u)
    back (inl p) = (omega (arith, scaled, p.0), omega (arith, scaled, e, p.1))
    back (inr p) = (omega (arith, scaled, p.0), omega (arith, scaled, e, p.1))

apart : (q h n : ℕ) → n < (q + 1) * h → (q + 1) * h ≤ n → ⊥
apart q h n a c = omega arith

unit-big : (b : ℕ) → b < 24 → 2 ≤ 2 ^ (24 - b)
unit-big b h = omega (arith, unit-suc b (omega arith), unit_pos (b + 1))

left_test : (b q u : ℕ) → 1 ≤ u → ((ltb 0 (b + 1) && (q % 2 * u == 0)) ≡ true) ↔ (q % 2 ≡ 0)
left_test b q u p = grind arith

bit_times : (x u : ℕ) → x < 2 → 2 ≤ u → x * u ≢ 1
bit_times zero u h p = omega arith
bit_times (suc zero) u h p = omega arith
bit_times (suc (suc x)) u h p = absurd (omega arith)

right_test : (b q u : ℕ) → 2 ≤ u → (ltb 0 (b + 1) && (q % 2 * u == 1)) ≡ false
right_test b q u p = ground (arith, bit_times (q % 2) u)

-- The two children of a frag of fewer than 24 bits with index q are well formed, one deeper, with
-- the indices 2 q and 2 q + 1, and siblings of each other, and the parent of either is the frag.
pub children-IsFrag :
    (f b q : ℕ)
    → IsFrag f b q
    → b + 1 ≤ 24
    → (frag_parent (frag_left_child f) ≡ f)
      × (frag_parent (frag_right_child f) ≡ f)
      × (frag_sibling (frag_left_child f) ≡ frag_right_child f)
      × (frag_sibling (frag_right_child f) ≡ frag_left_child f)
      × IsFrag (frag_left_child f) (b + 1) (2 * q)
      × IsFrag (frag_right_child f) (b + 1) (2 * q + 1)
children-IsFrag f b q w room =
    let l = frag_left_child-IsFrag f b q w room in
    let r = frag_right_child-IsFrag f b q w room in
    (
      IsFrag-unique _ f b (2 * q / 2) q (frag_parent-IsFrag _ b (2 * q) l) w (omega arith),
      IsFrag-unique _ f b ((2 * q + 1) / 2) q (frag_parent-IsFrag _ b (2 * q + 1) r) w
          (omega arith),
      IsFrag-unique _ _ (b + 1) _ (2 * q + 1) (frag_sibling-IsFrag _ b (2 * q) l) r (omega arith),
      IsFrag-unique _ _ (b + 1) _ (2 * q) (frag_sibling-IsFrag _ b (2 * q + 1) r) l (omega arith),
      l,
      r,
    )

-- A value lies in a frag of fewer than 24 bits exactly when it lies in one of its two children,
-- and never in both.
pub frag_children_partition :
    (f b q v : ℕ)
    → IsFrag f b q
    → b + 1 ≤ 24
    → ((frag_contains_value f v ≡ true) ↔ (
        (frag_contains_value (frag_left_child f) v ≡ true)
        ⊎ (frag_contains_value (frag_right_child f) v ≡ true)))
      × ¬ (
          (frag_contains_value (frag_left_child f) v ≡ true)
          × (frag_contains_value (frag_right_child f) v ≡ true))
frag_children_partition f b q v w room =
    let whole = frag_contains_value_iff f b q v w in
    let left = frag_contains_value_iff _ (b + 1) (2 * q) v (frag_left_child-IsFrag f b q w room) in
    let right =
      frag_contains_value_iff _ (b + 1) (2 * q + 1) v (frag_right_child-IsFrag f b q w room) in
    let cut = split_range q (2 ^ (24 - b)) (2 ^ (24 - (b + 1))) (v % 2 ^ 24) (unit-suc b room) in
    (
      (
        λ h. elim (cut.0 (whole.0 h)) [ inl a ↦ inl (left.1 a) | inr c ↦ inr (right.1 c) ],
        λ h. elim h [
          | inl a ↦ whole.1 (cut.1 (inl (left.0 a)))
          | inr c ↦ whole.1 (cut.1 (inr (right.0 c)))
        ],
      ),
      λ h. apart (2 * q) (2 ^ (24 - (b + 1))) (v % 2 ^ 24) (left.0 h.0).1 (right.0 h.1).0,
    )

-- `ceph_frag_is_left_child` recognises the left children: of a frag with index q at a depth of at
-- least one it says whether q is even.
pub frag_is_left_child_iff :
    (f b q : ℕ) → IsFrag f (b + 1) q → (frag_is_left_child f ≡ true) ↔ (q % 2 ≡ 0)
unfolding frag_is_left_child
frag_is_left_child_iff f b q w =
    rw
      (
        IsFrag-frag_bits f (b + 1) q w,
        IsFrag-frag_value f (b + 1) q w,
        unit-shift (b + 1) w.depth,
        child_bit f b q w,
      )
      (left_test b q (2 ^ (24 - (b + 1))) (unit_pos (b + 1)))

-- `ceph_frag_is_right_child` compares the masked bit with 1: it is false of every frag of 1 to 23
-- bits, right children included.
pub frag_is_right_child-false :
    (f b q : ℕ) → IsFrag f (b + 1) q → b + 1 < 24 → frag_is_right_child f ≡ false
unfolding frag_is_right_child
frag_is_right_child-false f b q w h =
    rw
      (
        IsFrag-frag_bits f (b + 1) q w,
        IsFrag-frag_value f (b + 1) q w,
        unit-shift (b + 1) w.depth,
        child_bit f b q w,
      )
      (right_test b q (2 ^ (24 - (b + 1))) (unit-big (b + 1) h))

-- `ceph_frag_next` of a frag that is not the last of its depth is the next interval.
pub frag_next-IsFrag : (f b q : ℕ) → IsFrag f b q → q + 1 < 2 ^ b → IsFrag (frag_next f) b (q + 1)
unfolding frag_next
frag_next-IsFrag f b q w h =
    let u : ℕ = 2 ^ (24 - b) in
    let p : 1 ≤ 2 ^ (24 - b) = unit_pos b in
    let fit : q * 2 ^ (24 - b) + 2 ^ (24 - b) ≤ 2 ^ 24 = value-lt b q w.depth w.fits in
    let e : u32 (q * 2 ^ (24 - b) + 2 ^ (24 - b)) ≡ (q + 1) * 2 ^ (24 - b) = omega arith in
    rw (IsFrag-frag_bits f b q w, IsFrag-frag_value f b q w, unit-shift b w.depth, e)
      (frag_make-IsFrag b (q + 1) 0 ((q + 1) * 2 ^ (24 - b)) w.depth (omega arith) (omega arith) p)

unit-deeper : (b by : ℕ) → b + by ≤ 24 → 2 ^ (24 - b) ≡ 2 ^ by * 2 ^ (24 - (b + by))
unit-deeper b by h =
    let e : 24 - b ≡ by + (24 - (b + by)) = omega arith in
    ap (λ (t : ℕ). 2 ^ t) e ∙ pow-split by (24 - (b + by))

mul_lt : (i n u : ℕ) → i < n → 1 ≤ u → i * u < n * u
mul_lt i n u h p = grind arith

index_fits : (q i m n : ℕ) → q + 1 ≤ m → i < n → q * n + i + 1 ≤ m * n
index_fits q i m n h k = grind arith

-- The i-th of the 2 ^ by children that `ceph_frag_make_child` makes of a frag is well formed, `by`
-- bits deeper, and has the i-th index among those of the frag.
pub frag_make_child-IsFrag :
    (f b q by i : ℕ)
    → IsFrag f b q
    → b + by ≤ 24
    → i < 2 ^ by
    → IsFrag (frag_make_child f by i) (b + by) (q * 2 ^ by + i)
unfolding frag_make_child
frag_make_child-IsFrag f b q by i w room h =
    let n : ℕ = b + by in
    let p : 1 ≤ 2 ^ (24 - (b + by)) = unit_pos (b + by) in
    let u : 2 ^ (24 - b) ≡ 2 ^ by * 2 ^ (24 - (b + by)) = unit-deeper b by room in
    let s : sub32 24 (b + by) ≡ 24 - (b + by) = omega arith in
    let top : 2 ^ (24 - b) ≤ 2 ^ 24 = omega (arith, value-lt b q w.depth w.fits) in
    let lt : i * 2 ^ (24 - (b + by)) < 2 ^ (24 - b) =
      rw u (mul_lt i (2 ^ by) (2 ^ (24 - (b + by))) h p) in
    let e : i * 2 ^ (24 - (b + by)) % 2 ^ 32 ≡ i * 2 ^ (24 - (b + by)) = omega arith in
    let v : q * 2 ^ (24 - b) + i * 2 ^ (24 - (b + by))
        ≡ (q * 2 ^ by + i) * 2 ^ (24 - (b + by)) + 0 =
      omega (arith, ap (λ (t : ℕ). q * t) u) in
    rw
      (
        IsFrag-frag_bits f b q w,
        IsFrag-frag_value f b q w,
        s,
        e,
        bit_or_sum (24 - b) q (i * 2 ^ (24 - (b + by))) lt,
      )
      (frag_make-IsFrag (b + by) (q * 2 ^ by + i) 0 (q * 2 ^ (24 - b) + i * 2 ^ (24 - (b + by)))
        room (rw (pow-split b by) (index_fits q i (2 ^ b) (2 ^ by) w.fits h)) v p)
