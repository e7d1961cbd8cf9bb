-- ===== src/Osd/Bins.antt =====
-- `ceph_stable_mod` of include/linux/ceph/rados.h and the masks of net/ceph/osdmap.c.
use native.Mathlib.Nat.{div-add-mod', mod-lt, pow-succ', pow-le-pow_right}
use kmod_ceph.Base.{
  ℕ, zero, suc, ◌+◌, ◌-◌, ◌*◌, ◌/◌, ◌%◌, ◌^◌, ◌≤◌, ◌<◌, ◌≡◌, ◌⊎◌, inl, inr, ◌∙◌, refl, sym, ap,
  subst, arith, ltb, ◌==◌, if◌then◌else◌, bit_and, sub32, ◌<<<◌, ◌>>>◌, Bool-cases, mod_unique,
}
use native.Mathlib.Decide.{ℕ_discrete}
use kmod_ceph.Base.Bits.{bit_and_low, pow-pos}

unfoldable pub stable_mod : ℕ → ℕ → ℕ → ℕ
stable_mod x b bmask = if ltb (bit_and x bmask) b then bit_and x bmask else bit_and x (bmask >>> 1)

-- `while (t)`, with `t` of 32 bits and the rounds left.
unfoldable pub bits_loop : ℕ → ℕ → ℕ → ℕ
bits_loop zero t b = b
bits_loop (suc rounds) t b =
    let rest = bits_loop rounds (t >>> 1) (b + 1) in if t == 0 then b else rest

unfoldable pub calc_bits_of : ℕ → ℕ
calc_bits_of t = bits_loop 32 t 0

-- `calc_pg_masks` for one of the two numbers.
unfoldable pub pg_mask : ℕ → ℕ
pg_mask pg_num = (1 <<< calc_bits_of (sub32 pg_num 1)) - 1

-- The loop adds the number of bits.
bits_loop-bounds :
    (rounds t b : ℕ)
    → t < 2 ^ rounds
    → (n : ℕ) × (bits_loop rounds t b ≡ b + n)
      × (t < 2 ^ n)
      × (0 < t → 2 ^ n ≤ 2 * t)
      × (t ≡ 0 → n ≡ 0)
      × (n ≤ rounds)
unfolding bits_loop
bits_loop-bounds zero t b h = (0, omega arith, h, λ p. absurd (omega arith), λ p. refl, omega arith)
bits_loop-bounds (suc rounds) t b h = elim (Bool-cases (t == 0)) [
  | inl done ↦
      (0, rw done (omega arith), ground arith, λ p. absurd (ground arith), λ p. refl, omega arith)
  | inr more ↦
      let (n, e, lt, le, z, few) = bits_loop-bounds rounds (t >>> 1) (b + 1) (omega arith) in
      let p = pow-succ' 2 n in
      let at_zero : t >>> 1 ≡ 0 → 2 ^ n ≡ 1 = (λ q. ap (λ (k : ℕ). 2 ^ k) (z q)) in
      (
        suc n,
        rw more (e ∙ omega arith),
        omega arith,
        λ q. grind arith,
        λ q. absurd (ground arith),
        omega arith,
      )
]

pg_mask-eq : (b n : ℕ) → 1 ≤ b → b < 2 ^ 31 → calc_bits_of (b - 1) ≡ n → pg_mask b ≡ 2 ^ n - 1
unfolding pg_mask
pg_mask-eq b n h lt e = let less : sub32 b 1 ≡ b - 1 = omega arith in rw (less, e) (omega arith)

-- The exponent of the least power of two that is at least b.
pub record IsExponent (b n : ℕ) : Type 0 where
  pub up : b ≤ 2 ^ n
  pub low : 1 < b → 2 ^ n ≤ 2 * (b - 1)
  pub one : b ≡ 1 → n ≡ 0

-- The mask of `b` is one less than the least power of two that is at least b.
pg_mask-power : (b : ℕ) → 1 ≤ b → b < 2 ^ 31 → (n : ℕ) × (pg_mask b ≡ 2 ^ n - 1) × IsExponent b n
unfolding calc_bits_of
pg_mask-power b h lt =
    let (n, e, up, low, z, few) = bits_loop-bounds 32 (b - 1) 0 (omega arith) in
    (
      n,
      pg_mask-eq b n h lt (e ∙ omega arith),
      record { up = omega arith; low = λ q. low (omega arith); one = λ q. z (omega arith) },
    )

half_mask : (n : ℕ) → (2 ^ n - 1) >>> 1 ≡ 2 ^ (n - 1) - 1
half_mask zero = refl
half_mask (suc n) =
    let p = pow-succ' 2 n in let e : suc n - 1 ≡ n = omega arith in rw e (omega arith)

stable_mod-eq :
    (x b n : ℕ)
    → stable_mod x b (2 ^ n - 1) ≡ (if ltb (x % 2 ^ n) b then x % 2 ^ n else x % 2 ^ (n - 1))
unfolding stable_mod
stable_mod-eq x b n =
    let l = bit_and_low n x in let l' = bit_and_low (n - 1) x in rw (half_mask n, l, l') refl

half-le : (b n : ℕ) → 1 ≤ b → IsExponent b n → 2 ^ (n - 1) ≤ b
half-le b zero h ex = omega arith
half-le b (suc n) h ex =
    let p = pow-succ' 2 n in
    let e : suc n - 1 ≡ n = omega arith in
    rw e (elim (ℕ_discrete b 1) [
      | yes one ↦ absurd (omega (arith, ex.one one))
      | no more ↦ omega (arith, ex.low (omega arith))
    ])

-- The residue of the next power of two.
mod-twice : (x w : ℕ) → 0 < w → (x % (2 * w) ≡ x % w) ⊎ (x % (2 * w) ≡ x % w + w)
mod-twice x w h =
    let d = div-add-mod' x w in
    let r = mod-lt x h in
    let c : (x / w ≡ 2 * (x / w / 2)) ⊎ (x / w ≡ 2 * (x / w / 2) + 1) = omega arith in
    elim c [
      | inl even ↦
          let p : x / w * w ≡ 2 * (x / w / 2) * w = ap (λ (t : ℕ). t * w) even in
          inl (mod_unique x (2 * w) (x / w / 2) (x % w) (omega arith) (omega arith))
      | inr odd ↦
          let p : x / w * w ≡ (2 * (x / w / 2) + 1) * w = ap (λ (t : ℕ). t * w) odd in
          inr (mod_unique x (2 * w) (x / w / 2) (x % w + w) (omega arith) (omega arith))
    ]

stable-lt : (x b n : ℕ) → 1 ≤ b → IsExponent b n → stable_mod x b (2 ^ n - 1) < b
stable-lt x b n h ex =
    let p = mod-lt x (pow-pos (n - 1)) in
    let q = half-le b n h ex in rw (stable_mod-eq x b n) (ground arith)

ℕ_cmp : (n m : ℕ) → (n < m) ⊎ ((n ≡ m) ⊎ (m < n))
ℕ_cmp n m = omega arith

-- The exponents of b and b + 1 are the same, or b is the power of two itself.
exponent-step :
    (b n m : ℕ)
    → 1 ≤ b
    → IsExponent b n
    → IsExponent (b + 1) m
    → (n ≡ m) ⊎ ((m ≡ suc n) × (b ≡ 2 ^ n))
exponent-step b n m h ex ex' = elim (ℕ_cmp n m) [
  | inl before ↦
      let p = pow-succ' 2 n in
      let q = pow-succ' 2 (suc n) in
      elim (ℕ_discrete m (suc n)) [
        | yes next ↦
            let e : 2 ^ m ≡ 2 ^ (suc n) = ap (λ (k : ℕ). 2 ^ k) next in
            inr (omega arith, omega (arith, ex.up, ex'.low (omega arith)))
        | no far ↦
            let r : 2 ^ suc (suc n) ≤ 2 ^ m = pow-le-pow_right (omega arith) (omega arith) in
            absurd (omega (arith, ex.up, ex'.low (omega arith)))
      ]
  | inr (inl same) ↦ inl same
  | inr (inr after) ↦
      let p = pow-succ' 2 m in
      let r : 2 ^ suc m ≤ 2 ^ n = pow-le-pow_right (omega arith) (omega arith) in
      elim (ℕ_discrete b 1) [
        | yes one ↦ absurd (omega (arith, ex.one one))
        | no more ↦ absurd (omega (arith, ex'.up, ex.low (omega arith)))
      ]
]

-- One more bin under the same mask, with the residues by the mask and by its half.
pick-same :
    (r r' b : ℕ)
    → ((if ltb r (b + 1) then r else r') ≡ (if ltb r b then r else r'))
      ⊎ ((if ltb r (b + 1) then r else r') ≡ b)
pick-same r r' b = ground arith

-- The first bin under the next mask, with the residues by the next mask and by this one.
pick-next :
    (r2 r s b : ℕ)
    → r < b
    → (r2 ≡ r) ⊎ (r2 ≡ r + b)
    → ((if ltb r2 (b + 1) then r2 else r) ≡ (if ltb r b then r else s))
      ⊎ ((if ltb r2 (b + 1) then r2 else r) ≡ b)
pick-next r2 r s b lt c = ground arith

-- What one more bin does, by the two exponents.
abbrev Steps : ℕ → ℕ → ℕ → ℕ → Type 0
Steps x b n m =
    ((if ltb (x % 2 ^ m) (b + 1) then x % 2 ^ m else x % 2 ^ (m - 1))
      ≡ (if ltb (x % 2 ^ n) b then x % 2 ^ n else x % 2 ^ (n - 1)))
    ⊎ ((if ltb (x % 2 ^ m) (b + 1) then x % 2 ^ m else x % 2 ^ (m - 1)) ≡ b)

at_power : (x b n : ℕ) → b ≡ 2 ^ n → Steps x b n (suc n)
at_power x b n e =
    let p : 2 ^ suc n ≡ 2 * 2 ^ n = pow-succ' 2 n in
    let z : suc n - 1 ≡ n = omega arith in
    let r = mod-lt x (pow-pos n) in
    rw (p, z)
      (pick-next (x % (2 * 2 ^ n)) (x % 2 ^ n) (x % 2 ^ (n - 1)) b (omega arith) (
        subst (λ (k : ℕ). (x % (2 * 2 ^ n) ≡ x % 2 ^ n) ⊎ (x % (2 * 2 ^ n) ≡ x % 2 ^ n + k)) (sym e)
          (mod-twice x (2 ^ n) (pow-pos n))))

stable-step :
    (x b n m : ℕ)
    → 1 ≤ b
    → IsExponent b n
    → IsExponent (b + 1) m
    → (stable_mod x (b + 1) (2 ^ m - 1) ≡ stable_mod x b (2 ^ n - 1))
      ⊎ (stable_mod x (b + 1) (2 ^ m - 1) ≡ b)
stable-step x b n m h ex ex' =
    rw (stable_mod-eq x (b + 1) m, stable_mod-eq x b n)
      (elim (exponent-step b n m h ex ex') [
        | inl same ↦
            subst (λ (k : ℕ). Steps x b n k) same (pick-same (x % 2 ^ n) (x % 2 ^ (n - 1)) b)
        | inr (next, power) ↦ subst (λ (k : ℕ). Steps x b n k) (sym next) (at_power x b n power)
      ])

-- With the masks of the pool and 1 <= pg_num < 2 ^ 31 - 1, `ceph_stable_mod` puts every seed in one of
-- the pg_num bins, and when pg_num grows by one it leaves the seed in its bin or moves it to the new one.
pub stable_mod-stable :
    (x b : ℕ)
    → 1 ≤ b
    → b + 1 < 2 ^ 31
    → (stable_mod x b (pg_mask b) < b)
      × ((stable_mod x (b + 1) (pg_mask (b + 1)) ≡ stable_mod x b (pg_mask b))
          ⊎ (stable_mod x (b + 1) (pg_mask (b + 1)) ≡ b))
stable_mod-stable x b h lt =
    let (n, e, ex) = pg_mask-power b h (omega arith) in
    let (m, e', ex') = pg_mask-power (b + 1) (omega arith) lt in
    rw (e, e') (stable-lt x b n h ex, stable-step x b n m h ex ex')
