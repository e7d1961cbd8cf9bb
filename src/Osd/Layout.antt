-- ===== src/Osd/Layout.antt =====
-- `ceph_file_layout_is_valid` of net/ceph/ceph_fs.c.
use native.Mathlib.Nat.{div-add-mod', mod-lt}
use kmod_ceph.Base.{
  ℕ, ◌+◌, ◌-◌, ◌*◌, ◌/◌, ◌%◌, ◌^◌, ◌≤◌, ◌<◌, ◌≡◌, ◌∙◌, refl, ap, subst, arith, Bool, true, false,
  ◌||◌, not, ltb, ◌==◌, if◌then◌else◌, bit_and, mod_unique, holds_below_at,
}
use native.Mathlib.Decide.{ℕ_discrete}
use kmod_ceph.Base.Bits.{bit_and_low, pow-pos}
use kmod_ceph.Osd.Striping.{FileLayout, is_invalid}

abbrev pub min_stripe_unit : ℕ
min_stripe_unit = 65536

unfoldable pub file_layout_is_valid : FileLayout → Bool
file_layout_is_valid l =
    let su = l.stripe_unit in
    let os = l.object_size in
    if su == 0 || not (bit_and su (min_stripe_unit - 1) == 0)
    then false
    else if os == 0 || not (bit_and os (min_stripe_unit - 1) == 0)
    then false
    else if ltb os su || (if su == 0 then true else not (os % su == 0))
    then false
    else not (l.stripe_count == 0)

valid-parts :
    (l : FileLayout)
    → file_layout_is_valid l ≡ true
    → (0 < l.stripe_unit)
      × (0 < l.stripe_count)
      × (l.stripe_unit ≤ l.object_size)
      × (bit_and l.stripe_unit 65535 ≡ 0)
unfolding file_layout_is_valid
valid-parts l h = ground arith

-- A multiple of 64 KiB is a multiple of every smaller page.
page-mask :
    (su page_shift : ℕ)
    → bit_and su 65535 ≡ 0
    → page_shift ≤ 16
    → bit_and su (2 ^ page_shift - 1) ≡ 0
page-mask su s h le =
    let low = bit_and_low s su in
    let all : bit_and su 65535 ≡ su % 65536 = bit_and_low 16 su in
    let d : su / 65536 * 65536 + su % 65536 ≡ su = div-add-mod' su 65536 in
    let q : 65536 ≡ 2 ^ s * 2 ^ (16 - s) =
      ground (arith, holds_below_at 17 (λ k. 2 ^ k * 2 ^ (16 - k) == 65536) s refl (omega arith)) in
    let r : su ≡ su / 65536 * (2 ^ s * 2 ^ (16 - s)) =
      subst (λ (k : ℕ). su ≡ su / 65536 * k) q (omega arith) in
    low ∙ mod_unique su (2 ^ s) (su / 65536 * 2 ^ (16 - s)) 0 (omega (arith, r)) (pow-pos s)

unit_fits : (os su : ℕ) → 0 < su → su ≤ os → 0 < os / su
unit_fits os su h le =
    let d : os / su * su + os % su ≡ os = div-add-mod' os su in
    let r = mod-lt os h in
    elim (ℕ_discrete (os / su) 0) [
      | yes none ↦
          let z : os / su * su ≡ 0 * su = ap (λ (t : ℕ). t * su) none in absurd (omega arith)
      | no many ↦ omega arith
    ]

-- A layout that `ceph_file_layout_is_valid` accepts is never refused by
-- `ceph_calc_file_object_mapping`, on machines with pages of up to 64 KiB.
pub is_invalid-file_layout_is_valid :
    (page_shift : ℕ) (l : FileLayout)
    → page_shift ≤ 16
    → file_layout_is_valid l ≡ true
    → is_invalid page_shift l ≡ false
is_invalid-file_layout_is_valid page_shift l le h =
    let (unit, count, fits, aligned) = valid-parts l h in
    let m = page-mask l.stripe_unit page_shift aligned le in
    let some_units = unit_fits l.object_size l.stripe_unit unit fits in
    ground (arith, m, some_units, unit, count)
