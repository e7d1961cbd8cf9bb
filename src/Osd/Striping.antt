-- ===== src/Osd/Striping.antt =====
-- `ceph_calc_file_object_mapping` of net/ceph/osdmap.c: where a byte of a striped file lies. The
-- page size of the machine is 2 ^ page_shift.
use native.Mathlib.Nat.{div-add-mod, div-add-mod', mod-lt, mul-le-mul_right, mul-le-mul_left}
use kmod_ceph.Base.{
  ℕ, ◌+◌, ◌-◌, ◌*◌, ◌/◌, ◌%◌, ◌^◌, ◌≤◌, ◌<◌, ◌≡◌, refl, arith, min, Option, none, some, Bool, true,
  false, ◌||◌, not, ◌==◌, if◌then◌else◌, bit_and, u32, div_unique, mod_unique, Bool-cases, inl, inr,
  ◌⊎◌,
}
use kmod_ceph.Base.Bits.{bit_and_low}

-- `struct ceph_file_layout`, the fields that the mapping reads.
pub record FileLayout : Type 0 where
  pub stripe_unit : ℕ
  pub stripe_count : ℕ
  pub object_size : ℕ

pub record Extent : Type 0 where
  pub ono : ℕ
  pub oxoff : ℕ
  pub oxlen : ℕ

-- The tests that jump to `invalid`.
abbrev pub is_invalid : ℕ → FileLayout → Bool
is_invalid page_shift l =
    (l.stripe_unit == 0 || l.stripe_count == 0)
    || (if l.stripe_unit == 0 then true else l.object_size / l.stripe_unit == 0)
    || not (bit_and l.stripe_unit (2 ^ page_shift - 1) == 0)

-- The extent when no test fails; `bl` and the numbers made from it are 32 bits wide.
unfoldable pub extent_of : FileLayout → ℕ → ℕ → Extent
extent_of l off len =
    let su = l.stripe_unit in
    let su_per_object = l.object_size / su in
    let bl = u32 (off / su) in
    let stripeno = bl / l.stripe_count in
    let stripepos = bl % l.stripe_count in
    let objsetno = stripeno / su_per_object in
    let su_offset = off % su in
    record {
      ono = u32 (objsetno * l.stripe_count + stripepos);
      oxoff = su_offset + u32 (stripeno % su_per_object * su);
      oxlen = min len (su - su_offset);
    }

-- `none` is -EINVAL, with all three results 0.
unfoldable pub calc_file_object_mapping : ℕ → FileLayout → ℕ → ℕ → Option Extent
calc_file_object_mapping page_shift l off len =
    if is_invalid page_shift l then none else some (extent_of l off len)

-- The place in the file of byte `at` of object `ono`.
abbrev pub file_offset : FileLayout → ℕ → ℕ → ℕ
file_offset l ono at =
    let su = l.stripe_unit in
    let su_per_object = l.object_size / su in
    let stripeno = ono / l.stripe_count * su_per_object + at / su in
    (stripeno * l.stripe_count + ono % l.stripe_count) * su + at % su

module _ (su sc spo off : ℕ) (unit : 0 < su) (count : 0 < sc) (units : 0 < spo) where
  -- The number of the object does not pass the number of the block.
  ono-le : off / su / sc / spo * sc + off / su % sc ≤ off / su
  ono-le =
      let d = div-add-mod (off / su) sc in
      let d' = div-add-mod (off / su / sc) spo in
      let small : off / su / sc / spo * 1 ≤ off / su / sc / spo * spo =
        mul-le-mul_left (off / su / sc / spo) units in
      let le : off / su / sc / spo ≤ off / su / sc = omega arith in
      let p = mul-le-mul_right sc le in omega arith

  -- The stripe unit ends inside the object.
  unit-le : off / su / sc % spo * su + su ≤ spo * su
  unit-le =
      let lt = mod-lt (off / su / sc) units in
      let le : off / su / sc % spo + 1 ≤ spo = omega arith in
      let p = mul-le-mul_right su le in omega arith

  abbrev ono_of : ℕ
  ono_of = off / su / sc / spo * sc + off / su % sc

  abbrev oxoff_of : ℕ
  oxoff_of = off % su + off / su / sc % spo * su

  -- The extent starts in its stripe unit where `off` lies in the block.
  oxoff-unit : oxoff_of % su ≡ off % su
  oxoff-unit =
      mod_unique oxoff_of su (off / su / sc % spo) (off % su) (omega arith) (mod-lt off unit)

  -- The place in the file is put together again from the parts.
  offset-parts : ((ono_of / sc * spo + oxoff_of / su) * sc + ono_of % sc) * su + oxoff_of % su ≡ off
  offset-parts =
      let r = mod-lt (off / su) count in
      let r' = mod-lt off unit in
      let o1 = div_unique ono_of sc (off / su / sc / spo) (off / su % sc) refl r in
      let o2 = mod_unique ono_of sc (off / su / sc / spo) (off / su % sc) refl r in
      let x1 = div_unique oxoff_of su (off / su / sc % spo) (off % su) (omega arith) r' in
      let x2 = mod_unique oxoff_of su (off / su / sc % spo) (off % su) (omega arith) r' in
      let s = div-add-mod' (off / su / sc) spo in
      let b = div-add-mod' (off / su) sc in
      let w = div-add-mod' off su in rw (o1, o2, x1, x2, s, b) w

-- What the three results say: the extent starts at the place of `off`, it is not longer than asked
-- for, and ends inside the object and inside its stripe unit. It is shorter than asked for only when
-- it ends where the stripe unit ends.
pub record IsExtent (l : FileLayout) (off len : ℕ) (e : Extent) : Type 0 where
  pub starts : file_offset l e.ono e.oxoff ≡ off
  pub at_most : e.oxlen ≤ len
  pub inside_unit : e.oxoff % l.stripe_unit + e.oxlen ≤ l.stripe_unit
  pub longest : (e.oxlen ≡ len) ⊎ (e.oxoff % l.stripe_unit + e.oxlen ≡ l.stripe_unit)
  pub inside : e.oxoff + e.oxlen ≤ l.object_size

extent_of-IsExtent :
    (l : FileLayout) (off len : ℕ)
    → 0 < l.stripe_unit
    → 0 < l.stripe_count
    → 0 < l.object_size / l.stripe_unit
    → l.object_size < 2 ^ 32
    → off / l.stripe_unit < 2 ^ 32
    → IsExtent l off len (extent_of l off len)
unfolding extent_of
extent_of-IsExtent l off len unit count units small near =
    let su = l.stripe_unit in
    let spo = l.object_size / l.stripe_unit in
    let le = ono-le su l.stripe_count spo off unit count units in
    let ul = unit-le su l.stripe_count spo off unit count units in
    let d : spo * su + l.object_size % su ≡ l.object_size = div-add-mod' l.object_size su in
    let m = mod-lt off unit in
    let place = oxoff-unit su l.stripe_count spo off unit count units in
    let e1 : u32 (off / su) ≡ off / su = omega arith in
    let e2 : u32 (off / su / l.stripe_count / spo * l.stripe_count + off / su % l.stripe_count)
        ≡ off / su / l.stripe_count / spo * l.stripe_count + off / su % l.stripe_count =
      omega arith in
    let e3 : u32 (off / su / l.stripe_count % spo * su) ≡ off / su / l.stripe_count % spo * su =
      omega arith in
    rw (e1, e2, e3)
      (record {
        starts = offset-parts su l.stripe_count spo off unit count units;
        at_most = omega arith;
        inside_unit = rw place (omega arith);
        longest = rw place (ground arith);
        inside = omega arith;
      })

-- The layouts to refuse: the stripe unit or the count is 0, an object holds no stripe unit, or the
-- unit is no multiple of the page.
abbrev pub IsRefused : ℕ → FileLayout → Type 0
IsRefused page_shift l =
    (l.stripe_unit ≡ 0)
    ⊎ (l.stripe_count ≡ 0)
    ⊎ (l.object_size / l.stripe_unit ≡ 0)
    ⊎ (0 < l.stripe_unit % 2 ^ page_shift)

abbrev pub IsAccepted : ℕ → FileLayout → Type 0
IsAccepted page_shift l =
    (0 < l.stripe_unit)
    × (0 < l.stripe_count)
    × (0 < l.object_size / l.stripe_unit)
    × (l.stripe_unit % 2 ^ page_shift ≡ 0)

is_invalid-Refused :
    (page_shift : ℕ) (l : FileLayout) → is_invalid page_shift l ≡ true → IsRefused page_shift l
is_invalid-Refused page_shift l bad =
    let low = bit_and_low page_shift l.stripe_unit in ground (arith, low, bad)

is_invalid-Accepted :
    (page_shift : ℕ) (l : FileLayout) → is_invalid page_shift l ≡ false → IsAccepted page_shift l
is_invalid-Accepted page_shift l good =
    let low = bit_and_low page_shift l.stripe_unit in
    (ground arith, ground arith, ground arith, ground (arith, low, good))

-- For an object size below 2 ^ 32 and an offset whose block number fits 32 bits,
-- `ceph_calc_file_object_mapping` either refuses, and the stripe unit or the count is 0, an object
-- holds no stripe unit, or the unit is no multiple of the page; or it answers, and none of these
-- holds. The extent of the answer starts at the place of the offset, ends inside the object and
-- inside the stripe unit, is at most as long as asked for, and is shorter only when it ends where
-- the stripe unit ends.
pub calc_file_object_mapping-IsExtent :
    (page_shift : ℕ) (l : FileLayout) (off len : ℕ)
    → l.object_size < 2 ^ 32
    → off / l.stripe_unit < 2 ^ 32
    → IsRefused page_shift l × (calc_file_object_mapping page_shift l off len ≡ none)
      ⊎ IsAccepted page_shift l
        × ((e : Extent) × (calc_file_object_mapping page_shift l off len ≡ some e)
            × IsExtent l off len e)
unfolding calc_file_object_mapping
calc_file_object_mapping-IsExtent page_shift l off len small near =
    elim (Bool-cases (is_invalid page_shift l)) [
      | inl bad ↦ inl (is_invalid-Refused page_shift l bad, rw bad refl)
      | inr good ↦
          let (unit, count, units, aligned) = is_invalid-Accepted page_shift l good in
          inr (
            (unit, count, units, aligned),
            (
              extent_of l off len,
              rw good refl,
              extent_of-IsExtent l off len unit count units small near,
            ),
          )
    ]
