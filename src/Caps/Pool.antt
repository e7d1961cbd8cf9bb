-- ===== src/Caps/Pool.antt =====
-- The preallocated caps of a metadata client: fs/ceph/caps.c, ceph_reserve_caps and the functions
-- after it. A cap is a number that names it. The counts are integers that never fall below 0 here:
-- a cap that is put is in use. A BUG_ON that fires is a fault.
pub mod Counts
pub mod Threads
use kmod_ceph.Base.{
  ℕ, zero, suc, ◌+◌, ◌-◌, ◌*◌, ◌/◌, ◌%◌, ◌^◌, ◌≤◌, ◌<◌, min, max, bit_and, bit_or, bit_xor, ◌≡◌,
  refl, sym, subst, ap, ◌∙◌, ◌≢◌, ◌↔◌, ◌⊎◌, inl, inr, Bool, true, false, not, ◌&&◌, ◌||◌, Option,
  none, some, List, [], ◌∷◌, ◌++◌, map, arith, ltb, leb, ◌==◌, if◌then◌else◌, Bool-cases,
  Option-cases, length, get_elem?, set, take, drop, All, length-append, length-set, length-take,
  length-drop, take-append-drop, u8, u32, u64, sub32, ◌<<<◌, ◌>>>◌, mod_unique, div_unique,
}
use kmod_ceph.Base.Int.{ℤ, pos, negsuc}
use kmod_ceph.Crush.Outcome.{Outcome, ok, fault, ◌>>=◌, ◌>>◌}

-- The fields of struct ceph_mds_client that the functions use.
pub record Mdsc : Type 0 where
  pub caps_list : List ℕ
  pub caps_total_count : ℕ
  pub caps_use_count : ℕ
  pub caps_reserve_count : ℕ
  pub caps_avail_count : ℕ
  pub caps_min_count : ℕ

-- BUG_ON of a condition.
abbrev pub bug_on : Bool → Outcome (Unit {0})
bug_on true = fault
bug_on false = ok tt

-- The BUG_ON on the total that ends most of the functions.
abbrev pub check_total : Mdsc → Outcome Mdsc
check_total m = do
  bug_on (not (m.caps_total_count == m.caps_use_count + m.caps_reserve_count + m.caps_avail_count))
  ok m

unfoldable pub adjust_min_caps : Mdsc → ℤ → Outcome Mdsc
adjust_min_caps m (pos n) = ok (record m { caps_min_count = m.caps_min_count + n })
adjust_min_caps m (negsuc n) = do
  bug_on (ltb m.caps_min_count (suc n))
  ok (record m { caps_min_count = m.caps_min_count - suc n })

-- The caps that are there already.
abbrev pub have_of : Mdsc → ℕ → ℕ
have_of m need = if leb need m.caps_avail_count then need else m.caps_avail_count

-- `ceph_reserve_caps` up to the allocations, which run without the lock.
unfoldable pub reserve_first : Mdsc → ℕ → Outcome Mdsc
reserve_first m need =
    let have = have_of m need in
    check_total (record m {
      caps_avail_count = m.caps_avail_count - have;
      caps_reserve_count = m.caps_reserve_count + have;
    })

-- `ceph_reserve_caps` after the allocations, with the caps that they gave.
unfoldable pub reserve_second : Mdsc → List ℕ → Outcome Mdsc
reserve_second m newcaps = check_total (record m {
  caps_total_count = m.caps_total_count + length newcaps;
  caps_reserve_count = m.caps_reserve_count + length newcaps;
  caps_list = newcaps ++ m.caps_list;
})

-- The whole of `ceph_reserve_caps` with nothing in between, with the caps that the allocator can
-- give; the count of the reservation is the first part of the result.
unfoldable pub reserve_caps : Mdsc → ℕ → List ℕ → Outcome (ℕ × Mdsc)
reserve_caps m need supply = do
  m1 ← reserve_first m need
  m2 ← reserve_second m1 (take (need - have_of m need) supply)
  ok (need, m2)

-- The count of the reservation after it is 0.
unfoldable pub unreserve_caps : Mdsc → ℕ → Outcome Mdsc
unreserve_caps m count = if count == 0 then ok m else (do
  bug_on (ltb m.caps_reserve_count count)
  check_total (record m {
    caps_reserve_count = m.caps_reserve_count - count;
    caps_avail_count = m.caps_avail_count + count;
  }))

-- `ceph_get_cap` without a reservation; the allocation may fail.
unfoldable pub get_cap_direct : Mdsc → Option ℕ → Mdsc
get_cap_direct m none = m
get_cap_direct m (some cap) = record m {
  caps_use_count = m.caps_use_count + 1;
  caps_total_count = m.caps_total_count + 1;
}

-- The first entry of `caps_list` leaves it.
unfoldable pub take_cap : Mdsc → List ℕ → Outcome (ℕ × Mdsc)
take_cap m [] = fault
take_cap m (cap ∷ caps_list) = do
  m' ← check_total (record m {
    caps_reserve_count = m.caps_reserve_count - 1;
    caps_use_count = m.caps_use_count + 1;
    caps_list = caps_list;
  })
  ok (cap, m')

-- `ceph_get_cap` with a reservation, whose count falls by one.
unfoldable pub get_cap : Mdsc → ℕ → Outcome (ℕ × Mdsc)
get_cap m count = do
  bug_on (count == 0)
  bug_on (ltb m.caps_reserve_count count)
  take_cap m m.caps_list

unfoldable pub put_cap : Mdsc → ℕ → Outcome Mdsc
put_cap m cap =
    if m.caps_use_count == 0
    then fault
    else check_total (
        if leb (m.caps_reserve_count + m.caps_min_count) m.caps_avail_count
        then record m {
          caps_use_count = m.caps_use_count - 1;
          caps_total_count = m.caps_total_count - 1;
        }
        else record m {
          caps_use_count = m.caps_use_count - 1;
          caps_avail_count = m.caps_avail_count + 1;
          caps_list = cap ∷ m.caps_list;
        })

-- Every cap that is allocated is in use, reserved or available, and the list holds the last two.
pub record IsBalanced (m : Mdsc) : Type 0 where
  pub total : m.caps_total_count ≡ m.caps_use_count + m.caps_reserve_count + m.caps_avail_count
  pub listed : length m.caps_list ≡ m.caps_reserve_count + m.caps_avail_count

-- With nothing reserved by others, `ceph_reserve_caps` that cannot get all the caps still sets the
-- count of the reservation to all of them, and giving it back with `ceph_unreserve_caps` is a BUG.
pub unreserve_caps-short :
    (m : Mdsc) (need : ℕ) (supply : List ℕ)
    → IsBalanced m
    → m.caps_reserve_count ≡ 0
    → m.caps_avail_count + length supply < need
    → (reserve_caps m need supply >>= λ r. unreserve_caps r.1 r.0) ≡ fault
unfolding reserve_caps reserve_first reserve_second unreserve_caps
unreserve_caps-short m need supply b z short =
    ground (arith, length-take (need - m.caps_avail_count) supply)
