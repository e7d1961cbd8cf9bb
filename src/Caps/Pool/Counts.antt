-- ===== src/Caps/Pool/Counts.antt =====
-- What each function of the pool does to the counts, and that it meets no BUG_ON.
use kmod_ceph.Base.{
  ℕ, ◌+◌, ◌-◌, ◌≤◌, ◌<◌, ◌≡◌, refl, ap, inl, inr, false, some, List, [], ◌∷◌, ◌++◌, arith, ltb, leb,
  ◌==◌, Bool-cases, length, length-append,
}
use kmod_ceph.Crush.Outcome.{ok}
use kmod_ceph.Caps.Pool.{
  Mdsc, have_of, reserve_first, reserve_second, unreserve_caps, get_cap_direct, take_cap, get_cap,
  put_cap, IsBalanced,
}

-- A result that is balanced, with so many caps reserved and in use.
pub record Leaves (reserved used : ℕ) (m : Mdsc) : Type 0 where
  pub balanced : IsBalanced m
  pub reserve_eq : m.caps_reserve_count ≡ reserved
  pub use_eq : m.caps_use_count ≡ used

pub reserve_first-Leaves :
    (m : Mdsc) (need : ℕ)
    → IsBalanced m
    → (m' : Mdsc) × (reserve_first m need ≡ ok m')
      × Leaves (m.caps_reserve_count + have_of m need) m.caps_use_count m'
unfolding reserve_first
reserve_first-Leaves m need b = (
  record m {
    caps_avail_count = m.caps_avail_count - have_of m need;
    caps_reserve_count = m.caps_reserve_count + have_of m need;
  },
  ground arith,
  ground arith,
)

pub reserve_second-Leaves :
    (m : Mdsc) (newcaps : List ℕ)
    → IsBalanced m
    → (m' : Mdsc) × (reserve_second m newcaps ≡ ok m')
      × Leaves (m.caps_reserve_count + length newcaps) m.caps_use_count m'
unfolding reserve_second
reserve_second-Leaves m newcaps b = (
  record m {
    caps_total_count = m.caps_total_count + length newcaps;
    caps_reserve_count = m.caps_reserve_count + length newcaps;
    caps_list = newcaps ++ m.caps_list;
  },
  ground arith,
  ground (arith, length-append newcaps m.caps_list),
)

pub unreserve_caps-Leaves :
    (m : Mdsc) (count : ℕ)
    → IsBalanced m
    → count ≤ m.caps_reserve_count
    → (m' : Mdsc) × (unreserve_caps m count ≡ ok m')
      × Leaves (m.caps_reserve_count - count) m.caps_use_count m'
unfolding unreserve_caps
unreserve_caps-Leaves m count b h = elim (Bool-cases (count == 0)) [
  | inl none_held ↦ (m, rw none_held refl, ground arith)
  | inr some_held ↦ (
    record m {
      caps_reserve_count = m.caps_reserve_count - count;
      caps_avail_count = m.caps_avail_count + count;
    },
    ground arith,
    ground arith,
  )
]

take_cap-Leaves :
    (m : Mdsc) (caps_list : List ℕ)
    → m.caps_list ≡ caps_list
    → IsBalanced m
    → 0 < m.caps_reserve_count
    → (r : ℕ × Mdsc) × (take_cap m caps_list ≡ ok r)
      × Leaves (m.caps_reserve_count - 1) (m.caps_use_count + 1) r.1
unfolding take_cap
take_cap-Leaves m [] e b h = absurd (omega (arith, b.listed, ap length e))
take_cap-Leaves m (cap ∷ caps_list) e b h = (
  (
    cap,
    record m {
      caps_reserve_count = m.caps_reserve_count - 1;
      caps_use_count = m.caps_use_count + 1;
      caps_list = caps_list;
    },
  ),
  ground arith,
  omega (arith, b.listed, b.total, ap length e),
)

pub get_cap-Leaves :
    (m : Mdsc) (count : ℕ)
    → IsBalanced m
    → 0 < count
    → count ≤ m.caps_reserve_count
    → (r : ℕ × Mdsc) × (get_cap m count ≡ ok r)
      × Leaves (m.caps_reserve_count - 1) (m.caps_use_count + 1) r.1
unfolding get_cap
get_cap-Leaves m count b h le =
    let (r, e, l) = take_cap-Leaves m m.caps_list refl b (omega arith) in
    let z : (count == 0) ≡ false = ground arith in
    let z' : ltb m.caps_reserve_count count ≡ false = ground arith in (r, rw (z, z') e, l)

pub get_cap_direct-Leaves :
    (m : Mdsc) (cap : ℕ)
    → IsBalanced m
    → Leaves m.caps_reserve_count (m.caps_use_count + 1) (get_cap_direct m (some cap))
unfolding get_cap_direct
get_cap_direct-Leaves m cap b = omega arith

pub put_cap-Leaves :
    (m : Mdsc) (cap : ℕ)
    → IsBalanced m
    → 0 < m.caps_use_count
    → (m' : Mdsc) × (put_cap m cap ≡ ok m') × Leaves m.caps_reserve_count (m.caps_use_count - 1) m'
unfolding put_cap
put_cap-Leaves m cap b h =
    elim (Bool-cases (leb (m.caps_reserve_count + m.caps_min_count) m.caps_avail_count)) [
      | inl plenty ↦ (
        record m {
          caps_use_count = m.caps_use_count - 1;
          caps_total_count = m.caps_total_count - 1;
        },
        ground arith,
        omega arith,
      )
      | inr few ↦ (
        record m {
          caps_use_count = m.caps_use_count - 1;
          caps_avail_count = m.caps_avail_count + 1;
          caps_list = cap ∷ m.caps_list;
        },
        ground arith,
        omega arith,
      )
    ]
