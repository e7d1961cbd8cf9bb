-- ===== src/Caps/Issued.antt =====
-- The caps issued for an inode: `__ceph_caps_issued` and its kin of fs/ceph/caps.c. A set of cap bits
-- is a number; the order of a session's caps by last use, which a check may change, is left out.
pub mod Cover
pub mod Tests
use kmod_ceph.Base.{
  ℕ, ◌+◌, ◌-◌, ◌%◌, ◌^◌, Bool, true, false, not, ◌||◌, Option, none, some, List, [], ◌∷◌, ltb, ◌==◌,
  if◌then◌else◌, bit_and, bit_or,
}

-- A cap with the generation and the end of its session's caps.
pub record Cap : Type 0 where
  pub mds : ℕ
  pub issued : ℕ
  pub implemented : ℕ
  pub mds_wanted : ℕ
  pub cap_gen : ℕ
  pub s_cap_gen : ℕ
  pub s_cap_ttl : ℕ

-- The caps in the order of the tree. `i_auth_cap` is one of them, or null.
pub record InodeCaps : Type 0 where
  pub i_snap_caps : ℕ
  pub i_caps : List Cap
  pub i_auth_cap : Option Cap

-- The difference of two `unsigned long` as a signed number.
abbrev pub time_after_eq : ℕ → ℕ → Bool
time_after_eq a b = ltb ((a + 2 ^ 64 - b) % 2 ^ 64) (2 ^ 63)

unfoldable pub cap_is_valid : ℕ → Cap → Bool
cap_is_valid jiffies cap =
    not (ltb cap.cap_gen cap.s_cap_gen || time_after_eq jiffies cap.s_cap_ttl)

unfoldable pub issued_loop : ℕ → List Cap → ℕ → ℕ
issued_loop jiffies [] have = have
issued_loop jiffies (cap ∷ caps) have =
    issued_loop jiffies caps (if cap_is_valid jiffies cap then bit_or have cap.issued else have)

abbrev pub without_revoked : ℕ → Option Cap → ℕ
without_revoked have none = have
without_revoked have (some cap) = bit_and have (bit_or (0xffffffff - cap.implemented) cap.issued)

unfoldable pub caps_issued : ℕ → InodeCaps → ℕ
caps_issued jiffies ci =
    without_revoked (issued_loop jiffies ci.i_caps ci.i_snap_caps) ci.i_auth_cap

abbrev pub covers : ℕ → ℕ → Bool
covers have mask = bit_and have mask == mask

unfoldable pub mask_loop : ℕ → ℕ → List Cap → ℕ → Bool
mask_loop jiffies mask [] have = false
mask_loop jiffies mask (cap ∷ caps) have =
    let rest = mask_loop jiffies mask caps have in
    let rest' = mask_loop jiffies mask caps (bit_or have cap.issued) in
    if not (cap_is_valid jiffies cap)
    then rest
    else if covers cap.issued mask
    then true
    else if covers (bit_or have cap.issued) mask
    then true
    else rest'

unfoldable pub caps_issued_mask : ℕ → InodeCaps → ℕ → Bool
caps_issued_mask jiffies ci mask =
    if covers ci.i_snap_caps mask then true else mask_loop jiffies mask ci.i_caps ci.i_snap_caps

-- An inode has one cap of each mds, by which `ocap` is told from the others; null is `none`.
abbrev pub is_cap : Option ℕ → Cap → Bool
is_cap none cap = false
is_cap (some mds) cap = cap.mds == mds

unfoldable pub issued_other_loop : ℕ → Option ℕ → List Cap → ℕ → ℕ
issued_other_loop jiffies ocap [] have = have
issued_other_loop jiffies ocap (cap ∷ caps) have =
    issued_other_loop jiffies ocap caps
      (if is_cap ocap cap || not (cap_is_valid jiffies cap) then have else bit_or have cap.issued)

unfoldable pub caps_issued_other : ℕ → InodeCaps → Option ℕ → ℕ
caps_issued_other jiffies ci ocap = issued_other_loop jiffies ocap ci.i_caps ci.i_snap_caps

unfoldable pub revoking_loop : Option ℕ → ℕ → List Cap → Bool
revoking_loop ocap mask [] = false
revoking_loop ocap mask (cap ∷ caps) =
    let rest = revoking_loop ocap mask caps in
    let revoked = bit_and (bit_and cap.implemented (0xffffffff - cap.issued)) mask in
    if is_cap ocap cap then rest else if revoked == 0 then rest else true

unfoldable pub caps_revoking_other : InodeCaps → Option ℕ → ℕ → Bool
caps_revoking_other ci ocap mask = revoking_loop ocap mask ci.i_caps
