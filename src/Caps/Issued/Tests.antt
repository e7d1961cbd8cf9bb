-- ===== src/Caps/Issued/Tests.antt =====
-- Two caps that cover a mask together, and the theorem at them.
use kmod_ceph.Base.{ℕ, ◌≡◌, refl, ◌⊎◌, true, false, some, [], ◌∷◌}
use kmod_ceph.Caps.Issued.{
  Cap, InodeCaps, cap_is_valid, issued_loop, caps_issued, covers, mask_loop, caps_issued_mask,
}
use kmod_ceph.Caps.Issued.Cover.{caps_issued_mask-covers}

abbrev cap_of : ℕ → ℕ → ℕ → ℕ → Cap
cap_of mds issued implemented gen = record {
  mds = mds;
  issued = issued;
  implemented = implemented;
  mds_wanted = 0;
  cap_gen = gen;
  s_cap_gen = 4;
  s_cap_ttl = 1000;
}

-- The auth mds revokes 4 of its caps; the third cap is of an old generation.
abbrev three_caps : InodeCaps
three_caps = record {
  i_snap_caps = 1;
  i_caps = cap_of 0 8 12 4 ∷ cap_of 1 6 6 4 ∷ cap_of 2 32 32 3 ∷ [];
  i_auth_cap = some (cap_of 0 8 12 4);
}

together : caps_issued_mask 500 three_caps 14 ≡ true
unfolding caps_issued_mask mask_loop cap_is_valid
together = refl

stale_cap : caps_issued_mask 500 three_caps 32 ≡ false
unfolding caps_issued_mask mask_loop cap_is_valid
stale_cap = refl

-- The two functions differ on what is being revoked.
revoked : caps_issued 500 three_caps ≡ 11
unfolding caps_issued issued_loop cap_is_valid
revoked = refl

caps_issued_mask-covers_example :
    (caps_issued_mask 500 three_caps 14 ≡ covers (issued_loop 500 three_caps.i_caps 1) 14)
    × ((caps_issued_mask 500 three_caps 14 ≡ true)
        ⊎ (covers (caps_issued 500 three_caps) 14 ≡ false))
caps_issued_mask-covers_example = caps_issued_mask-covers 500 three_caps 14
