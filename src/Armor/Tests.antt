-- ===== src/Armor/Tests.antt =====
-- Runs of the base64 code, and the theorems at concrete inputs.
use kmod_ceph.Base.{◌≡◌, refl, arith, some, [], ◌∷◌}
use kmod_ceph.Armor.{
  codes, armor, armor_loop, end_quad, encode_bits, decode_bits, unarmor, unarmor_quad, quad_bytes,
}
use kmod_ceph.Armor.RoundTrip.{unarmor-armor}
use kmod_ceph.Armor.Size.{armor-size}

hello : armor (codes "hello") ≡ record { dst = codes "aGVsbG8="; olen = 8 }
unfolding armor armor_loop end_quad encode_bits
hello = refl

hello_back : unarmor (codes "aGVsbG8=") ≡ some (record { dst = codes "hello"; olen = 5 })
unfolding unarmor unarmor_quad quad_bytes decode_bits
hello_back = refl

unarmor-armor_example :
    unarmor (armor (104 ∷ 105 ∷ [])).dst ≡ some (record { dst = 104 ∷ 105 ∷ []; olen = 2 })
unarmor-armor_example = unarmor-armor (104 ∷ 105 ∷ []) (omega arith)

armor-size_example : (armor (104 ∷ 105 ∷ [])).olen ≡ 4
armor-size_example = (armor-size (104 ∷ 105 ∷ [])).0
