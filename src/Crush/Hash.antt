-- ===== src/Crush/Hash.antt =====
-- net/ceph/crush/hash.c: Jenkins' mix of 32-bit words. Every argument is a `__u32`.
use Prim.Native.String.{String}
use kmod_ceph.Base.{ℕ, bit_xor, u32, sub32, ◌<<<◌, ◌>>>◌, ◌==◌, if◌then◌else◌, ◌≡◌, refl}

pub record Words : Type 0 where
  pub a : ℕ
  pub b : ℕ
  pub c : ℕ

-- One line of the macro: `p = p - q; p = p - r; p = p ^ (r >> k)`.
mix_right : ℕ → ℕ → ℕ → ℕ → ℕ
mix_right p q r k = bit_xor (sub32 (sub32 p q) r) (r >>> k)

-- `p = p - q; p = p - r; p = p ^ (r << k)`.
mix_left : ℕ → ℕ → ℕ → ℕ → ℕ
mix_left p q r k = bit_xor (sub32 (sub32 p q) r) (u32 (r <<< k))

pub hashmix : ℕ → ℕ → ℕ → Words
unfolding mix_right mix_left
hashmix a b c =
    let a1 = mix_right a b c 13 in
    let b1 = mix_left b c a1 8 in
    let c1 = mix_right c a1 b1 13 in
    let a2 = mix_right a1 b1 c1 12 in
    let b2 = mix_left b1 c1 a2 16 in
    let c2 = mix_right c1 a2 b2 5 in
    let a3 = mix_right a2 b2 c2 3 in
    let b3 = mix_left b2 c2 a3 10 in
    let c3 = mix_right c2 a3 b3 15 in record { a = a3; b = b3; c = c3 }

abbrev hash_seed : ℕ
hash_seed = 1315423911

rjenkins1 : ℕ → ℕ
unfolding hashmix
rjenkins1 a =
    let hash = bit_xor hash_seed a in
    let m1 = hashmix a 231232 hash in let m2 = hashmix 1232 a m1.c in m2.c

rjenkins1_2 : ℕ → ℕ → ℕ
unfolding hashmix
rjenkins1_2 a b =
    let hash = bit_xor (bit_xor hash_seed a) b in
    let m1 = hashmix a b hash in
    let m2 = hashmix 231232 m1.a m1.c in let m3 = hashmix m1.b 1232 m2.c in m3.c

rjenkins1_3 : ℕ → ℕ → ℕ → ℕ
unfolding hashmix
rjenkins1_3 a b c =
    let hash = bit_xor (bit_xor (bit_xor hash_seed a) b) c in
    let m1 = hashmix a b hash in
    let m2 = hashmix c 231232 m1.c in
    let m3 = hashmix 1232 m1.a m2.c in
    let m4 = hashmix m1.b m2.b m3.c in let m5 = hashmix m3.a m2.a m4.c in m5.c

rjenkins1_4 : ℕ → ℕ → ℕ → ℕ → ℕ
unfolding hashmix
rjenkins1_4 a b c d =
    let hash = bit_xor (bit_xor (bit_xor (bit_xor hash_seed a) b) c) d in
    let m1 = hashmix a b hash in
    let m2 = hashmix c d m1.c in
    let m3 = hashmix m1.a 231232 m2.c in
    let m4 = hashmix 1232 m1.b m3.c in
    let m5 = hashmix m2.a m3.b m4.c in let m6 = hashmix m4.a m2.b m5.c in m6.c

rjenkins1_5 : ℕ → ℕ → ℕ → ℕ → ℕ → ℕ
unfolding hashmix
rjenkins1_5 a b c d e =
    let hash = bit_xor (bit_xor (bit_xor (bit_xor (bit_xor hash_seed a) b) c) d) e in
    let m1 = hashmix a b hash in
    let m2 = hashmix c d m1.c in
    let m3 = hashmix e 231232 m2.c in
    let m4 = hashmix 1232 m1.a m3.c in
    let m5 = hashmix m1.b m3.b m4.c in
    let m6 = hashmix m4.a m2.a m5.c in
    let m7 = hashmix m2.b m5.b m6.c in let m8 = hashmix m6.a m3.a m7.c in m8.c

-- CRUSH_HASH_RJENKINS1 is type 0; any other type hashes to 0.
unfoldable pub hash32 : ℕ → ℕ → ℕ
unfolding rjenkins1
hash32 type a = if type == 0 then rjenkins1 a else 0

unfoldable pub hash32_2 : ℕ → ℕ → ℕ → ℕ
unfolding rjenkins1_2
hash32_2 type a b = if type == 0 then rjenkins1_2 a b else 0

unfoldable pub hash32_3 : ℕ → ℕ → ℕ → ℕ → ℕ
unfolding rjenkins1_3
hash32_3 type a b c = if type == 0 then rjenkins1_3 a b c else 0

unfoldable pub hash32_4 : ℕ → ℕ → ℕ → ℕ → ℕ → ℕ
unfolding rjenkins1_4
hash32_4 type a b c d = if type == 0 then rjenkins1_4 a b c d else 0

unfoldable pub hash32_5 : ℕ → ℕ → ℕ → ℕ → ℕ → ℕ → ℕ
unfolding rjenkins1_5
hash32_5 type a b c d e = if type == 0 then rjenkins1_5 a b c d e else 0

hash_name : ℕ → String
hash_name type = if type == 0 then "rjenkins1" else "unknown"

hash32_3_runs : hash32_3 0 1 2 3 ≡ 1935332395
unfolding hash32_3
hash32_3_runs = refl
