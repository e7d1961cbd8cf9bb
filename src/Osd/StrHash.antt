-- ===== src/Osd/StrHash.antt =====
-- net/ceph/ceph_hash.c: the hashes of object names, over the bytes of the name. `unsigned int` has
-- 32 bits; the width of `unsigned long` is an argument.
use kmod_ceph.Base.{
  ℕ, zero, suc, ◌+◌, ◌*◌, ◌/◌, ◌%◌, ◌^◌, ◌≡◌, refl, arith, List, [], ◌∷◌, length, get_elem?, none,
  some, bit_xor, u32, sub32, ◌<<<◌, ◌>>>◌, ◌==◌, if◌then◌else◌,
}

-- One assignment of the macro `mix` with its two subtractions: a - b - c ^ k.
abbrev mixed : ℕ → ℕ → ℕ → ℕ → ℕ
mixed a b c k = bit_xor (sub32 (sub32 a b) c) k

-- The values of a, b and c.
pub record Mixed : Type 0 where
  pub a : ℕ
  pub b : ℕ
  pub c : ℕ

-- One third of `mix`, with its three shifts: right, left, right.
unfoldable pub mix_third : ℕ → ℕ → ℕ → Mixed → Mixed
mix_third k l m s =
    let a = mixed s.a s.b s.c (s.c >>> k) in
    let b = mixed s.b s.c a (u32 (a <<< l)) in
    let c = mixed s.c a b (b >>> m) in record { a = a; b = b; c = c }

unfoldable pub mix : Mixed → Mixed
mix s = mix_third 3 10 15 (mix_third 12 16 5 (mix_third 13 8 13 s))

-- A byte of the name, and 0 past its end: the last switch adds the bytes that there are.
abbrev byte_at : List ℕ → ℕ → ℕ
byte_at k i = elim (get_elem? k i) [ none ↦ 0 | some v ↦ v ]

abbrev word_at : List ℕ → ℕ → ℕ
word_at k i =
    byte_at k i
    + (byte_at k (i + 1) <<< 8)
    + (byte_at k (i + 2) <<< 16)
    + (byte_at k (i + 3) <<< 24)

abbrev drop : ℕ → List ℕ → List ℕ
drop zero k = k
drop (suc n) [] = []
drop (suc n) (v ∷ k) = drop n k

unfoldable pub last_bytes : ℕ → List ℕ → Mixed → Mixed
last_bytes len k s = record {
  a = u32 (s.a + word_at k 0);
  b = u32 (s.b + word_at k 4);
  c = u32 (s.c + len + (byte_at k 8 <<< 8) + (byte_at k 9 <<< 16) + (byte_at k 10 <<< 24));
}

-- `while (len >= 12)`, with the rounds left; then the last 11 bytes.
unfoldable pub rjenkins_loop : ℕ → ℕ → List ℕ → Mixed → Mixed
rjenkins_loop zero len k s = mix (last_bytes len k s)
rjenkins_loop (suc rounds) len k s = rjenkins_loop rounds len (drop 12 k) (
    mix (record {
      a = u32 (s.a + word_at k 0);
      b = u32 (s.b + word_at k 4);
      c = u32 (s.c + word_at k 8);
    }))

unfoldable pub str_hash_rjenkins : List ℕ → ℕ
str_hash_rjenkins k =
    let s =
      rjenkins_loop (length k / 12) (u32 (length k)) k
        (record { a = 0x9e3779b9; b = 0x9e3779b9; c = 0 }) in
    s.c

-- `while (length--)`, with `hash` of `width` bits.
unfoldable pub linux_loop : ℕ → List ℕ → ℕ → ℕ
linux_loop width [] hash = hash
linux_loop width (c ∷ str) hash =
    linux_loop width str ((hash + (c <<< 4) + (c >>> 4)) * 11 % 2 ^ width)

unfoldable pub str_hash_linux : ℕ → List ℕ → ℕ
str_hash_linux width str = u32 (linux_loop width str 0)

abbrev pub hash_linux : ℕ
hash_linux = 1

abbrev pub hash_rjenkins : ℕ
hash_rjenkins = 2

-- An unknown type gives -1 as an `unsigned int`.
unfoldable pub str_hash : ℕ → ℕ → List ℕ → ℕ
str_hash width type s =
    if type == hash_linux
    then str_hash_linux width s
    else if type == hash_rjenkins
    then str_hash_rjenkins s
    else 0xffffffff

linux_loop-width :
    (str : List ℕ) (h g : ℕ) → u32 h ≡ u32 g → u32 (linux_loop 64 str h) ≡ u32 (linux_loop 32 str g)
unfolding linux_loop
linux_loop-width [] h g e = e
linux_loop-width (c ∷ str) h g e = linux_loop-width str _ _ (omega arith)

-- `ceph_str_hash` does not depend on the machine: it gives the same number where `unsigned long`
-- has 64 bits and where it has 32.
pub str_hash-width : (type : ℕ) (s : List ℕ) → str_hash 64 type s ≡ str_hash 32 type s
unfolding str_hash str_hash_linux
str_hash-width type s = rw (linux_loop-width s 0 0 refl) refl
