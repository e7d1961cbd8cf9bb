-- ===== src/Armor.antt =====
-- net/ceph/armor.c: base64 with a line break after every 64 characters. Each loop gives what it
-- writes to `dst` from here on and what it adds to `olen`; the end of the list is `src == end`.
pub mod Bytes
pub mod RoundTrip
pub mod Size
pub mod Tests
use Prim.Native.Char.{code}
use Prim.Native.String.{String}
use Prim.Native.String
use kmod_ceph.Base.{
  ℕ, ◌+◌, ◌-◌, ◌*◌, ◌/◌, ◌^◌, ◌%◌, bit_and, bit_or, u8, ◌<<<◌, ◌>>>◌, Bool, true, false, ◌&&◌, ltb,
  leb, ◌==◌, if◌then◌else◌, ◌≡◌, refl, List, [], ◌∷◌, ◌++◌, Option, none, some, get_or,
}

-- The bytes of a text.
abbrev pub codes : String → List ℕ
codes String.[] = []
codes (String.◌∷◌ c s) = code c ∷ codes s

pem_key : List ℕ
pem_key = codes "ABCDEFGHIJKLMNOPQRSTUVWXYZabcdefghijklmnopqrstuvwxyz0123456789+/"

-- Every call has an index of at most 63, which lies inside the table.
pub encode_bits : ℕ → ℕ
unfolding pem_key
encode_bits c = get_or pem_key c 0

-- `none` is -EINVAL.
pub decode_bits : ℕ → Option ℕ
decode_bits c =
    if leb b'A' c && leb c b'Z'
    then some (c - b'A')
    else if leb b'a' c && leb c b'z'
    then some (c - b'a' + 26)
    else if leb b'0' c && leb c b'9'
    then some (c - b'0' + 52)
    else if c == b'+'
    then some 62
    else if c == b'/'
    then some 63
    else if c == b'='
    then some 0
    else none

pub record Output : Type 0 where
  pub dst : List ℕ
  pub olen : ℕ

-- The line break, the counts, and then the rest of the output.
pub end_quad : List ℕ → ℕ → Output → Output
end_quad quad line rest =
    if line + 4 == 64
    then record { dst = quad ++ 10 ∷ rest.dst; olen = 4 + 1 + rest.olen }
    else record { dst = quad ++ rest.dst; olen = 4 + rest.olen }

abbrev pub next_line : ℕ → ℕ
next_line line = if line + 4 == 64 then 0 else line + 4

abbrev pub nothing : Output
nothing = record { dst = []; olen = 0 }

abbrev pub quad_of : ℕ → ℕ → ℕ → List ℕ
quad_of a b c =
    encode_bits (a >>> 2)
    ∷ encode_bits (bit_or (bit_and a 3 <<< 4) (b >>> 4))
    ∷ encode_bits (bit_or (bit_and b 15 <<< 2) (c >>> 6))
    ∷ encode_bits (bit_and c 63)
    ∷ []

abbrev pub last_of_one : ℕ → List ℕ
last_of_one a = encode_bits (a >>> 2) ∷ encode_bits (bit_and a 3 <<< 4) ∷ b'=' ∷ b'=' ∷ []

abbrev pub last_of_two : ℕ → ℕ → List ℕ
last_of_two a b =
    encode_bits (a >>> 2)
    ∷ encode_bits (bit_or (bit_and a 3 <<< 4) (b >>> 4))
    ∷ encode_bits (bit_and b 15 <<< 2)
    ∷ b'='
    ∷ []

pub armor_loop : List ℕ → ℕ → Output
armor_loop [] line = nothing
armor_loop (a ∷ []) line = end_quad (last_of_one a) line nothing
armor_loop (a ∷ b ∷ []) line = end_quad (last_of_two a b) line nothing
armor_loop (a ∷ b ∷ c ∷ src) line = end_quad (quad_of a b c) line (armor_loop src (next_line line))

pub armor : List ℕ → Output
unfolding armor_loop end_quad
armor src = armor_loop src 0

-- The bytes of one group of four decoded characters; the third and the fourth may be padding.
-- The last argument is the rest of the loop.
pub quad_bytes :
    Option ℕ → Option ℕ → Option ℕ → Option ℕ → Bool → Bool → Option Output → Option Output
quad_bytes (some a) (some b) (some c) (some d) true w_pad rest =
    some (record { dst = u8 (bit_or (a <<< 2) (b >>> 4)) ∷ []; olen = 1 })
quad_bytes (some a) (some b) (some c) (some d) false true rest = some (record {
  dst = u8 (bit_or (a <<< 2) (b >>> 4)) ∷ u8 (bit_or (bit_and b 15 <<< 4) (c >>> 2)) ∷ [];
  olen = 2;
})
quad_bytes (some a) (some b) (some c) (some d) false false none = none
quad_bytes (some a) (some b) (some c) (some d) false false (some r) = some (record {
  dst =
      u8 (bit_or (a <<< 2) (b >>> 4))
      ∷ u8 (bit_or (bit_and b 15 <<< 4) (c >>> 2))
      ∷ u8 (bit_or (bit_and c 3 <<< 6) d)
      ∷ r.dst;
  olen = 3 + r.olen;
})
quad_bytes _ _ _ _ _ _ _ = none

pub unarmor_quad : ℕ → ℕ → ℕ → ℕ → Option Output → Option Output
unfolding quad_bytes
unarmor_quad x y z w rest =
    quad_bytes (decode_bits x) (decode_bits y) (decode_bits z) (decode_bits w) (z == b'=')
      (w == b'=') rest

-- `none` is -EINVAL.
pub unarmor : List ℕ → Option Output
unfolding unarmor_quad
unarmor [] = some nothing
unarmor (x ∷ []) = if x == 10 then some nothing else none
unarmor (x ∷ y ∷ []) = elim (x == 10) [ true ↦ unarmor (y ∷ []) | false ↦ none ]
unarmor (x ∷ y ∷ z ∷ []) = elim (x == 10) [ true ↦ unarmor (y ∷ z ∷ []) | false ↦ none ]
unarmor (x ∷ y ∷ z ∷ w ∷ src) = elim (x == 10) [
  | true ↦ unarmor (y ∷ z ∷ w ∷ src)
  | false ↦ unarmor_quad x y z w (unarmor src)
]
