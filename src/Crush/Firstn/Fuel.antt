-- ===== src/Crush/Firstn/Fuel.antt =====
-- The rounds that the search of `crush_choose_firstn` takes, as a number that falls.

use native.Mathlib.Nat.{mul-le-mul_right, mod-le}
use kmod_ceph.Base.{
  ℕ, suc, ◌+◌, ◌-◌, ◌*◌, ◌≤◌, ◌<◌, ◌≡◌, inl, inr, refl, List, length, arith, ltb, leb, ◌==◌, false,
  true, Bool, Bool-cases, if◌then◌else◌, not, bit_and, u32, ◌^◌,
}
use kmod_ceph.Base.Int.{pos}
use kmod_ceph.Crush.Outcome.{ok}
use kmod_ceph.Crush.Hash.{hash32_2}
use kmod_ceph.Crush.Bucket.{is_out}
use kmod_ceph.Crush.Bucket.Perm.{load-some}
use kmod_ceph.Crush.Bucket.Cache.{get_elem?-some}
use kmod_ceph.Crush.Firstn.{Config, retry_local}

pub is_out-ok :
    (weight : List ℕ) (weight_max n x : ℕ)
    → weight_max ≤ length weight
    → (v : Bool) × (is_out weight weight_max (pos n) x ≡ ok v)
unfolding is_out
is_out-ok weight weight_max n x h = elim (Bool-cases (leb weight_max n)) [
  | inl past ↦ (true, rw past refl)
  | inr inside ↦
      let (w, e) = get_elem?-some weight n (ground arith) in
      (
        (if leb 0x10000 w
            then false
            else if w == 0
            then true
            else not (ltb (bit_and (hash32_2 0 x (u32 n)) 0xffff) w)),
        rw (inside, load-some weight n w e) refl,
      )
]

-- The most rounds that retry in one descent.
abbrev pub local_rounds : Config → ℕ → ℕ
local_rounds c big = c.local_retries + big + c.local_fallback_retries

-- The rounds that a search may still take, for a place `cur` of rank `r`.
abbrev pub rounds_left : ℕ → ℕ → ℕ → ℕ → ℕ → ℕ → ℕ
rounds_left turns top tries ftotal flocal r =
    ((tries - ftotal) * suc turns + (turns - flocal)) * suc top + r

-- More rounds than a search takes, when no bucket has a rank above `top`.
abbrev pub enough : Config → ℕ → ℕ → ℕ → ℕ
enough c big top tries =
    suc ((tries * suc (local_rounds c big) + local_rounds c big) * suc top + top)

product_lt : (t t' l l' w : ℕ) → t' + 1 ≤ t → l' < w → t' * w + l' < t * w + l
product_lt t t' l l' w h lt = let p = mul-le-mul_right w h in omega arith

pub rounds_left-local :
    (turns top tries ftotal flocal r : ℕ)
    → flocal + 1 ≤ turns
    → r ≤ top
    → rounds_left turns top tries (ftotal + 1) (flocal + 1) r
      < rounds_left turns top tries ftotal flocal r
rounds_left-local turns top tries ftotal flocal r h le =
    let m : tries - (ftotal + 1) ≤ tries - ftotal = omega arith in
    let p = mul-le-mul_right (suc turns) m in
    product_lt _ _ r r (suc top) (omega arith) (omega arith)

pub rounds_left-descent :
    (turns top tries ftotal flocal r r' : ℕ)
    → ftotal + 1 < tries
    → r' ≤ top
    → rounds_left turns top tries (ftotal + 1) 0 r' < rounds_left turns top tries ftotal flocal r
rounds_left-descent turns top tries ftotal flocal r r' h le =
    let p =
      product_lt (tries - ftotal) (tries - (ftotal + 1)) (turns - flocal) turns (suc turns)
        (omega arith) (omega arith) in
    product_lt _ _ r r' (suc top) (omega arith) (omega arith)

pub retry_local-le :
    (c : Config) (collide : Bool) (big size flocal : ℕ)
    → size ≤ big
    → retry_local c collide size flocal ≡ true
    → flocal ≤ local_rounds c big
retry_local-le c collide big size flocal le h =
    let m = mod-le (size + c.local_fallback_retries) (2 ^ 32) in ground arith
