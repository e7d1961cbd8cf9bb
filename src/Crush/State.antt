-- ===== src/Crush/State.antt =====
-- What the choose functions of mapper.c change: the buckets of the map, for their permutation
-- caches, and one array of integers that holds the output vectors, each at an offset.
pub mod Runs
pub mod Returns
use kmod_ceph.Base.{
  ℕ, zero, suc, ◌+◌, ◌≤◌, ◌<◌, ◌≡◌, ◌∙◌, refl, ap, List, [], ◌∷◌, Option, none, some, get_elem?,
  set, length, arith, ltb, leb, ◌==◌, if◌then◌else◌, Bool, true, false,
}
use kmod_ceph.Base.Int.{ℤ, pos, negsuc}
use kmod_ceph.Crush.Outcome.{Outcome, ok, fault, stuck, load, store}
use kmod_ceph.Crush.Types.{Bucket}
use kmod_ceph.Crush.Bucket.{bucket_choose, bucket_perm_choose}

pub record St : Type 0 where
  pub buckets : List (Option Bucket)
  pub mem : List ℤ

abbrev pub M : Type 0 → Type 0
M A = St → Outcome (A × St)

abbrev pub pure : {A : Type 0} → A → M A
pure a s = ok (a, s)

abbrev pub lift : {A : Type 0} → Outcome A → M A
lift m s = elim m [ ok a ↦ ok (a, s) | fault ↦ fault | stuck ↦ stuck ]

abbrev pub failed : {A : Type 0} → M A
failed s = fault

abbrev pub out_of_fuel : {A : Type 0} → M A
out_of_fuel s = stuck

infixl 5 ◌>>=◌ ◌>>◌
abbrev pub ◌>>=◌ : {A B : Type 0} → M A → (A → M B) → M B
◌>>=◌ m f s = elim (m s) [ ok p ↦ f p.0 p.1 | fault ↦ fault | stuck ↦ stuck ]

abbrev pub ◌>>◌ : {B : Type 0} → M (Unit {0}) → M B → M B
m >> k = m >>= λ _. k

-- `map->buckets[i]`, which may be null.
unfoldable pub bucket_at : ℕ → M Bucket
bucket_at i s = elim (get_elem? s.buckets i) [
  | none ↦ fault
  | some o ↦ elim o [ none ↦ fault | some b ↦ ok (b, s) ]
]

-- `map->buckets[-1-item]`: an index that is negative, or past the array, faults.
unfoldable pub bucket_of : ℤ → M ℕ
bucket_of (negsuc n) = pure n
bucket_of (pos n) = failed

unfoldable pub put_bucket : ℕ → Bucket → M (Unit {0})
put_bucket i b s = ok (tt, record s { buckets = set s.buckets i (some b) })

-- `crush_bucket_choose` and `bucket_perm_choose` on a bucket of the map.
unfoldable pub choose_in : ℕ → ℕ → ℕ → M ℤ
choose_in i x r = do b ← bucket_at i; p ← lift (bucket_choose b x r); put_bucket i p.1; pure p.0

unfoldable pub perm_choose_in : ℕ → ℕ → ℕ → M ℤ
perm_choose_in i x r = do
  b ← bucket_at i
  p ← lift (bucket_perm_choose b x r)
  put_bucket i p.1
  pure p.0

unfoldable pub read : ℕ → M ℤ
read i s = lift (load s.mem i) s

unfoldable pub write : ℕ → ℤ → M (Unit {0})
write i v s = elim (store s.mem i v) [
  | ok mem ↦ ok (tt, record s { mem = mem })
  | fault ↦ fault
  | stuck ↦ stuck
]

-- The type of an item: 0 for a device, else the type of its bucket.
unfoldable pub type_of : ℤ → M ℕ
type_of (pos n) = pure 0
type_of (negsuc n) = do b ← bucket_at n; pure b.type

abbrev pub int_eq : ℤ → ℤ → Bool
int_eq (pos a) (pos b) = a == b
int_eq (negsuc a) (negsuc b) = a == b
int_eq (pos a) (negsuc b) = false
int_eq (negsuc a) (pos b) = false

-- `for (i = from; i < from + left; i++) if (out[i] == item)`, with the offset of the place.
unfoldable pub collides : ℕ → ℕ → ℤ → M Bool
collides zero i item = pure false
collides (suc left) i item = do
  v ← read i
  (let rest = collides left (i + 1) item in if int_eq v item then pure true else rest)
