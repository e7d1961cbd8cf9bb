-- ===== src/Crush/Firstn.antt =====
-- `crush_choose_firstn` of net/ceph/crush/mapper.c. The arguments that stay fixed through the
-- recursion are parameters of the section; `r` and the counters are 32 bits wide. `out` and `out2` are
-- offsets into the array of the state.
pub mod Attempt
pub mod Placed
pub mod World
pub mod Fuel
pub mod Total
use kmod_ceph.Base.{
  ℕ, zero, suc, ◌+◌, ◌-◌, ◌/◌, ◌%◌, ◌^◌, ◌≤◌, ◌<◌, ◌≡◌, refl, List, [], ◌∷◌, Option, none, some,
  arith, ltb, leb, ◌==◌, u32, ◌>>>◌, if◌then◌else◌, Bool, true, false, ◌&&◌, ◌||◌, not,
}
use kmod_ceph.Base.Int.{ℤ, pos, negsuc}
use kmod_ceph.Crush.Types.{Bucket}
use kmod_ceph.Crush.Bucket.{is_out}
use kmod_ceph.Crush.State.{
  St, M, pure, lift, failed, out_of_fuel, ◌>>=◌, ◌>>◌, bucket_at, bucket_of, choose_in,
  perm_choose_in, read, write, type_of, int_eq, collides,
}

-- What stays the same in every call for one input.
pub record Config : Type 0 where
  pub max_devices : ℕ
  pub max_buckets : ℕ
  pub weight : List ℕ
  pub weight_max : ℕ
  pub x : ℕ
  pub local_retries : ℕ
  pub local_fallback_retries : ℕ
  pub vary_r : ℕ

pub record Args : Type 0 where
  pub bucket : ℕ
  pub numrep : ℕ
  pub type : ℤ
  pub out : ℕ
  pub outpos : ℕ
  pub tries : ℕ
  pub recurse_tries : ℕ
  pub recurse_to_leaf : Bool
  pub out2 : ℕ
  pub parent_r : ℕ

-- One pass through the inner loop, up to the label `reject`: the next bucket of the descent, the
-- end of this replica, an item that passed all tests, or a refusal with `collide` and `in->size`.
pub data Verdict : Type 0 where
  descend : ℕ → Verdict
  skip : Verdict
  accept : ℤ → Verdict
  refuse : Bool → ℕ → Verdict

abbrev pub at_least : ℤ → ℕ → Bool
at_least (pos n) m = leb m n
at_least (negsuc n) m = false

-- Items that are no bucket of the map end the replica.
pub wrong_type : Config → ℤ → M Verdict
wrong_type c (pos n) = pure skip
wrong_type c (negsuc n) = if leb c.max_buckets n then pure skip else pure (descend n)

-- `r >> n` of an `int`, as a word.
abbrev pub int_shr : ℕ → ℕ → ℕ
int_shr r n = if ltb r 0x80000000 then r >>> n else 0xffffffff - ((0xffffffff - r) >>> n)

abbrev pub sub_r : Config → ℕ → ℕ
sub_r c r = if c.vary_r == 0 then 0 else int_shr r (c.vary_r - 1)

-- `crush_choose_firstn` calls itself for one leaf under a chosen bucket.
abbrev pub leaf_args : Config → Args → ℕ → ℕ → ℕ → Args
leaf_args c a outpos n r = record {
  bucket = n;
  numrep = outpos + 1;
  type = pos 0;
  out = a.out2;
  outpos = outpos;
  tries = a.recurse_tries;
  recurse_tries = 0;
  recurse_to_leaf = false;
  out2 = 0;
  parent_r = sub_r c r;
}

-- Whether the leaf is missing; `out2` gets the leaf.
pub no_leaf : (Args → M ℕ) → Config → Args → ℕ → ℤ → ℕ → M Bool
no_leaf sub c a outpos (negsuc n) r = do got ← sub (leaf_args c a outpos n r); pure (leb got outpos)
no_leaf sub c a outpos (pos n) r = do write (a.out2 + outpos) (pos n); pure false

unfoldable pub check_leaf : (Args → M ℕ) → Config → Args → ℕ → Bool → ℤ → ℕ → M Bool
check_leaf sub c a outpos collide item r =
    if not collide && a.recurse_to_leaf then no_leaf sub c a outpos item r else pure false

unfoldable pub check_out : Config → ℤ → ℕ → Bool → M Bool
check_out c item itemtype true = pure true
check_out c item itemtype false =
    if itemtype == 0 then lift (is_out c.weight c.weight_max item c.x) else pure false

-- The item has the wanted type: the tests for a collision, a leaf and the weight.
unfoldable pub try_item : (Args → M ℕ) → Config → Args → ℕ → ℕ → ℕ → ℤ → ℕ → M Verdict
try_item sub c a outpos r size item itemtype = do
  collide ← collides outpos a.out item
  missing ← check_leaf sub c a outpos collide item r
  reject ← check_out c item itemtype missing
  pure (if reject || collide then refuse collide size else accept item)

unfoldable pub classify : (Args → M ℕ) → Config → Args → ℕ → ℕ → ℕ → ℤ → M Verdict
classify sub c a outpos r size item = if at_least item c.max_devices then pure skip else do
  itemtype ← type_of item
  if int_eq (pos itemtype) a.type
      then try_item sub c a outpos r size item itemtype
      else wrong_type c item

abbrev pub use_fallback : Config → ℕ → ℕ → Bool
use_fallback c size flocal =
    ltb 0 c.local_fallback_retries && (leb (size / 2) flocal && ltb c.local_fallback_retries flocal)

unfoldable pub attempt : (Args → M ℕ) → Config → Args → ℕ → ℕ → ℕ → ℕ → ℕ → M Verdict
attempt sub c a rep outpos ftotal flocal cur = do
  b ← bucket_at cur
  let r = u32 (rep + a.parent_r + ftotal)
  if b.size == 0 then pure (refuse false 0) else (do
    item ← (if use_fallback c b.size flocal then perm_choose_in cur c.x r else choose_in cur c.x r)
    classify sub c a outpos r b.size item)

abbrev pub retry_local : Config → Bool → ℕ → ℕ → Bool
retry_local c collide size flocal =
    (collide && leb flocal c.local_retries)
    || (ltb 0 c.local_fallback_retries && leb flocal (u32 (size + c.local_fallback_retries)))

-- What the two `do` loops do next: `again` goes on with new counters and a new `in`.
unfoldable pub follow :
    Config → Args → (ℕ → ℕ → ℕ → M (Option ℤ)) → ℕ → ℕ → ℕ → Verdict → M (Option ℤ)
follow c a again ftotal flocal cur (descend n) = again ftotal flocal n
follow c a again ftotal flocal cur skip = pure none
follow c a again ftotal flocal cur (accept item) = pure (some item)
follow c a again ftotal flocal cur (refuse collide size) =
    if retry_local c collide size (u32 (flocal + 1))
    then again (u32 (ftotal + 1)) (u32 (flocal + 1)) cur
    else if ltb (u32 (ftotal + 1)) a.tries
    then again (u32 (ftotal + 1)) 0 a.bucket
    else pure none

-- Both `do` loops for one replica: `some` is the item, `none` is `skip_rep`.
unfoldable pub search_item : (Args → M ℕ) → Config → Args → ℕ → ℕ → ℕ → ℕ → ℕ → ℕ → M (Option ℤ)
search_item sub c a rep outpos zero ftotal flocal cur = out_of_fuel
search_item sub c a rep outpos (suc fuel) ftotal flocal cur = do
  v ← attempt sub c a rep outpos ftotal flocal cur
  follow c a (search_item sub c a rep outpos fuel) ftotal flocal cur v

-- Placing the item found, if any, and going on with the next replica.
unfoldable pub place : Args → (ℕ → M ℕ) → ℕ → Option ℤ → M ℕ
place a next outpos none = next outpos
place a next outpos (some item) = do write (a.out + outpos) item; next (outpos + 1)

-- `for (rep = outpos; rep < numrep; rep++)`, with the rounds left.
unfoldable pub replicas : (Args → M ℕ) → Config → Args → ℕ → ℕ → ℕ → ℕ → M ℕ
replicas sub c a fuel zero rep outpos = pure outpos
replicas sub c a fuel (suc left) rep outpos = do
  found ← search_item sub c a rep outpos fuel 0 0 a.bucket
  place a (replicas sub c a fuel left (rep + 1)) outpos found

-- The recursion is one level deep: the inner call has `recurse_to_leaf` 0. The first argument
-- bounds its depth.
unfoldable pub choose_firstn : ℕ → Config → ℕ → Args → M ℕ
choose_firstn zero c fuel a = out_of_fuel
choose_firstn (suc depth) c fuel a =
    replicas (choose_firstn depth c fuel) c a fuel (a.numrep - a.outpos) a.outpos a.outpos
