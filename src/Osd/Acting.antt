-- ===== src/Osd/Acting.antt =====
-- The osds of a pg: `ceph_calc_pg_acting` of net/ceph/osdmap.c and what it calls, with the tests of
-- osds of include/linux/ceph/osdmap.h. The array `osds` is a list; a place out of it is a fault, and
-- so is the BUG_ON for a type of pool that the code does not know.
pub mod Calc
pub mod UpSet
pub mod Pick
pub mod Affinity
pub mod Temps
pub mod Members
pub mod Result
pub mod Tests
use kmod_ceph.Base.{
  ℕ, zero, suc, ◌+◌, ◌-◌, ◌<◌, List, [], ◌∷◌, ◌++◌, length, drop, get_elem?, Option, none, some,
  Bool, true, false, not, ◌&&◌, ◌||◌, ltb, leb, ◌==◌, if◌then◌else◌, bit_and, u32, ◌>>>◌, min,
}
use kmod_ceph.Base.Int.{ℤ, pos, negsuc}
use kmod_ceph.Crush.Outcome.{Outcome, ok, fault, load, store, ◌>>=◌}
use kmod_ceph.Crush.Types.{CrushMap}
use kmod_ceph.Crush.Hash.{hash32_2}
use kmod_ceph.Crush.Indep.{item_none}
use kmod_ceph.Crush.State.{int_eq}
use kmod_ceph.Osd.Bins.{stable_mod}
use kmod_ceph.Osd.Trees.{Tree, Pg, lookup_pg_mapping}

pub record Pool : Type 0 where
  pub type : ℕ
  pub size : ℕ
  pub crush_ruleset : ℕ
  pub object_hash : ℕ
  pub pg_num : ℕ
  pub pgp_num : ℕ
  pub pg_num_mask : ℕ
  pub pgp_num_mask : ℕ
  pub flags : ℕ

-- `osd_state` has `max_osd` entries. A node of `pg_temp` holds osds, one of `primary_temp` an osd.
pub record OsdMap : Type 0 where
  pub osd_state : List ℕ
  pub osd_weight : List ℕ
  pub pg_temp : Tree Pg (List ℤ)
  pub primary_temp : Tree Pg ℤ
  pub osd_primary_affinity : Option (List ℕ)
  pub pg_pools : Tree ℕ Pool
  pub crush : CrushMap

abbrev pub max_osd : OsdMap → ℕ
max_osd map = length map.osd_state

abbrev pub pg_max_size : ℕ
pg_max_size = 16

abbrev pub max_primary_affinity : ℕ
max_primary_affinity = 0x10000

unfoldable pub osd_exists : OsdMap → ℤ → Bool
osd_exists map (negsuc n) = false
osd_exists map (pos osd) = elim (get_elem? map.osd_state osd) [
  | none ↦ false
  | some state ↦ not (bit_and state 1 == 0)
]

abbrev state_up : OsdMap → ℤ → Bool
state_up map (negsuc n) = false
state_up map (pos osd) = elim (get_elem? map.osd_state osd) [
  | none ↦ false
  | some state ↦ not (bit_and state 2 == 0)
]

unfoldable pub osd_is_up : OsdMap → ℤ → Bool
osd_is_up map osd = osd_exists map osd && state_up map osd

unfoldable pub osd_is_down : OsdMap → ℤ → Bool
osd_is_down map osd = not (osd_is_up map osd)

-- The types CEPH_POOL_TYPE_REP and CEPH_POOL_TYPE_EC.
unfoldable pub can_shift_osds : Pool → Outcome Bool
can_shift_osds pool = if pool.type == 1 then ok true else if pool.type == 3 then ok false else fault

-- What the functions below leave: the array, the number of its osds, and `*primary`.
pub record Found : Type 0 where
  pub osds : List ℤ
  pub len : ℕ
  pub primary : ℤ

-- One round of the loop that closes the gaps, for `osd` at `i`: `removed` and the array.
unfoldable pub shift_one : OsdMap → ℕ → ℕ → List ℤ → ℤ → Outcome (ℕ × List ℤ)
shift_one map i removed osds osd =
    if osd_is_down map osd
    then ok (removed + 1, osds)
    else if removed == 0
    then ok (removed, osds)
    else (do osds' ← store osds (i - removed) osd; ok (removed, osds'))

-- `for (i = 0; i < len; i++)`, with the rounds left.
unfoldable pub shift_loop : OsdMap → ℕ → ℕ → ℕ → List ℤ → Outcome (ℕ × List ℤ)
shift_loop map zero i removed osds = ok (removed, osds)
shift_loop map (suc left) i removed osds = do
  osd ← load osds i
  p ← shift_one map i removed osds osd
  shift_loop map left (i + 1) p.0 p.1

-- One round of the loop that writes CRUSH_ITEM_NONE: the array and `up_primary`.
unfoldable pub mark_one : OsdMap → ℕ → List ℤ → ℤ → ℤ → Outcome (List ℤ × ℤ)
mark_one map i osds primary osd =
    if osd_is_down map osd
    then (do osds' ← store osds i item_none; ok (osds', primary))
    else ok (osds, osd)

-- `for (i = len - 1; i >= 0; i--)`, where `suc i` goes on at i.
unfoldable pub mark_loop : OsdMap → ℕ → List ℤ → ℤ → Outcome (List ℤ × ℤ)
mark_loop map zero osds primary = ok (osds, primary)
mark_loop map (suc i) osds primary = do
  osd ← load osds i
  p ← mark_one map i osds primary osd
  mark_loop map i p.0 p.1

unfoldable pub shifted : ℕ → ℕ → List ℤ → Outcome Found
shifted len removed osds =
    if ltb 0 (len - removed)
    then (do first ← load osds 0; ok (record { osds = osds; len = len - removed; primary = first }))
    else ok (record { osds = osds; len = len - removed; primary = negsuc 0 })

unfoldable pub raw_to_up_by : OsdMap → List ℤ → ℕ → Bool → Outcome Found
raw_to_up_by map osds len true = do p ← shift_loop map len 0 0 osds; shifted len p.0 p.1
raw_to_up_by map osds len false = do
  p ← mark_loop map len osds (negsuc 0)
  ok (record { osds = p.0; len = len; primary = p.1 })

unfoldable pub raw_to_up_osds : OsdMap → Pool → List ℤ → ℕ → Outcome Found
raw_to_up_osds map pool osds len = do shift ← can_shift_osds pool; raw_to_up_by map osds len shift

-- `osdmap->osd_primary_affinity[osd]`, of `max_osd` entries.
unfoldable pub affinity_of : List ℕ → ℤ → Outcome ℕ
affinity_of affinity (pos osd) = load affinity osd
affinity_of affinity (negsuc n) = fault

-- The first loop: whether it stops at an osd before `len`; with the rounds left.
unfoldable pub any_affinity : List ℕ → List ℤ → ℕ → ℕ → Outcome Bool
any_affinity affinity osds zero i = ok false
any_affinity affinity osds (suc left) i = do
  osd ← load osds i
  found ←
      (if int_eq osd item_none
        then ok false
        else do aff ← affinity_of affinity osd; ok (not (aff == max_primary_affinity)))
  (let rest = any_affinity affinity osds left (i + 1) in if found then ok true else rest)

-- An osd as `__u32`.
abbrev word_of : ℤ → ℕ
word_of (pos n) = n
word_of (negsuc n) = 0xffffffff - n

-- The test in the second loop, by which an osd is not used.
abbrev pub rejects : ℕ → ℤ → ℕ → Bool
rejects pps osd aff = ltb aff max_primary_affinity && leb aff (hash32_2 0 pps (word_of osd) >>> 16)

-- One round: the osd is skipped, kept as a fallback, or taken (`inr`).
pub data Choice : Type 0 where
  skip fallback taken : Choice

unfoldable pub judge : List ℕ → ℕ → ℤ → Outcome Choice
judge affinity pps osd =
    if int_eq osd item_none
    then ok skip
    else do aff ← affinity_of affinity osd; ok (if rejects pps osd aff then fallback else taken)

-- `if (pos < 0) pos = i`, where -1 is `none`.
abbrev pub keep_first : ℕ → Option ℕ → Option ℕ
keep_first i none = some i
keep_first i (some p) = some p

-- The second loop, with the rounds left.
unfoldable pub pick_loop : List ℕ → ℕ → List ℤ → ℕ → ℕ → Option ℕ → Outcome (Option ℕ)
pick_loop affinity pps osds zero i at = ok at
pick_loop affinity pps osds (suc left) i at = do
  osd ← load osds i
  choice ← judge affinity pps osd
  elim choice [
    | skip ↦ pick_loop affinity pps osds left (i + 1) at
    | fallback ↦ pick_loop affinity pps osds left (i + 1) (keep_first i at)
    | taken ↦ ok (some i)
  ]

-- `for (i = pos; i > 0; i--) osds[i] = osds[i - 1]`.
unfoldable pub move_up : ℕ → List ℤ → Outcome (List ℤ)
move_up zero osds = ok osds
move_up (suc i) osds = do v ← load osds i; osds' ← store osds (suc i) v; move_up i osds'

unfoldable pub take_primary : Pool → List ℤ → ℕ → ℤ → Option ℕ → Outcome Found
take_primary pool osds len primary none = ok (record { osds = osds; len = len; primary = primary })
take_primary pool osds len primary (some p) = do
  osd ← load osds p
  shift ← can_shift_osds pool
  (if shift && ltb 0 p
      then (do
        moved ← move_up p osds
        osds' ← store moved 0 osd
        ok (record { osds = osds'; len = len; primary = osd }))
      else ok (record { osds = osds; len = len; primary = osd }))

unfoldable pub apply_affinity_by : List ℕ → ℕ → Pool → Found → Bool → Outcome Found
apply_affinity_by affinity pps pool f false = ok f
apply_affinity_by affinity pps pool f true = do
  at ← pick_loop affinity pps f.osds f.len 0 none
  take_primary pool f.osds f.len f.primary at

-- The last of these is the number of osds, which stays.
unfoldable pub apply_primary_affinity : OsdMap → ℕ → Pool → Found → Outcome Found
apply_primary_affinity map pps pool f = elim map.osd_primary_affinity [
  | none ↦ ok f
  | some affinity ↦ do
    any ← any_affinity affinity f.osds f.len 0
    apply_affinity_by affinity pps pool f any
]

-- One osd of a pg_temp mapping: the array and `temp_len`.
unfoldable pub temp_one : OsdMap → Pool → List ℤ → ℕ → ℤ → Outcome (List ℤ × ℕ)
temp_one map pool osds temp_len osd =
    if osd_is_down map osd
    then (do
      shift ← can_shift_osds pool
      (if shift
          then ok (osds, temp_len)
          else do osds' ← store osds temp_len item_none; ok (osds', temp_len + 1)))
    else (do osds' ← store osds temp_len osd; ok (osds', temp_len + 1))

unfoldable pub temp_loop : OsdMap → Pool → List ℤ → List ℤ → ℕ → Outcome (List ℤ × ℕ)
temp_loop map pool [] osds temp_len = ok (osds, temp_len)
temp_loop map pool (osd ∷ temps) osds temp_len = do
  p ← temp_one map pool osds temp_len osd
  temp_loop map pool temps p.0 p.1

-- The loop for pg_temp's primary, with the rounds left.
unfoldable pub first_osd : List ℤ → ℕ → ℕ → Outcome ℤ
first_osd osds zero i = ok (negsuc 0)
first_osd osds (suc left) i = do
  osd ← load osds i
  (let rest = first_osd osds left (i + 1) in if int_eq osd item_none then rest else ok osd)

unfoldable pub apply_pg_temp : OsdMap → Pool → Found → Option (List ℤ) → Outcome Found
apply_pg_temp map pool f none = ok f
apply_pg_temp map pool f (some temps) = do
  p ← temp_loop map pool temps f.osds 0
  primary ← first_osd p.0 p.1 0
  ok (record { osds = p.0; len = p.1; primary = primary })

unfoldable pub apply_temps : OsdMap → Pool → Pg → Found → Outcome Found
apply_temps map pool pgid f = do
  let pg = record pgid { seed = stable_mod pgid.seed pool.pg_num pool.pg_num_mask }
  temp ← apply_pg_temp map pool f (lookup_pg_mapping map.pg_temp pg)
  ok (elim (lookup_pg_mapping map.primary_temp pg) [
    | none ↦ temp
    | some osd ↦ record temp { primary = osd }
  ])
