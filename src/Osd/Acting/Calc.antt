-- ===== src/Osd/Acting/Calc.antt =====
-- `ceph_calc_pg_acting` of net/ceph/osdmap.c, which puts the raw osds of CRUSH through the steps of
-- the parent module. The state is that of `crush_do_rule`: the buckets and `crush_scratch_ary`.
use kmod_ceph.Base.{
  ℕ, ◌+◌, List, ◌++◌, length, drop, Option, none, some, ltb, ◌==◌, if◌then◌else◌, bit_and, u32, min,
}
use kmod_ceph.Base.Int.{ℤ, pos, negsuc}
use kmod_ceph.Crush.Hash.{hash32_2}
use kmod_ceph.Crush.Rule.{find_rule, do_rule}
use kmod_ceph.Crush.State.{M, pure, lift, failed, ◌>>=◌}
use kmod_ceph.Osd.Bins.{stable_mod}
use kmod_ceph.Osd.StrHash.{str_hash}
use kmod_ceph.Osd.Trees.{Pg, lookup_pg_pool}
use kmod_ceph.Osd.Acting.{
  Pool, OsdMap, max_osd, pg_max_size, raw_to_up_osds, apply_primary_affinity, apply_temps,
}

-- What a call of `ceph_calc_pg_acting` gives: the number of osds or an error, the array `osds`, and
-- `*primary`.
pub record Answer : Type 0 where
  pub result : ℤ
  pub osds : List ℤ
  pub primary : ℤ

-- The items; `fuel` is the model's, for the descents of CRUSH.
unfoldable pub do_crush : OsdMap → ℕ → ℕ → ℕ → ℕ → M (List ℤ)
do_crush map fuel ruleno x result_max =
    if ltb pg_max_size result_max
    then failed
    else do_rule
        (record {
          map = map.crush;
          x = x;
          result_max = result_max;
          weight = map.osd_weight;
          weight_max = max_osd map;
          fuel = fuel;
        })
        ruleno

-- `none` is -ENOENT. The items of `crush_do_rule` are written over the first places of `osds`, and
-- their number is never negative.
unfoldable pub pg_to_raw_osds : OsdMap → ℕ → Pool → ℕ → M (Option (List ℤ))
pg_to_raw_osds map fuel pool pps =
    elim (find_rule map.crush pool.crush_ruleset pool.type pool.size) [
      | none ↦ pure none
      | some ruleno ↦ do
        raw ← do_crush map fuel ruleno pps (min pool.size pg_max_size)
        pure (some raw)
    ]

-- CEPH_POOL_FLAG_HASHPSPOOL is 1.
unfoldable pub placement_seed : Pool → Pg → ℕ
placement_seed pool pgid =
    let seed = stable_mod pgid.seed pool.pgp_num pool.pgp_num_mask in
    if bit_and pool.flags 1 == 0
    then u32 (seed + u32 pgid.pool)
    else hash32_2 0 seed (u32 pgid.pool)

unfoldable pub acting_from : OsdMap → Pool → Pg → ℕ → List ℤ → Option (List ℤ) → M Answer
acting_from map pool pgid pps osds none =
    pure (record { result = negsuc 1; osds = osds; primary = negsuc 0 })
acting_from map pool pgid pps osds (some raw) = do
  up ← lift (raw_to_up_osds map pool (raw ++ drop (length raw) osds) (length raw))
  chosen ← lift (apply_primary_affinity map pps pool up)
  acting ← lift (apply_temps map pool pgid chosen)
  pure (record { result = pos acting.len; osds = acting.osds; primary = acting.primary })

unfoldable pub acting_in : OsdMap → ℕ → Pg → List ℤ → Option Pool → M Answer
acting_in map fuel pgid osds none =
    pure (record { result = negsuc 1; osds = osds; primary = negsuc 0 })
acting_in map fuel pgid osds (some pool) = do
  let pps = placement_seed pool pgid
  raw ← pg_to_raw_osds map fuel pool pps
  acting_from map pool pgid pps osds raw

unfoldable pub calc_pg_acting : OsdMap → ℕ → Pg → List ℤ → M Answer
calc_pg_acting map fuel pgid osds =
    acting_in map fuel pgid osds (lookup_pg_pool map.pg_pools pgid.pool)

-- `osds` is an array of CEPH_PG_MAX_SIZE places on the stack.
unfoldable pub calc_pg_primary : OsdMap → ℕ → Pg → List ℤ → M ℤ
calc_pg_primary map fuel pgid osds = do
  answer ← calc_pg_acting map fuel pgid osds
  pure answer.primary

-- `ceph_oloc_oid_to_pg`: the pg of an object by its pool and its name; `none` is -EIO. The width is
-- that of `unsigned long`.
unfoldable pub oloc_oid_to_pg : ℕ → OsdMap → ℕ → List ℕ → Option Pg
oloc_oid_to_pg width map pool name = elim (lookup_pg_pool map.pg_pools pool) [
  | none ↦ none
  | some pi ↦ some (record { pool = pool; seed = str_hash width pi.object_hash name })
]
