-- ===== src/Osd/Acting/Result.antt =====
-- The answers of `ceph_calc_pg_acting`.
use kmod_ceph.Base.{
  ℕ, ◌+◌, ◌≤◌, min, ◌≡◌, refl, subst, inl, inr, Option, none, some, List, ◌++◌, arith, ltb,
  Bool-cases, Option-cases, length, drop, length-drop,
}
use kmod_ceph.Base.Int.{ℤ, pos}
use kmod_ceph.Crush.Outcome.{ok, fault}
use kmod_ceph.Crush.State.{St, lift, pure, ◌>>=◌}
use kmod_ceph.Crush.State.Runs.{bind-eq-ok, pure-eq}
use kmod_ceph.Crush.Rule.{Job, find_rule}
use kmod_ceph.Crush.Rule.Bounds.{do_rule-le}
use kmod_ceph.Osd.Bins.{stable_mod}
use kmod_ceph.Osd.Trees.{Pg, pgid_cmp, id_cmp, lookup}
use kmod_ceph.Osd.Acting.{
  Pool, OsdMap, Found, max_osd, pg_max_size, raw_to_up_osds, apply_primary_affinity, apply_pg_temp,
  apply_temps,
}
use kmod_ceph.Osd.Acting.Affinity.{IsKind}
use kmod_ceph.Osd.Acting.Members.{
  HasAffinities, FitsTemps, IsActing, up-IsActing, affinity-IsActing, pg_temp-IsActing,
}
use kmod_ceph.Osd.Acting.Calc.{
  do_crush, pg_to_raw_osds, placement_seed, acting_from, acting_in, calc_pg_acting,
}

do_crush-le :
    (m : OsdMap) (fuel ruleno x result_max : ℕ) (st : St) (p : List ℤ × St)
    → do_crush m fuel ruleno x result_max st ≡ ok p
    → length p.0 ≤ pg_max_size
unfolding do_crush
do_crush-le m fuel ruleno x result_max st p run = elim (Bool-cases (ltb pg_max_size result_max)) [
  | inl big ↦ let no : fault ≡ ok p = rw big at run in absurd (cc)
  | inr fits ↦
      let job : Job = record {
        map = m.crush;
        x = x;
        result_max = result_max;
        weight = m.osd_weight;
        weight_max = max_osd m;
        fuel = fuel;
      } in
      let le = (do_rule-le job ruleno st p (rw fits at run)).0 in ground arith
]

raw-le :
    (m : OsdMap) (fuel : ℕ) (pool : Pool) (pps : ℕ) (raw : List ℤ) (st st' : St)
    → pg_to_raw_osds m fuel pool pps st ≡ ok (some raw, st')
    → length raw ≤ pg_max_size
unfolding pg_to_raw_osds
raw-le m fuel pool pps raw st st' run =
    elim (Option-cases (find_rule m.crush pool.crush_ruleset pool.type pool.size)) [
      | inl e ↦
          let no : ok (none, st) ≡ ok (some raw, st') = rw (e, pg_to_raw_osds) at run in absurd (cc)
      | inr (ruleno, e) ↦
          let result_max = min pool.size pg_max_size in
          let (q, one, two) =
            bind-eq-ok (do_crush m fuel ruleno pps result_max) (λ r. pure (some r)) st
              (some raw, st') (rw (e, pg_to_raw_osds) at run) in
          let same = (pure-eq (some q.0) q.1 (some raw, st') two).0 in
          let le = do_crush-le m fuel ruleno pps result_max st q one in
          rw (some-injective raw q.0 same) le
    ]
  where
    some-injective : (a b : List ℤ) → some a ≡ some b → a ≡ b
    some-injective a b e = cc

-- The pg under which the temporary mappings are kept.
abbrev pub temp_pg : Pool → Pg → Pg
temp_pg pool pgid = record pgid { seed = stable_mod pgid.seed pool.pg_num pool.pg_num_mask }

abbrev pub overridden : Option ℤ → ℤ → ℤ
overridden none p = p
overridden (some o) p = o

apply_temps-run :
    (m : OsdMap) (pool : Pool) (pgid : Pg) (g f : Found)
    → apply_pg_temp m pool g (lookup pgid_cmp m.pg_temp (temp_pg pool pgid)) ≡ ok f
    → apply_temps m pool pgid g
      ≡ ok (record f {
        primary = overridden (lookup pgid_cmp m.primary_temp (temp_pg pool pgid)) f.primary;
      })
unfolding apply_temps
apply_temps-run m pool pgid g f run =
    elim (Option-cases (lookup pgid_cmp m.primary_temp (temp_pg pool pgid))) [
      | inl e ↦ rw (run, e) refl
      | inr (o, e) ↦ rw (run, e) refl
    ]

-- The steps of the call put together.
calc_pg_acting-run :
    (m : OsdMap) (fuel : ℕ) (pgid : Pg) (osds raw : List ℤ) (pool : Pool) (st st' : St)
    (up chosen f : Found)
    → lookup id_cmp m.pg_pools pgid.pool ≡ some pool
    → pg_to_raw_osds m fuel pool (placement_seed pool pgid) st ≡ ok (some raw, st')
    → raw_to_up_osds m pool (raw ++ drop (length raw) osds) (length raw) ≡ ok up
    → apply_primary_affinity m (placement_seed pool pgid) pool up ≡ ok chosen
    → apply_temps m pool pgid chosen ≡ ok f
    → calc_pg_acting m fuel pgid osds st
      ≡ ok (record { result = pos f.len; osds = f.osds; primary = f.primary }, st')
unfolding calc_pg_acting acting_in acting_from
calc_pg_acting-run m fuel pgid osds raw pool st st' up chosen f found run run1 run2 run3 =
    rw (found, acting_in, ◌>>=◌, run, acting_from, ◌>>=◌, lift, run1, run2, run3) refl

-- On a map whose array of affinities, if there is one, has an entry for each osd, and whose pg_temp
-- mappings have at most CEPH_PG_MAX_SIZE osds (a longer one makes the code write past the array, and
-- is excluded), with an array of CEPH_PG_MAX_SIZE places: once CRUSH gives its raw osds, the call for
-- a pool that the map has, of replicas or of erasure codes, answers, leaves the state as
-- CRUSH left it, and the number, the array and the primary of its answer are those of an acting set:
-- each osd is up, or is CRUSH_ITEM_NONE in a pool of erasure codes, and the primary is one of the
-- osds that are up, or -1 where there is none; but for a mapping of primary_temp, whose osd is
-- the primary whatever its state is.
pub calc_pg_acting-IsActing :
    (m : OsdMap) (fuel : ℕ) (pgid : Pg) (osds raw : List ℤ) (pool : Pool) (st st' : St)
    → lookup id_cmp m.pg_pools pgid.pool ≡ some pool
    → IsKind pool
    → HasAffinities m
    → FitsTemps m pg_max_size
    → length osds ≡ pg_max_size
    → pg_to_raw_osds m fuel pool (placement_seed pool pgid) st ≡ ok (some raw, st')
    → (f : Found) × IsActing m pool pg_max_size f
      × (calc_pg_acting m fuel pgid osds st
          ≡ ok (
            record {
              result = pos f.len;
              osds = f.osds;
              primary = overridden (lookup pgid_cmp m.primary_temp (temp_pg pool pgid)) f.primary;
            },
            st',
          ))
calc_pg_acting-IsActing m fuel pgid osds raw pool st st' found kind affinities fits places run =
    let le = raw-le m fuel pool (placement_seed pool pgid) raw st st' run in
    let rest = drop (length raw) osds in
    let left = length-drop (length raw) osds in
    let (up, run1, ok1) = up-IsActing m pool raw rest kind in
    let size : length raw + length rest ≡ pg_max_size = omega arith in
    let ok1' = subst (λ (n : ℕ). IsActing m pool n up) size ok1 in
    let (chosen, run2, ok2) =
      affinity-IsActing m (placement_seed pool pgid) pool pg_max_size up kind affinities ok1' in
    let (f, run3, ok3) =
      pg_temp-IsActing m pool pg_max_size chosen (temp_pg pool pgid) kind fits ok2 in
    (
      f,
      ok3,
      calc_pg_acting-run m fuel pgid osds raw pool st st' up chosen _ found run run1 run2
          (apply_temps-run m pool pgid chosen f run3),
    )
