-- ===== src/Osd/Acting/Tests.antt =====
-- A call of `ceph_calc_pg_acting` from the seed to the primary, and the theorems at its steps.
use kmod_ceph.Base.{ℕ, zero, suc, ◌≡◌, refl, inl, inr, some, List, [], ◌∷◌, arith}
use kmod_ceph.Base.Int.{ℤ, pos}
use kmod_ceph.Crush.Outcome.{ok, load, store}
use kmod_ceph.Crush.Bucket.{bucket_choose, choose_by, bucket_straw_choose, straw_loop, is_out}
use kmod_ceph.Crush.Hash.{hash32_2, hash32_3}
use kmod_ceph.Crush.State.{
  bucket_at, choose_in, put_bucket, type_of, collides, read, write, bucket_of,
}
use kmod_ceph.Crush.Firstn.{
  choose_firstn, replicas, search_item, follow, place, attempt, classify, try_item, check_leaf,
  check_out,
}
use kmod_ceph.Crush.Rule.{
  find_rule, find_rule_from, do_rule, run_rule, do_steps, do_step, do_choose, choose_each,
  choose_once, numrep_of, recurse_tries_of, emit_items, copy_leaves,
}
use kmod_ceph.Crush.Tests.{small_map, scratch, scratch_after}
use kmod_ceph.Osd.Bins.{stable_mod}
use kmod_ceph.Osd.Trees.{Tree, leaf, Pg, pgid_cmp, id_cmp, lookup}
use kmod_ceph.Osd.Trees
use kmod_ceph.Osd.Acting.{
  Pool, OsdMap, Found, pg_max_size, osd_exists, osd_is_up, osd_is_down, can_shift_osds, shift_one,
  shift_loop, shifted, raw_to_up_by, raw_to_up_osds, affinity_of, any_affinity, judge, pick_loop,
  move_up, take_primary, apply_affinity_by, apply_primary_affinity,
}
use kmod_ceph.Osd.Acting.UpSet.{UpFound, raw_to_up_osds-UpFound}
use kmod_ceph.Osd.Acting.Affinity.{Affine, apply_primary_affinity-Affine}
use kmod_ceph.Osd.Acting.Members.{FitsTemps, IsActing}
use kmod_ceph.Osd.Acting.Result.{overridden, temp_pg, calc_pg_acting-IsActing}
use kmod_ceph.Osd.Acting.Calc.{do_crush, pg_to_raw_osds, placement_seed, calc_pg_acting}

abbrev two_copies : Pool
two_copies = record {
  type = 1;
  size = 2;
  crush_ruleset = 1;
  object_hash = 2;
  pg_num = 32;
  pgp_num = 32;
  pg_num_mask = 31;
  pgp_num_mask = 31;
  flags = 0;
}

-- Osd 2 is down, and osd 1 is never to be a primary.
abbrev three_states : OsdMap
three_states = record {
  osd_state = 3 ∷ 3 ∷ 1 ∷ [];
  osd_weight = 0x10000 ∷ 0x10000 ∷ 0 ∷ [];
  pg_temp = leaf;
  primary_temp = leaf;
  osd_primary_affinity = some (0x10000 ∷ 0 ∷ 0x10000 ∷ []);
  pg_pools = Trees.node leaf 1 two_copies leaf;
  crush = small_map;
}

abbrev pg_sixteen : Pg
pg_sixteen = record { pool = 1; seed = 16 }

abbrev blanks : ℕ → List ℤ
blanks zero = []
blanks (suc n) = pos 9 ∷ blanks n

raw_run :
    pg_to_raw_osds three_states 30 two_copies (placement_seed two_copies pg_sixteen) scratch
    ≡ ok (some (pos 1 ∷ pos 0 ∷ []), scratch_after)
unfolding pg_to_raw_osds placement_seed do_crush stable_mod find_rule find_rule_from do_rule
    run_rule do_steps do_step do_choose choose_each choose_once numrep_of recurse_tries_of
    emit_items copy_leaves choose_firstn replicas search_item follow place attempt classify try_item
    check_leaf check_out bucket_at choose_in put_bucket type_of collides read write bucket_of
    bucket_choose choose_by bucket_straw_choose straw_loop is_out load store hash32_2 hash32_3
raw_run = refl

-- Osd 1 is put first by CRUSH and refused as a primary, so that osd 0 moves to the front.
second_is_primary :
    apply_primary_affinity three_states 17 two_copies
      (record { osds = pos 1 ∷ pos 0 ∷ pos 9 ∷ []; len = 2; primary = pos 1 })
    ≡ ok (record { osds = pos 0 ∷ pos 1 ∷ pos 9 ∷ []; len = 2; primary = pos 0 })
unfolding apply_primary_affinity apply_affinity_by any_affinity affinity_of judge pick_loop
    take_primary move_up can_shift_osds load store hash32_2
second_is_primary = refl

down_is_left_out :
    raw_to_up_osds three_states two_copies (pos 2 ∷ pos 1 ∷ pos 7 ∷ pos 0 ∷ pos 9 ∷ []) 4
    ≡ ok (record { osds = pos 1 ∷ pos 0 ∷ pos 7 ∷ pos 0 ∷ pos 9 ∷ []; len = 2; primary = pos 1 })
unfolding raw_to_up_osds raw_to_up_by shift_loop shift_one shifted can_shift_osds osd_is_down
    osd_is_up osd_exists load store
down_is_left_out = refl

pool_found : lookup id_cmp three_states.pg_pools 1 ≡ some two_copies
unfolding lookup id_cmp
pool_found = refl

no_temps : FitsTemps three_states pg_max_size
unfolding lookup
no_temps pg temps e = absurd (cc)

calc_pg_acting-IsActing_example :
    (f : Found) × IsActing three_states two_copies 16 f
    × (calc_pg_acting three_states 30 pg_sixteen (blanks 16) scratch
        ≡ ok (
          record {
            result = pos f.len;
            osds = f.osds;
            primary = overridden (lookup pgid_cmp leaf (temp_pg two_copies pg_sixteen)) f.primary;
          },
          scratch_after,
        ))
calc_pg_acting-IsActing_example =
    calc_pg_acting-IsActing three_states 30 pg_sixteen (blanks 16) (pos 1 ∷ pos 0 ∷ []) two_copies
      scratch scratch_after pool_found (inl refl) (inr (0x10000 ∷ 0 ∷ 0x10000 ∷ [], refl, refl))
      no_temps refl raw_run

apply_primary_affinity-Affine_example :
    Affine three_states 17 two_copies
      (0x10000 ∷ 0 ∷ 0x10000 ∷ [])
      (pos 1 ∷ pos 0 ∷ [])
      (pos 9 ∷ [])
      (pos 1)
apply_primary_affinity-Affine_example =
    apply_primary_affinity-Affine three_states 17 two_copies (0x10000 ∷ 0 ∷ 0x10000 ∷ [])
      (pos 1 ∷ pos 0 ∷ []) (pos 9 ∷ []) (pos 1) refl (inl refl)
      (inr (1, refl, omega arith), (inr (0, refl, omega arith), tt))

raw_to_up_osds-UpFound_example : UpFound three_states two_copies (pos 2 ∷ pos 1 ∷ []) (pos 9 ∷ [])
raw_to_up_osds-UpFound_example =
    raw_to_up_osds-UpFound three_states two_copies (pos 2 ∷ pos 1 ∷ []) (pos 9 ∷ [])
