-- ===== src/Crush/Tests.antt =====
-- Runs of the choose functions on a small map, and the theorems at it.
pub mod Hosts
use kmod_ceph.Base.{◌≡◌, ◌≤◌, u32, length, refl, arith, inl, [], ◌∷◌, some, none, false}
use kmod_ceph.Base.Int.{pos, negsuc}
use kmod_ceph.Crush.Hash.{hash32_2, hash32_3}
use kmod_ceph.Crush.Outcome.{ok, load, store}
use kmod_ceph.Crush.Types.{Bucket, straw, Op, Rule, CrushMap}
use kmod_ceph.Crush.State.{
  St, bucket_at, bucket_of, choose_in, put_bucket, type_of, collides, read, write,
}
use kmod_ceph.Crush.Bucket.{bucket_choose, choose_by, bucket_straw_choose, straw_loop, is_out}
use kmod_ceph.Crush.Firstn.{
  Config, Args, choose_firstn, replicas, search_item, follow, place, attempt, classify, try_item,
  check_leaf, check_out,
}
use kmod_ceph.Crush.Bucket.Cache.{IsSized, Chosen, bucket_perm_choose-Chosen}
use kmod_ceph.Crush.Firstn.Placed.{Placed, choose_firstn-Placed}
use kmod_ceph.Crush.Rule.{
  find_rule, find_rule_from, Job, do_rule, run_rule, do_steps, do_step, do_choose, choose_each,
  choose_once, numrep_of, recurse_tries_of, emit_items, copy_leaves,
}
use kmod_ceph.Crush.Rule.Find.{IsFirst, find_rule-IsFirst}
use kmod_ceph.Crush.Rule.Bounds.{do_rule-le}
use kmod_ceph.Crush.Bucket.Weight.{get_bucket_item_weight, weight_by}

-- Three devices in one straw bucket; device 2 is marked out.
abbrev pub three_osds : Bucket
three_osds = record {
  id = negsuc 0;
  type = 1;
  alg = straw (0x10000 ∷ 0x10000 ∷ 0x10000 ∷ []) (0x10000 ∷ 0x10000 ∷ 0x10000 ∷ []);
  hash = 0;
  weight = 0x30000;
  size = 3;
  items = pos 0 ∷ pos 1 ∷ pos 2 ∷ [];
  perm_x = 0;
  perm_n = 0;
  perm = 0 ∷ 0 ∷ 0 ∷ [];
}

abbrev start : St
start = record { buckets = some three_osds ∷ []; mem = pos 9 ∷ pos 9 ∷ pos 9 ∷ [] }

abbrev config : Config
config = record {
  max_devices = 3;
  max_buckets = 1;
  weight = 0x10000 ∷ 0x10000 ∷ 0 ∷ [];
  weight_max = 3;
  x = 17;
  local_retries = 0;
  local_fallback_retries = 0;
  vary_r = 0;
}

abbrev two_devices : Args
two_devices = record {
  bucket = 0;
  numrep = 2;
  type = pos 0;
  out = 1;
  outpos = 0;
  tries = 20;
  recurse_tries = 0;
  recurse_to_leaf = false;
  out2 = 0;
  parent_r = 0;
}

abbrev after_two : St
after_two = record { buckets = some three_osds ∷ []; mem = pos 9 ∷ pos 1 ∷ pos 0 ∷ [] }

two_devices_run : choose_firstn 1 config 30 two_devices start ≡ ok (2, after_two)
unfolding choose_firstn replicas search_item follow place attempt classify try_item check_leaf
    check_out bucket_at choose_in put_bucket type_of collides read write bucket_choose choose_by
    bucket_straw_choose straw_loop is_out load store hash32_2 hash32_3
two_devices_run = refl

choose_firstn-Placed_example : Placed config two_devices 0 2 2 start.mem after_two.mem
choose_firstn-Placed_example =
    choose_firstn-Placed 1 config 30 two_devices start (2, after_two) (omega arith) (inl refl)
      two_devices_run

three_osds-IsSized : IsSized three_osds
three_osds-IsSized = omega arith

bucket_perm_choose-Chosen_example : Chosen three_osds 17 5
bucket_perm_choose-Chosen_example =
    bucket_perm_choose-Chosen three_osds 17 5 three_osds-IsSized (inl refl)

abbrev two_replicas : Rule
two_replicas = record {
  mask = record { rule_set = 1; type = 1; min_size = 1; max_size = 10 };
  steps =
      record { op = Op.take; arg1 = negsuc 0; arg2 = pos 0 }
      ∷ record { op = Op.choose_firstn; arg1 = pos 0; arg2 = pos 0 }
      ∷ record { op = Op.emit; arg1 = pos 0; arg2 = pos 0 }
      ∷ [];
}

abbrev pub small_map : CrushMap
small_map = record {
  buckets = some three_osds ∷ [];
  rules = none ∷ some two_replicas ∷ [];
  max_buckets = 1;
  max_rules = 2;
  max_devices = 3;
  choose_local_tries = 0;
  choose_local_fallback_tries = 0;
  choose_total_tries = 19;
  chooseleaf_descend_once = 0;
  chooseleaf_vary_r = 0;
}

find_small : find_rule small_map 1 1 3 ≡ some 1
unfolding find_rule find_rule_from
find_small = refl

find_rule-IsFirst_example : IsFirst small_map.rules 0 1 1 3 (find_rule small_map 1 1 3)
find_rule-IsFirst_example = find_rule-IsFirst 1 1 3 small_map

abbrev job : Job
job = record {
  map = small_map;
  x = 17;
  result_max = 2;
  weight = 0x10000 ∷ 0x10000 ∷ 0 ∷ [];
  weight_max = 3;
  fuel = 30;
}

abbrev pub scratch : St
scratch = record {
  buckets = some three_osds ∷ [];
  mem = pos 9 ∷ pos 9 ∷ pos 9 ∷ pos 9 ∷ pos 9 ∷ pos 9 ∷ [];
}

abbrev pub scratch_after : St
scratch_after = record {
  buckets = some three_osds ∷ [];
  mem = negsuc 0 ∷ pos 9 ∷ pos 1 ∷ pos 0 ∷ pos 9 ∷ pos 9 ∷ [];
}

two_replicas_run : do_rule job 1 scratch ≡ ok (pos 1 ∷ pos 0 ∷ [], scratch_after)
unfolding do_rule run_rule do_steps do_step do_choose choose_each choose_once numrep_of
    recurse_tries_of emit_items copy_leaves choose_firstn replicas search_item follow place attempt
    classify try_item check_leaf check_out bucket_at choose_in put_bucket type_of collides read
    write bucket_of bucket_choose choose_by bucket_straw_choose straw_loop is_out load store
    hash32_2 hash32_3
two_replicas_run = refl

do_rule-le_example :
    (length (pos 1 ∷ pos 0 ∷ []) ≤ 2)
    × (2 ≤ u32 1 → (pos 1 ∷ pos 0 ∷ [] ≡ []) × (scratch_after ≡ scratch))
do_rule-le_example = do_rule-le job 1 scratch (pos 1 ∷ pos 0 ∷ [], scratch_after) two_replicas_run

third_weight : get_bucket_item_weight three_osds 2 ≡ ok 0x10000
unfolding get_bucket_item_weight weight_by load
third_weight = refl

past_weight : get_bucket_item_weight three_osds 3 ≡ ok 0
unfolding get_bucket_item_weight
past_weight = refl
