-- ===== src/Crush/Rule.antt =====
-- `crush_find_rule` and `crush_do_rule` of net/ceph/crush/mapper.c. The scratch array of
-- 3 * result_max integers is the array of the state, and `w`, `o` and `c` are offsets into it.
pub mod Find
pub mod Bounds
use kmod_ceph.Base.{
  ℕ, zero, suc, ◌+◌, ◌-◌, ◌*◌, ◌%◌, ◌^◌, u32, Option, none, some, ltb, leb, ◌==◌, if◌then◌else◌,
  Bool, true, false, ◌&&◌, ◌||◌, not, List, [], ◌∷◌, ◌++◌, get_elem?, length,
}
use kmod_ceph.Base.Int.{ℤ, pos, negsuc}
use kmod_ceph.Crush.Types
use kmod_ceph.Crush.Types.{Op, RuleStep, RuleMask, Rule, CrushMap}
use kmod_ceph.Crush.Firstn.{Config, Args, choose_firstn}
use kmod_ceph.Crush.Indep.{IndepArgs, choose_indep}
use kmod_ceph.Crush.State.{M, pure, lift, failed, out_of_fuel, ◌>>=◌, ◌>>◌, bucket_of, read, write}

abbrev pub mask_matches : RuleMask → ℕ → ℕ → ℕ → Bool
mask_matches m rule_set type size =
    (m.rule_set == rule_set) && ((m.type == type) && (leb m.min_size size && leb size m.max_size))

-- The rules left, and the number of the first; `none` is -1.
unfoldable pub find_rule_from : List (Option Rule) → ℕ → ℕ → ℕ → ℕ → Option ℕ
find_rule_from [] i rule_set type size = none
find_rule_from (none ∷ rules) i rule_set type size = find_rule_from rules (i + 1) rule_set type size
find_rule_from (some rule ∷ rules) i rule_set type size =
    let rest = find_rule_from rules (i + 1) rule_set type size in
    if mask_matches rule.mask rule_set type size then some i else rest

-- `map->rules` has `max_rules` entries.
unfoldable pub find_rule : CrushMap → ℕ → ℕ → ℕ → Option ℕ
find_rule map rule_set type size = find_rule_from map.rules 0 rule_set type size

-- The variables of `crush_do_rule` that change from step to step.
pub record RuleState : Type 0 where
  pub w : ℕ
  pub wsize : ℕ
  pub o : ℕ
  pub result : List ℤ
  pub choose_tries : ℕ
  pub choose_leaf_tries : ℕ
  pub local_retries : ℕ
  pub local_fallback_retries : ℕ
  pub vary_r : ℕ

-- What stays the same in one call. The model's fuel is for each descent.
pub record Job : Type 0 where
  pub map : CrushMap
  pub x : ℕ
  pub result_max : ℕ
  pub weight : List ℕ
  pub weight_max : ℕ
  pub fuel : ℕ

abbrev pub config_of : Job → RuleState → Config
config_of j s = record {
  max_devices = j.map.max_devices;
  max_buckets = j.map.max_buckets;
  weight = j.weight;
  weight_max = j.weight_max;
  x = j.x;
  local_retries = s.local_retries;
  local_fallback_retries = s.local_fallback_retries;
  vary_r = s.vary_r;
}

-- `numrep`, or 0 where the loop goes on to the next item.
unfoldable pub numrep_of : ℤ → ℕ → ℕ
numrep_of (pos zero) result_max = result_max
numrep_of (pos (suc n)) result_max = suc n
numrep_of (negsuc n) result_max = result_max - (n + 1)

unfoldable pub recurse_tries_of : Job → RuleState → ℕ
recurse_tries_of j s =
    if not (s.choose_leaf_tries == 0)
    then s.choose_leaf_tries
    else if not (j.map.chooseleaf_descend_once == 0)
    then 1
    else s.choose_tries

-- One call of `crush_choose_firstn` or `crush_choose_indep`; it gives the growth of `osize`.
unfoldable pub choose_once : Job → RuleState → RuleStep → Bool → Bool → ℕ → ℕ → ℕ → M ℕ
choose_once j s step true to_leaf numrep bucket osize =
    choose_firstn 2 (config_of j s) j.fuel (record {
      bucket = bucket;
      numrep = numrep;
      type = step.arg2;
      out = s.o + osize;
      outpos = 0;
      tries = s.choose_tries;
      recurse_tries = recurse_tries_of j s;
      recurse_to_leaf = to_leaf;
      out2 = j.result_max * 2 + osize;
      parent_r = 0;
    })
choose_once j s step false to_leaf numrep bucket osize = do
  choose_indep 2 (config_of j s) j.fuel (record {
    bucket = bucket;
    left = numrep;
    numrep = numrep;
    type = step.arg2;
    out = s.o + osize;
    outpos = 0;
    tries = s.choose_tries;
    recurse_tries = if not (s.choose_leaf_tries == 0) then s.choose_leaf_tries else 1;
    recurse_to_leaf = to_leaf;
    out2 = some (j.result_max * 2 + osize);
    parent_r = 0;
  })
  pure numrep

-- `for (i = 0; i < wsize; i++)`, with the rounds left; it gives `osize`.
unfoldable pub choose_each : Job → RuleState → RuleStep → Bool → Bool → ℕ → ℕ → ℕ → M ℕ
choose_each j s step firstn to_leaf zero i osize = pure osize
choose_each j s step firstn to_leaf (suc left) i osize = do
  let numrep = numrep_of step.arg1 j.result_max
  grown ←
      (if numrep == 0 then pure 0 else do
        item ← read (s.w + i)
        bucket ← bucket_of item
        choose_once j s step firstn to_leaf numrep bucket osize)
  choose_each j s step firstn to_leaf left (i + 1) (osize + grown)

-- `memcpy(o, c, osize)`, with the rounds left.
unfoldable pub copy_leaves : ℕ → ℕ → ℕ → M (Unit {0})
copy_leaves from to zero = pure tt
copy_leaves from to (suc left) = do v ← read from; write to v; copy_leaves (from + 1) (to + 1) left

unfoldable pub do_choose : Job → RuleState → RuleStep → Bool → Bool → M RuleState
do_choose j s step firstn to_leaf = if s.wsize == 0 then pure s else do
  osize ← choose_each j s step firstn to_leaf s.wsize 0 0
  (if to_leaf then copy_leaves (j.result_max * 2) s.o osize else pure tt)
  pure (record s { w = s.o; o = s.w; wsize = osize })

-- `for (i = 0; i < wsize && result_len < result_max; i++)`, with the rounds left.
unfoldable pub emit_items : ℕ → ℕ → ℕ → List ℤ → M (List ℤ)
emit_items result_max zero i result = pure result
emit_items result_max (suc left) i result =
    if ltb (length result) result_max
    then (do v ← read i; emit_items result_max left (i + 1) (result ++ v ∷ []))
    else pure result

abbrev if_positive : ℤ → ℕ → ℕ
if_positive (pos zero) old = old
if_positive (pos (suc n)) old = suc n
if_positive (negsuc n) old = old

abbrev if_not_negative : ℤ → ℕ → ℕ
if_not_negative (pos n) old = n
if_not_negative (negsuc n) old = old

unfoldable pub do_step : Job → Op → RuleStep → RuleState → M RuleState
do_step j Op.noop step s = pure s
do_step j Op.take step s = do write s.w step.arg1; pure (record s { wsize = 1 })
do_step j Op.set_choose_tries step s =
    pure (record s { choose_tries = if_positive step.arg1 s.choose_tries })
do_step j Op.set_chooseleaf_tries step s =
    pure (record s { choose_leaf_tries = if_positive step.arg1 s.choose_leaf_tries })
do_step j Op.set_choose_local_tries step s =
    pure (record s { local_retries = if_not_negative step.arg1 s.local_retries })
do_step j Op.set_choose_local_fallback_tries step s =
    pure (record s { local_fallback_retries = if_not_negative step.arg1 s.local_fallback_retries })
do_step j Op.set_chooseleaf_vary_r step s =
    pure (record s { vary_r = if_not_negative step.arg1 s.vary_r })
do_step j Op.choose_firstn step s = do_choose j s step true false
do_step j Op.chooseleaf_firstn step s = do_choose j s step true true
do_step j Op.choose_indep step s = do_choose j s step false false
do_step j Op.chooseleaf_indep step s = do_choose j s step false true
do_step j Op.emit step s = do
  result ← emit_items j.result_max s.wsize s.w s.result
  pure (record s { result = result; wsize = 0 })

unfoldable pub do_steps : Job → List RuleStep → RuleState → M RuleState
do_steps j [] s = pure s
do_steps j (step ∷ steps) s = do s' ← do_step j step.op step s; do_steps j steps s'

abbrev pub first_state : Job → RuleState
first_state j = record {
  w = 0;
  wsize = 0;
  o = j.result_max;
  result = [];
  choose_tries = u32 (j.map.choose_total_tries + 1);
  choose_leaf_tries = 0;
  local_retries = j.map.choose_local_tries;
  local_fallback_retries = j.map.choose_local_fallback_tries;
  vary_r = j.map.chooseleaf_vary_r;
}

-- The entry `map->rules[ruleno]`, where a null entry ends the call in a fault.
unfoldable pub run_rule : Job → Option (Option Rule) → M (List ℤ)
run_rule j none = failed
run_rule j (some none) = failed
run_rule j (some (some rule)) = do s ← do_steps j rule.steps (first_state j); pure s.result

-- The items; `result_len` is their number.
unfoldable pub do_rule : Job → ℕ → M (List ℤ)
do_rule j ruleno =
    if leb j.map.max_rules (u32 ruleno) then pure [] else run_rule j (get_elem? j.map.rules ruleno)
