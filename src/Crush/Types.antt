-- ===== src/Crush/Types.antt =====
-- include/linux/crush/crush.h: buckets, rules and the map. The four kinds of bucket, which C tells
-- apart by `alg` and a cast, are the constructors of `Alg`; a null pointer is `none`. Counts that
-- C keeps in an `int` are never negative and are numbers here. The field `ruleset` of the mask is
-- `rule_set`, and the op codes that `crush_do_rule` does not know are `noop`.
use kmod_ceph.Base.{ℕ, List, Option}
use kmod_ceph.Base.Int.{ℤ}

pub data Alg : Type 0 where
  uniform : ℕ → Alg
  list : List ℕ → List ℕ → Alg
  tree : ℕ → List ℕ → Alg
  straw : List ℕ → List ℕ → Alg
  other : ℕ → Alg

pub record Bucket : Type 0 where
  pub id : ℤ
  pub type : ℕ
  pub alg : Alg
  pub hash : ℕ
  pub weight : ℕ
  pub size : ℕ
  pub items : List ℤ
  pub perm_x : ℕ
  pub perm_n : ℕ
  pub perm : List ℕ

pub data Op : Type 0 where
  noop take choose_firstn choose_indep emit chooseleaf_firstn chooseleaf_indep : Op
  set_choose_tries set_chooseleaf_tries set_choose_local_tries : Op
  set_choose_local_fallback_tries set_chooseleaf_vary_r : Op

pub record RuleStep : Type 0 where
  pub op : Op
  pub arg1 : ℤ
  pub arg2 : ℤ

pub record RuleMask : Type 0 where
  pub rule_set : ℕ
  pub type : ℕ
  pub min_size : ℕ
  pub max_size : ℕ

pub record Rule : Type 0 where
  pub mask : RuleMask
  pub steps : List RuleStep

pub record CrushMap : Type 0 where
  pub buckets : List (Option Bucket)
  pub rules : List (Option Rule)
  pub max_buckets : ℕ
  pub max_rules : ℕ
  pub max_devices : ℕ
  pub choose_local_tries : ℕ
  pub choose_local_fallback_tries : ℕ
  pub choose_total_tries : ℕ
  pub chooseleaf_descend_once : ℕ
  pub chooseleaf_vary_r : ℕ
