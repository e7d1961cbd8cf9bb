-- ===== src/Crush/Tests/Hosts.antt =====
-- A map of two levels, on which `crush_choose_firstn` looks for a leaf under each of two hosts.
use kmod_ceph.Base.{
  ℕ, zero, suc, ◌≡◌, ◌≤◌, refl, arith, inl, inr, [], ◌∷◌, some, get_elem?, List, true,
}
use kmod_ceph.Base.Int.{ℤ, pos, negsuc}
use kmod_ceph.Crush.Outcome.{ok}
use kmod_ceph.Crush.Types.{Bucket, Alg, straw, list, uniform}
use kmod_ceph.Crush.State.{St}
use kmod_ceph.Crush.Bucket.{bucket_choose}
use kmod_ceph.Crush.Bucket.Cache.{IsSized}
use kmod_ceph.Crush.Bucket.Usable.{IsUsable, Answers, bucket_choose-Answers}
use kmod_ceph.Crush.Firstn.{Config, Args, choose_firstn}
use kmod_ceph.Crush.Firstn.Placed.{Placed}
use kmod_ceph.Crush.Firstn.World.{Below, IsNode, IsWorld}
use kmod_ceph.Crush.Firstn.Total.{IsReady, choose_firstn-total}

abbrev bucket_with : ℤ → ℕ → Alg → List ℤ → Bucket
bucket_with id type alg items = record {
  id = id;
  type = type;
  alg = alg;
  hash = 0;
  weight = 0x20000;
  size = 2;
  items = items;
  perm_x = 0;
  perm_n = 0;
  perm = 0 ∷ 0 ∷ [];
}

abbrev root : Bucket
root =
    bucket_with (negsuc 0) 2 (straw (0x20000 ∷ 0x20000 ∷ []) (0x10000 ∷ 0x10000 ∷ []))
      (negsuc 1 ∷ negsuc 2 ∷ [])

abbrev first_host : Bucket
first_host = bucket_with (negsuc 1) 1 (uniform 0x10000) (pos 0 ∷ pos 1 ∷ [])

abbrev second_host : Bucket
second_host =
    bucket_with (negsuc 2) 1 (list (0x10000 ∷ 0x10000 ∷ []) (0x10000 ∷ 0x20000 ∷ []))
      (pos 2 ∷ pos 3 ∷ [])

abbrev hosts : St
hosts = record {
  buckets = some root ∷ some first_host ∷ some second_host ∷ [];
  mem = pos 9 ∷ pos 9 ∷ pos 9 ∷ pos 9 ∷ [];
}

abbrev hosts_config : Config
hosts_config = record {
  max_devices = 4;
  max_buckets = 3;
  weight = 0x10000 ∷ 0x10000 ∷ 0 ∷ 0x8000 ∷ [];
  weight_max = 4;
  x = 17;
  local_retries = 1;
  local_fallback_retries = 1;
  vary_r = 1;
}

abbrev two_hosts : Args
two_hosts = record {
  bucket = 0;
  numrep = 2;
  type = pos 1;
  out = 0;
  outpos = 0;
  tries = 5;
  recurse_tries = 5;
  recurse_to_leaf = true;
  out2 = 2;
  parent_r = 0;
}

abbrev host_rank : ℕ → ℕ
host_rank zero = 2
host_rank (suc zero) = 1
host_rank (suc (suc zero)) = 1
host_rank (suc (suc (suc i))) = 0

host_rank-le : (i : ℕ) → host_rank i ≤ 2
host_rank-le zero = omega arith
host_rank-le (suc zero) = omega arith
host_rank-le (suc (suc zero)) = omega arith
host_rank-le (suc (suc (suc i))) = omega arith

root_items : (k : ℕ) (item : ℤ) → get_elem? root.items k ≡ some item → Below host_rank 2 item
root_items k item h = ground arith

first_items : (k : ℕ) (item : ℤ) → get_elem? first_host.items k ≡ some item → Below host_rank 1 item
first_items k item h = ground arith

second_items :
    (k : ℕ) (item : ℤ) → get_elem? second_host.items k ≡ some item → Below host_rank 1 item
second_items k item h = ground arith

root-IsSized : IsSized root
root-IsSized = omega arith

root-IsUsable : IsUsable (Below host_rank 2) root
root-IsUsable = record {
  sized = inr (omega arith);
  cached = inl refl;
  kind = refl;
  items = root_items;
}

hosts-IsNode :
    (i : ℕ)
    → 1 ≤ host_rank i
    → (b : Bucket) × (get_elem? hosts.buckets i ≡ some (some b))
      × IsNode host_rank 2 (host_rank i) b
hosts-IsNode zero h =
    (root, refl, record { usable = root-IsUsable; size_le = omega arith; typed = omega arith })
hosts-IsNode (suc zero) h = (
  first_host,
  refl,
  record {
    usable = record {
      sized = inr (omega arith);
      cached = inl refl;
      kind = tt;
      items = first_items;
    };
    size_le = omega arith;
    typed = omega arith;
  },
)
hosts-IsNode (suc (suc zero)) h = (
  second_host,
  refl,
  record {
    usable = record {
      sized = inr (omega arith);
      cached = inl refl;
      kind = (refl, refl);
      items = second_items;
    };
    size_le = omega arith;
    typed = omega arith;
  },
)
hosts-IsNode (suc (suc (suc i))) h = absurd (omega arith)

two_hosts-IsReady : IsReady host_rank 4 2 2 hosts_config 200 two_hosts hosts
two_hosts-IsReady = record {
  ranked = host_rank-le;
  weights = omega arith;
  world = record { cells_len = refl; node = hosts-IsNode };
  call = record {
    bucket_there = omega arith;
    outpos_le = omega arith;
    room = omega arith;
    tries_le = omega arith;
  };
  leaf_room = inr (omega arith);
  apart = inr (inl (omega arith));
  counters_fit = omega arith;
  fuel_enough = omega arith;
}

choose_firstn-total_example :
    (p : ℕ × St) × (choose_firstn 2 hosts_config 200 two_hosts hosts ≡ ok p)
    × IsWorld host_rank 4 2 p.1
    × Placed hosts_config two_hosts 0 2 p.0 hosts.mem p.1.mem
choose_firstn-total_example =
    choose_firstn-total host_rank 4 2 2 hosts_config 200 two_hosts hosts two_hosts-IsReady

bucket_choose-Answers_example : Answers (Below host_rank 2) root (bucket_choose root 17 5)
bucket_choose-Answers_example =
    bucket_choose-Answers (Below host_rank 2) root root-IsUsable 17 5 root-IsSized
