-- ===== src/Caps/Tests.antt =====
-- Runs of the pool of caps, and the theorems at them.
use kmod_ceph.Base.{◌≡◌, refl, [], ◌∷◌, arith}
use kmod_ceph.Crush.Outcome.{fault, ◌>>=◌}
use kmod_ceph.Caps.Pool.{
  Mdsc, reserve_first, reserve_second, get_cap, take_cap, reserve_caps, unreserve_caps, IsBalanced,
  unreserve_caps-short,
}
use kmod_ceph.Caps.Pool.Threads.{
  idle, reserving, Sys, Step, reserve, reserve_rest, get, here, next, IsSound, NoBug, Reach-NoBug,
}

abbrev empty_pool : Mdsc
empty_pool = record {
  caps_list = [];
  caps_total_count = 0;
  caps_use_count = 0;
  caps_reserve_count = 0;
  caps_avail_count = 0;
  caps_min_count = 0;
}

empty_pool-IsBalanced : IsBalanced empty_pool
empty_pool-IsBalanced = omega arith

-- Two caps wanted, one to be had.
unreserve_caps-short_example :
    (reserve_caps empty_pool 2 (5 ∷ []) >>= λ r. unreserve_caps r.1 r.0) ≡ fault
unreserve_caps-short_example =
    unreserve_caps-short empty_pool 2 (5 ∷ []) empty_pool-IsBalanced refl (omega arith)

abbrev two_threads : Sys
two_threads = record { mdsc = empty_pool; threads = idle 0 ∷ idle 0 ∷ []; out = 0 }

abbrev waiting : Sys
waiting = record two_threads { threads = idle 0 ∷ reserving 2 0 ∷ [] }

abbrev pool_of_two : Mdsc
pool_of_two = record empty_pool {
  caps_list = 5 ∷ 6 ∷ [];
  caps_total_count = 2;
  caps_reserve_count = 2;
}

abbrev reserved_two : Sys
reserved_two = record { mdsc = pool_of_two; threads = idle 0 ∷ idle 2 ∷ []; out = 0 }

abbrev one_out : Sys
one_out = record {
  mdsc = record pool_of_two { caps_list = 6 ∷ []; caps_reserve_count = 1; caps_use_count = 1 };
  threads = idle 0 ∷ idle 1 ∷ [];
  out = 1;
}

first-Step : Step two_threads waiting
unfolding reserve_first
first-Step = reserve 1 2 empty_pool refl refl refl

second-Step : Step waiting reserved_two
unfolding reserve_second
second-Step = reserve_rest 1 2 0 (5 ∷ 6 ∷ []) pool_of_two refl (omega arith) refl refl

third-Step : Step reserved_two one_out
unfolding get_cap take_cap
third-Step = get 1 1 (5, one_out.mdsc) refl refl refl

two_threads-IsSound : IsSound two_threads
two_threads-IsSound = omega arith

Reach-NoBug_example : IsSound one_out × NoBug one_out
Reach-NoBug_example =
    Reach-NoBug two_threads one_out two_threads-IsSound
      (next (next (next here first-Step) second-Step) third-Step)
