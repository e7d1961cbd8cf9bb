-- ===== src/Lib.antt =====
-- The Linux kernel client of Ceph (net/ceph, fs/ceph, include/linux/ceph, include/linux/crush),
-- modelled in parts.
--
-- - Base: names, tests, lists, machine words, the bit operations at variables, signed integers.
-- - Frag: include/linux/ceph/ceph_frag.h and fs/ceph/ceph_frag.c, the subsets of a 24-bit number
--   space by which directories are split. A function ceph_frag_f is frag_f. Words are numbers below
--   2 ^ 32 with the wrap of `unsigned` written out.
-- - Armor: net/ceph/armor.c, base64. ceph_armor is armor and ceph_unarmor is unarmor, over lists of
--   bytes.
-- - Crush: net/ceph/crush/{hash,mapper}.c and include/linux/crush/crush.h, the placement function.
--   crush_hash32_n is hash32_n; bucket_X_choose keeps its name; crush_bucket_choose is
--   bucket_choose; crush_choose_firstn, crush_choose_indep, crush_find_rule and crush_do_rule lose
--   their prefix (Crush/Firstn, Crush/Indep, Crush/Rule). Array accesses out of range, null
--   pointers and BUG_ONs are the result `fault`. The buckets, whose permutation caches change, and
--   one array that holds all output vectors (the scratch array of crush_do_rule) are the state of a
--   monad (Crush/State); an output vector is an offset into the array.
-- - Osd: parts of net/ceph/osdmap.c, net/ceph/ceph_hash.c and net/ceph/ceph_fs.c that name and
--   place objects: ceph_calc_file_object_mapping (Striping), ceph_stable_mod and the pg masks
--   (Bins), ceph_str_hash (StrHash), ceph_file_layout_is_valid (Layout). The size of a page and the
--   width of `unsigned long` are arguments. Osd/Trees has the search trees of pools and of
--   temporary mappings, with the kernel's rb_insert_color and rb_erase as parameters, and
--   Osd/Acting the way from an object's name to its pg and the osds of a pg: ceph_oloc_oid_to_pg,
--   ceph_calc_pg_acting, raw_to_up_osds, apply_primary_affinity and apply_temps keep their names
--   without the prefix.
-- - Pagelist: net/ceph/pagelist.c. ceph_pagelist_append, _reserve, _set_cursor and _truncate are
--   pagelist_append and so on. A page is a list of 2 ^ shift bytes, and the allocator is the list
--   of pages that it still gives. An append goes round once for each page, so that the length of
--   the buffer and two more are enough fuel.
-- - Caps: parts of fs/ceph/caps.c. Caps/Pool has ceph_reserve_caps, ceph_unreserve_caps,
--   ceph_get_cap, ceph_put_cap and ceph_adjust_min_caps on the counts and the list of struct
--   ceph_mds_client, where a cap is a number; Caps/Pool/Threads lets threads run them in any order,
--   one locked part at a time. Caps/Issued has __ceph_caps_issued, __ceph_caps_issued_mask and
--   their kin, without the underscores.
-- - Messenger: parts of net/ceph/messenger.c. ceph_con_send is con_send, and the functions on a
--   connection keep their names (prepare_write_message, process_ack, con_fault); do_next is the end
--   of try_write, check_seq the test in read_partial_message and connect_ready the last case of
--   process_connect. Messenger/Link is the relation of one step of two connections and their
--   socket, and Messenger/Sock has the states of the socket of one connection (con_sock_state_*,
--   ceph_tcp_connect, ceph_sock_state_change) with the calls, work and callbacks that change them.
--
-- A file is cut into objects by Osd/Striping, the name of an object is hashed by Osd/StrHash, the
-- hash is put into a bin, its pg, by Osd/Bins, Crush places the pg on osds, and Osd/Acting drops
-- from these the osds that are down and chooses the primary. Frag and Armor stand apart: the first
-- splits directories between metadata servers, the second carries keys as text.
--
-- Loops with a bound in the code recur on the rounds left. The search of crush_choose_firstn, the
-- descent of crush_choose_indep and the walk down a tree bucket take fuel: `stuck` is the result
-- when it runs out. For crush_choose_firstn the number `enough` of Crush/Firstn/Total bounds the
-- fuel: it grows with the tries, the retries, the sizes of the buckets and the depth of the map. Its
-- counters are 32 bits wide, and it is proved to end where tries, retries and sizes together fit
-- them. A
-- node number of a tree is a byte, so that 8 rounds end every walk and the count of its zeros (of
-- node 0 the code counts for ever). The calls for leaves are one level deep, and take that depth as
-- an argument.
--
-- Not modelled: memory allocation and release, log output, the decoding of maps, the bytes on the
-- socket and the handshake of the messenger, the monitor, osd and mds clients on it, the VFS
-- operations, the block device.
pub mod Base
pub mod Frag
pub mod Armor
pub mod Crush
pub mod Osd
pub mod Pagelist
pub mod Caps
pub mod Messenger
