-- ===== src/Pagelist/Reserve.antt =====
-- `ceph_pagelist_reserve`, and the append that it makes safe.
use kmod_ceph.Base.{ℕ, ◌+◌, ◌≡◌}
use kmod_ceph.Pagelist.{Status, done, PageList}
use kmod_ceph.Pagelist.Contents.{contents, IsValid}

-- Spare pages are set aside, and nothing else changes.
record SetAside (shift : ℕ) (pl : PageList) (left : ℕ) (r : Status × PageList) : Type 0 where
  valid : IsValid shift r.1
  bytes : contents r.1 ≡ contents pl
  room_eq : r.1.room ≡ pl.room
  spare : r.0 ≡ done → r.1.num_pages_free ≡ pl.num_pages_free + left
