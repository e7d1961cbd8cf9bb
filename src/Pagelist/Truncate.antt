-- ===== src/Pagelist/Truncate.antt =====
-- `ceph_pagelist_truncate`.
use kmod_ceph.Base.{
  ℕ, suc, ◌+◌, ◌*◌, ◌^◌, ◌≤◌, ◌<◌, ◌≡◌, refl, ap, inl, inr, true, not, some, List, [], ◌∷◌, ◌++◌,
  arith, ◌==◌, Bool-cases, length,
}
use kmod_ceph.Crush.Outcome.{ok}
use kmod_ceph.Pagelist.{
  Page, PageList, is_empty, move_pages, pagelist_set_cursor, pagelist_truncate,
}
use kmod_ceph.Pagelist.Contents.{IsValid}

-- The pages above the cursor go to the spare ones.
move_pages-eq :
    (k : ℕ) (head free_list : List Page) (n : ℕ)
    → k ≤ length head
    → (r : List Page × List Page × ℕ) × (move_pages k head free_list n ≡ ok r)
      × (length r.0 ≡ k)
      × (r.2 + k ≡ n + length head)
unfolding move_pages
move_pages-eq k [] free_list n h = (([], free_list, n), ground arith, omega arith, omega arith)
move_pages-eq k (p ∷ ps) free_list n h = elim (Bool-cases (suc (length ps) == k)) [
  | inl here ↦ ((p ∷ ps, free_list, n), rw here refl, ground arith, ground arith)
  | inr more ↦
      let (r, e, len, count) = move_pages-eq k ps (free_list ++ p ∷ []) (n + 1) (ground arith) in
      (r, rw more e, len, omega arith)
]

-- `ceph_pagelist_truncate` to a cursor of a shorter state of the list gives back the number of pages
-- and the room, and counts each page above as spare, but leaves the length as it was, so that the
-- counts do not fit the pages any more.
pub pagelist_truncate-length :
    (shift : ℕ) (start pl : PageList)
    → IsValid shift start
    → start.address ≡ pl.address
    → length start.head ≤ length pl.head
    → start.length < pl.length
    → (pl' : PageList) × (pagelist_truncate pl (pagelist_set_cursor start) ≡ ok (some pl'))
      × (length pl'.head ≡ length start.head)
      × (pl'.room ≡ start.room)
      × (pl'.num_pages_free + length start.head ≡ pl.num_pages_free + length pl.head)
      × (pl'.length ≡ pl.length)
      × ¬ IsValid shift pl'
unfolding pagelist_truncate pagelist_set_cursor
pagelist_truncate-length shift start pl v same below shorter =
    let (r, e, len, count) =
      move_pages-eq (length start.head) pl.head pl.free_list pl.num_pages_free below in
    let here : (pl.address == start.address) ≡ true = ground arith in
    (
      record pl {
        head = r.0;
        free_list = r.1;
        num_pages_free = r.2;
        room = start.room;
        mapped = not (is_empty r.0);
      },
      rw (here, e) refl,
      len,
      refl,
      count,
      refl,
      λ w. omega (arith, v.fill, w.fill, ap (λ (k : ℕ). k * 2 ^ shift) len),
    )
