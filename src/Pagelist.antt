-- ===== src/Pagelist.antt =====
-- net/ceph/pagelist.c: a growing buffer made of pages. A page is the list of its bytes, 2 ^ shift of
-- them. The pages that the allocator will give are a list, and it fails when they are used up.
-- `head` is kept with the newest page first. Reference counts, and the release of the whole list,
-- are left out.
pub mod Contents
pub mod Reserve
pub mod Truncate
pub mod Tests
use kmod_ceph.Base.{
  ℕ, zero, suc, ◌+◌, ◌-◌, ◌*◌, ◌/◌, ◌%◌, ◌^◌, ◌≤◌, ◌<◌, min, max, bit_and, bit_or, bit_xor, ◌≡◌,
  refl, sym, subst, ap, ◌∙◌, ◌≢◌, ◌↔◌, ◌⊎◌, inl, inr, Bool, true, false, not, ◌&&◌, ◌||◌, Option,
  none, some, List, [], ◌∷◌, ◌++◌, map, arith, ltb, leb, ◌==◌, if◌then◌else◌, Bool-cases,
  Option-cases, length, get_elem?, set, take, drop, All, length-append, length-set, length-take,
  length-drop, take-append-drop, u8, u32, u64, sub32, ◌<<<◌, ◌>>>◌, mod_unique, div_unique,
}
use kmod_ceph.Crush.Outcome.{Outcome, ok, fault, stuck, ◌>>=◌, store}

abbrev pub Page : Type 0
Page = List ℕ

-- 0 and -ENOMEM.
pub data Status : Type 0 where
  done no_memory : Status

-- The address tells lists apart. `mapped` says that `mapped_tail` is not null; it is the newest page then.
pub record PageList : Type 0 where
  pub address : ℕ
  pub head : List Page
  pub mapped : Bool
  pub length : ℕ
  pub room : ℕ
  pub free_list : List Page
  pub num_pages_free : ℕ
  pub supply : List Page

-- `memcpy` into a page.
pub copy : Page → ℕ → List ℕ → Outcome Page
copy p off [] = ok p
copy p off (b ∷ buf) = do p' ← store p off b; copy p' (off + 1) buf

-- `memcpy` to `mapped_tail`, which may copy nothing to a null pointer.
pub write_tail : Bool → List Page → ℕ → List ℕ → Outcome (List Page)
write_tail mapped head off [] = ok head
write_tail true (p ∷ ps) off (b ∷ buf) = do p' ← copy p off (b ∷ buf); ok (p' ∷ ps)
write_tail _ _ off (b ∷ buf) = fault

-- One `memcpy` of `ceph_pagelist_append` with the counts after it.
pub append_bytes : ℕ → PageList → List ℕ → Outcome PageList
append_bytes shift pl buf = do
  head ← write_tail pl.mapped pl.head (bit_and pl.length (2 ^ shift - 1)) buf
  ok (record pl { head = head; length = pl.length + length buf; room = pl.room - length buf })

pub from_supply : PageList → List Page → Option Page × PageList
from_supply pl [] = (none, pl)
from_supply pl (p ∷ supply) = (some p, record pl { supply = supply })

-- The first entry of an empty list is no page.
pub from_free : PageList → List Page → Outcome (Option Page × PageList)
from_free pl [] = fault
from_free pl (p ∷ free_list) =
    ok (some p, record pl { free_list = free_list; num_pages_free = pl.num_pages_free - 1 })

pub next_page : PageList → Outcome (Option Page × PageList)
next_page pl =
    if pl.num_pages_free == 0 then ok (from_supply pl pl.supply) else from_free pl pl.free_list

pub link_page : ℕ → Option Page → PageList → Status × PageList
link_page shift none pl = (no_memory, pl)
link_page shift (some p) pl =
    (done, record pl { room = pl.room + 2 ^ shift; head = p ∷ pl.head; mapped = true })

pub addpage : ℕ → PageList → Outcome (Status × PageList)
addpage shift pl = do r ← next_page pl; ok (link_page shift r.0 r.1)

pub go_on :
    (PageList → List ℕ → Outcome (Status × PageList))
    → List ℕ
    → Status × PageList
    → Outcome (Status × PageList)
go_on again buf (done, pl) = again pl buf
go_on again buf (no_memory, pl) = ok (no_memory, pl)

-- `while (pl->room < len)`, with fuel, and the copy after it.
pub append_loop : ℕ → ℕ → PageList → List ℕ → Outcome (Status × PageList)
append_loop shift zero pl buf = stuck
append_loop shift (suc fuel) pl buf =
    if ltb pl.room (length buf)
    then (do
      pl' ← append_bytes shift pl (take pl.room buf)
      r ← addpage shift pl'
      go_on (append_loop shift fuel) (drop pl.room buf) r)
    else (do pl' ← append_bytes shift pl buf; ok (done, pl'))

-- Each round but the first copies a page, so these rounds are enough.
unfoldable pub pagelist_append : ℕ → PageList → List ℕ → Outcome (Status × PageList)
pagelist_append shift pl buf = append_loop shift (length buf + 2) pl buf

-- The loop of `ceph_pagelist_reserve`, with the rounds left and the pages that there are.
unfoldable pub reserve_loop : ℕ → List Page → PageList → Status × PageList
reserve_loop zero supply pl = (done, pl)
reserve_loop (suc left) [] pl = (no_memory, pl)
reserve_loop (suc left) (p ∷ supply) pl = reserve_loop left supply (record pl {
  free_list = pl.free_list ++ p ∷ [];
  num_pages_free = pl.num_pages_free + 1;
  supply = supply;
})

unfoldable pub pagelist_reserve : ℕ → PageList → ℕ → Status × PageList
pagelist_reserve shift pl space =
    if leb space pl.room
    then (done, pl)
    else reserve_loop (((space - pl.room + 2 ^ shift - 1) >>> shift) - pl.num_pages_free) pl.supply
        pl

-- `page_lru` is told by the number of pages up to it.
pub record Cursor : Type 0 where
  pub pl : ℕ
  pub page_lru : ℕ
  pub room : ℕ

unfoldable pub pagelist_set_cursor : PageList → Cursor
pagelist_set_cursor pl = record { pl = pl.address; page_lru = length pl.head; room = pl.room }

-- `while (pl->head.prev != c->page_lru)`; past the oldest page there is none to move.
pub move_pages : ℕ → List Page → List Page → ℕ → Outcome (List Page × List Page × ℕ)
move_pages page_lru [] free_list n = if page_lru == 0 then ok ([], free_list, n) else fault
move_pages page_lru (p ∷ ps) free_list n =
    let rest = move_pages page_lru ps (free_list ++ p ∷ []) (n + 1) in
    if suc (length ps) == page_lru then ok (p ∷ ps, free_list, n) else rest

abbrev pub is_empty : List Page → Bool
is_empty [] = true
is_empty (p ∷ ps) = false

-- `none` is -EINVAL.
unfoldable pub pagelist_truncate : PageList → Cursor → Outcome (Option PageList)
pagelist_truncate pl c = if not (pl.address == c.pl) then ok none else (do
  r ← move_pages c.page_lru pl.head pl.free_list pl.num_pages_free
  ok (
      some (record pl {
        head = r.0;
        free_list = r.1;
        num_pages_free = r.2;
        room = c.room;
        mapped = not (is_empty r.0);
      })))
