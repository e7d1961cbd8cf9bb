-- ===== src/Pagelist/Tests.antt =====
-- Runs of the page lists with pages of four bytes, and the theorems at them.
use kmod_ceph.Base.{ℕ, ◌+◌, ◌≡◌, refl, inl, true, false, some, List, [], ◌∷◌, arith, length}
use kmod_ceph.Crush.Outcome.{ok}
use kmod_ceph.Pagelist.{
  Page, Status, PageList, pagelist_append, pagelist_set_cursor, pagelist_truncate,
}
use kmod_ceph.Pagelist.Contents.{IsValid, Appended, pagelist_append-Appended}
use kmod_ceph.Pagelist.Truncate.{pagelist_truncate-length}

abbrev blank : Page
blank = 0 ∷ 0 ∷ 0 ∷ 0 ∷ []

abbrev empty_list : PageList
empty_list = record {
  address = 7;
  head = [];
  mapped = false;
  length = 0;
  room = 0;
  free_list = [];
  num_pages_free = 0;
  supply = blank ∷ blank ∷ blank ∷ [];
}

abbrev six_bytes : List ℕ
six_bytes = 1 ∷ 2 ∷ 3 ∷ 4 ∷ 5 ∷ 6 ∷ []

abbrev with_six : PageList
with_six = record empty_list {
  head = (5 ∷ 6 ∷ 0 ∷ 0 ∷ []) ∷ (1 ∷ 2 ∷ 3 ∷ 4 ∷ []) ∷ [];
  mapped = true;
  length = 6;
  room = 2;
  supply = blank ∷ [];
}

empty_list-IsValid : IsValid 2 empty_list
empty_list-IsValid = record {
  sizes = tt;
  fill = omega arith;
  room_le = omega arith;
  tail = inl refl;
  spare = refl;
  spare_sizes = tt;
  supply_sizes = (refl, (refl, (refl, tt)));
}

pagelist_append-Appended_example :
    (r : Status × PageList) × (pagelist_append 2 empty_list six_bytes ≡ ok r)
    × Appended 2 empty_list six_bytes r
pagelist_append-Appended_example =
    pagelist_append-Appended 2 empty_list six_bytes empty_list-IsValid

pagelist_truncate-length_example :
    (pl' : PageList) × (pagelist_truncate with_six (pagelist_set_cursor empty_list) ≡ ok (some pl'))
    × (length pl'.head ≡ 0)
    × (pl'.room ≡ 0)
    × (pl'.num_pages_free + 0 ≡ 2)
    × (pl'.length ≡ 6)
    × ¬ IsValid 2 pl'
pagelist_truncate-length_example =
    pagelist_truncate-length 2 empty_list with_six empty_list-IsValid refl (omega arith)
      (omega arith)
