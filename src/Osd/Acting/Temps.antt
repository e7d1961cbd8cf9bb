-- ===== src/Osd/Acting/Temps.antt =====
-- `apply_temps` of net/ceph/osdmap.c.
use kmod_ceph.Base.{
  ℕ, ◌+◌, ◌≤◌, ◌<◌, ◌≡◌, refl, sym, ap, ◌∙◌, inl, inr, true, false, some, List, [], ◌∷◌, ◌++◌,
  arith, ◌==◌, if◌then◌else◌, Bool-cases, length, length-append,
}
use mathlib.Core.List.{append_assoc, append-nil}
use kmod_ceph.Base.Int.{ℤ, negsuc}
use kmod_ceph.Crush.Outcome.{ok}
use kmod_ceph.Crush.Indep.{item_none}
use kmod_ceph.Crush.State.{int_eq}
use kmod_ceph.Osd.Acting.{
  Pool, OsdMap, Found, osd_is_down, can_shift_osds, temp_one, temp_loop, first_osd, apply_pg_temp,
}
use kmod_ceph.Osd.Acting.UpSet.{ups, marked, load-past, store-past}
use kmod_ceph.Osd.Acting.Affinity.{IsKind}

-- The osds of a mapping that count, by the type of the pool.
abbrev pub seen : OsdMap → Pool → List ℤ → List ℤ
seen m pool temps = if pool.type == 1 then ups m temps else marked m temps

-- The first osd that is not CRUSH_ITEM_NONE, or -1.
abbrev pub first_of : List ℤ → ℤ
first_of [] = negsuc 0
first_of (o ∷ os) = if int_eq o item_none then first_of os else o

first_osd_lem :
    (xs pre rest : List ℤ) (i : ℕ) (arr : List ℤ)
    → i ≡ length pre
    → arr ≡ pre ++ (xs ++ rest)
    → first_osd arr (length xs) i ≡ ok (first_of xs)
unfolding first_osd
first_osd_lem [] pre rest i arr ei ea = refl
first_osd_lem (o ∷ xs) pre rest i arr ei ea =
    let read = load-past pre o (xs ++ rest) i arr ei ea in
    let size = length-append pre (o ∷ []) in
    let more =
      first_osd_lem xs (pre ++ o ∷ []) rest (i + 1) arr (omega arith)
        (ea ∙ sym (append_assoc pre (o ∷ []) (xs ++ rest))) in
    elim (Bool-cases (int_eq o item_none)) [
      | inl hole ↦ rw (read, hole, more) refl
      | inr osd ↦ rw (read, osd) refl
    ]

ec_of : (pool : Pool) → IsKind pool → (pool.type == 1) ≡ false → (pool.type == 3) ≡ true
ec_of pool (inl rep) h = absurd (ground arith)
ec_of pool (inr ec) h = ground arith

-- One osd is written after those done, or skipped.
temp_one_lem :
    (m : OsdMap) (pool : Pool) (o : ℤ) (done cells : List ℤ) (arr : List ℤ)
    → IsKind pool
    → 0 < length cells
    → arr ≡ done ++ cells
    → (cells' : List ℤ) × (temp_one m pool arr (length done) o
        ≡ ok ((done ++ seen m pool (o ∷ [])) ++ cells', length (done ++ seen m pool (o ∷ []))))
      × (length cells ≤ length cells' + 1)
      × (length cells' + length (seen m pool (o ∷ [])) ≡ length cells)
unfolding temp_one can_shift_osds
temp_one_lem m pool o done [] arr kind some_cell ea = absurd (omega arith)
temp_one_lem m pool o done (c ∷ cells) arr kind some_cell ea =
    let write = store-past done c o cells (length done) arr refl ea in
    let hole = store-past done c item_none cells (length done) arr refl ea in
    let size = length-append done (o ∷ []) in
    let size' = length-append done (item_none ∷ []) in
    let e : length done + 1 ≡ length (done ++ o ∷ []) = omega arith in
    let e' : length done + 1 ≡ length (done ++ item_none ∷ []) = omega arith in
    elim (Bool-cases (pool.type == 1)) [
      | inl rep ↦ elim (Bool-cases (osd_is_down m o)) [
        | inl down ↦ (
          c ∷ cells,
          rw (rep, down, append-nil done, ea) refl,
          omega arith,
          rw (rep, down) (omega arith),
        )
        | inr up ↦ (
          cells,
          rw (rep, up, write, e, append_assoc done (o ∷ []) cells) refl,
          omega arith,
          rw (rep, up) (omega arith),
        )
      ]
      | inr not_rep ↦
          let is_ec : (pool.type == 3) ≡ true = ec_of pool kind not_rep in
          elim (Bool-cases (osd_is_down m o)) [
            | inl down ↦ (
              cells,
              rw (not_rep, is_ec, down, hole, e', append_assoc done (item_none ∷ []) cells) refl,
              omega arith,
              rw not_rep (omega arith),
            )
            | inr up ↦ (
              cells,
              rw (not_rep, up, write, e, append_assoc done (o ∷ []) cells) refl,
              omega arith,
              rw not_rep (omega arith),
            )
          ]
    ]

seen-cons :
    (m : OsdMap) (pool : Pool) (o : ℤ) (temps : List ℤ)
    → seen m pool (o ∷ temps) ≡ seen m pool (o ∷ []) ++ seen m pool temps
seen-cons m pool o temps = elim (Bool-cases (pool.type == 1)) [
  | inl rep ↦ elim (Bool-cases (osd_is_down m o)) [
    | inl down ↦ rw (rep, down) refl
    | inr up ↦ rw (rep, up) refl
  ]
  | inr not_rep ↦ rw not_rep refl
]

temp_loop_lem :
    (m : OsdMap) (pool : Pool) (temps done cells : List ℤ) (arr : List ℤ)
    → IsKind pool
    → length temps ≤ length cells
    → arr ≡ done ++ cells
    → (cells' : List ℤ) × (temp_loop m pool temps arr (length done)
        ≡ ok (done ++ (seen m pool temps ++ cells'), length done + length (seen m pool temps)))
      × (length cells' + length (seen m pool temps) ≡ length cells)
unfolding temp_loop
temp_loop_lem m pool [] done cells arr kind room ea = elim (Bool-cases (pool.type == 1)) [
  | inl rep ↦
      let e : length done + 0 ≡ length done = omega arith in
      (cells, rw (rep, ea, e) refl, rw rep (omega arith))
  | inr ec ↦
      let e : length done + 0 ≡ length done = omega arith in
      (cells, rw (ec, ea, e) refl, rw ec (omega arith))
]
temp_loop_lem m pool (o ∷ temps) done cells arr kind room ea =
    let (cells1, one, room1, len1) = temp_one_lem m pool o done cells arr kind (omega arith) ea in
    let head = seen m pool (o ∷ []) in
    let (cells', run, len') =
      temp_loop_lem m pool temps (done ++ head) cells1 ((done ++ head) ++ cells1) kind (omega arith)
        refl in
    let split = seen-cons m pool o temps in
    let size = length-append head (seen m pool temps) in
    let size' = length-append done head in
    let total : length done + length (head ++ seen m pool temps)
        ≡ length (done ++ head) + length (seen m pool temps) =
      omega arith in
    (
      cells',
      rw (one, split, total)
          (run
            ∙ ap (λ (t : List ℤ). ok (t, length (done ++ head) + length (seen m pool temps)))
                (append_assoc done head (seen m pool temps ++ cells')
                  ∙ ap (λ (t : List ℤ). done ++ t)
                      (sym (append_assoc head (seen m pool temps) cells')))),
      rw split (omega arith),
    )

-- The osds of a mapping of pg_temp take the place of those found: in a pool of replicas those that
-- are up, else all, with CRUSH_ITEM_NONE for those that are down; the first is the primary.
pub apply_pg_temp-Seen :
    (m : OsdMap) (pool : Pool) (f : Found) (temps : List ℤ)
    → IsKind pool
    → length temps ≤ length f.osds
    → (rest : List ℤ) × (apply_pg_temp m pool f (some temps)
        ≡ ok (record {
          osds = seen m pool temps ++ rest;
          len = length (seen m pool temps);
          primary = first_of (seen m pool temps);
        }))
      × (length rest + length (seen m pool temps) ≡ length f.osds)
unfolding apply_pg_temp
apply_pg_temp-Seen m pool f temps kind room =
    let (rest, run, len) = temp_loop_lem m pool temps [] f.osds f.osds kind room refl in
    let first = first_osd_lem (seen m pool temps) [] rest 0 (seen m pool temps ++ rest) refl refl in
    let count : 0 + length (seen m pool temps) ≡ length (seen m pool temps) = omega arith in
    let run' : temp_loop m pool temps f.osds 0
        ≡ ok (seen m pool temps ++ rest, length (seen m pool temps)) =
      run ∙ ap (λ (n : ℕ). ok (seen m pool temps ++ rest, n)) count in
    (rest, rw (run', first) refl, len)
