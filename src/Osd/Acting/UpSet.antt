-- ===== src/Osd/Acting/UpSet.antt =====
-- `raw_to_up_osds` of net/ceph/osdmap.c against its description on lists.
use kmod_ceph.Base.{
  ℕ, zero, suc, ◌+◌, ◌-◌, ◌≡◌, refl, sym, subst, ap, ◌∙◌, ◌≢◌, ◌⊎◌, inl, inr, true, false, List, [],
  ◌∷◌, ◌++◌, arith, ltb, ◌==◌, if◌then◌else◌, Bool-cases, length, set, length-append,
}
use mathlib.Core.List.{append_assoc}
use kmod_ceph.Base.Int.{ℤ, negsuc}
use kmod_ceph.Crush.Outcome.{ok, fault, load, store}
use kmod_ceph.Crush.Indep.{item_none}
use kmod_ceph.Osd.Acting.{
  Pool, OsdMap, osd_is_down, can_shift_osds, shift_one, shift_loop, mark_one, mark_loop, shifted,
  raw_to_up_by, raw_to_up_osds,
}

-- The osds that are up, in order.
abbrev pub ups : OsdMap → List ℤ → List ℤ
ups m [] = []
ups m (osd ∷ osds) = if osd_is_down m osd then ups m osds else osd ∷ ups m osds

-- The osds with CRUSH_ITEM_NONE in place of those that are down.
abbrev pub marked : OsdMap → List ℤ → List ℤ
marked m [] = []
marked m (osd ∷ osds) = (if osd_is_down m osd then item_none else osd) ∷ marked m osds

-- The first osd that is up, or `other`.
abbrev pub first_up : OsdMap → List ℤ → ℤ → ℤ
first_up m [] other = other
first_up m (osd ∷ osds) other = if osd_is_down m osd then first_up m osds other else osd

pub load-at {ℓ} :
    {A : Type ℓ} (xs : List A) (v : A) (ys : List A) → load (xs ++ v ∷ ys) (length xs) ≡ ok v
unfolding load
load-at [] v ys = refl
load-at (x ∷ xs) v ys = load-at xs v ys

pub set-at {ℓ} :
    {A : Type ℓ} (xs : List A) (u v : A) (ys : List A)
    → set (xs ++ u ∷ ys) (length xs) v ≡ xs ++ v ∷ ys
set-at [] u v ys = refl
set-at (x ∷ xs) u v ys = ap (λ t. x ∷ t) (set-at xs u v ys)

pub store-at {ℓ} :
    {A : Type ℓ} (xs : List A) (u v : A) (ys : List A)
    → store (xs ++ u ∷ ys) (length xs) v ≡ ok (xs ++ v ∷ ys)
unfolding store
store-at xs u v ys =
    let e = length-append xs (u ∷ ys) in
    let inside : ltb (length xs) (length (xs ++ u ∷ ys)) ≡ true = ground arith in
    rw inside (ap ok (set-at xs u v ys))

pub load-past {ℓ} :
    {A : Type ℓ} (xs : List A) (v : A) (ys : List A) (i : ℕ) (arr : List A)
    → i ≡ length xs
    → arr ≡ xs ++ v ∷ ys
    → load arr i ≡ ok v
load-past xs v ys i arr ei ea = rw (ei, ea) (load-at xs v ys)

pub store-past {ℓ} :
    {A : Type ℓ} (xs : List A) (u v : A) (ys : List A) (i : ℕ) (arr : List A)
    → i ≡ length xs
    → arr ≡ xs ++ u ∷ ys
    → store arr i v ≡ ok (xs ++ v ∷ ys)
store-past xs u v ys i arr ei ea = rw (ei, ea) (store-at xs u v ys)

shift_one-down :
    (m : OsdMap) (i removed : ℕ) (arr : List ℤ) (o : ℤ)
    → osd_is_down m o ≡ true
    → shift_one m i removed arr o ≡ ok (removed + 1, arr)
unfolding shift_one
shift_one-down m i removed arr o down = rw down refl

-- An osd that is up goes to the end of those kept; the gap moves on by one place.
shift_one-up :
    (m : OsdMap) (o : ℤ) (kept gap tail : List ℤ) (i : ℕ) (arr : List ℤ)
    → osd_is_down m o ≡ false
    → i ≡ length kept + length gap
    → arr ≡ kept ++ (gap ++ o ∷ tail)
    → (gap' : List ℤ) × (shift_one m i (length gap) arr o
        ≡ ok (length gap, kept ++ o ∷ (gap' ++ tail)))
      × (length gap' ≡ length gap)
unfolding shift_one
shift_one-up m o kept [] tail i arr up ei ea = ([], rw (up, ea) refl, refl)
shift_one-up m o kept (g ∷ gap) tail i arr up ei ea =
    let at : i - suc (length gap) ≡ length kept = omega arith in
    let run = store-past kept g o (gap ++ o ∷ tail) (i - suc (length gap)) arr at ea in
    let size = length-append gap (o ∷ []) in
    let removed : (length (g ∷ gap) == 0) ≡ false = ground arith in
    (
      gap ++ o ∷ [],
      rw (up, removed, run)
          (ap (λ (t : List ℤ). ok (suc (length gap), kept ++ o ∷ t))
            (sym (append_assoc gap (o ∷ []) tail))),
      omega arith,
    )

-- The loop keeps the osds that are up, in order.
shift_loop_lem :
    (m : OsdMap) (todo kept gap rest : List ℤ) (i : ℕ) (arr : List ℤ)
    → i ≡ length kept + length gap
    → arr ≡ kept ++ (gap ++ (todo ++ rest))
    → (gap' : List ℤ) × (shift_loop m (length todo) i (length gap) arr
        ≡ ok (length gap', kept ++ (ups m todo ++ (gap' ++ rest))))
      × (length gap' + length (ups m todo) ≡ length gap + length todo)
unfolding shift_loop
shift_loop_lem m [] kept gap rest i arr ei ea = (gap, rw ea refl, omega arith)
shift_loop_lem m (o ∷ todo) kept gap rest i arr ei ea =
    let size = length-append kept gap in
    let read =
      load-past (kept ++ gap) o (todo ++ rest) i arr (omega arith)
        (ea ∙ sym (append_assoc kept gap (o ∷ (todo ++ rest)))) in
    elim (Bool-cases (osd_is_down m o)) [
      | inl down ↦
          let size' = length-append gap (o ∷ []) in
          let (gap', run, len) =
            shift_loop_lem m todo kept (gap ++ o ∷ []) rest (i + 1) arr (omega arith) (
              ea
              ∙ ap (λ (t : List ℤ). kept ++ t) (sym (append_assoc gap (o ∷ []) (todo ++ rest)))) in
          let e : length gap + 1 ≡ length (gap ++ o ∷ []) = omega arith in
          (
            gap',
            rw (read, shift_one-down m i (length gap) arr o down, down, e) run,
            rw down (omega arith),
          )
      | inr up ↦
          let (gap1, one, len1) = shift_one-up m o kept gap (todo ++ rest) i arr up ei ea in
          let size' = length-append kept (o ∷ []) in
          let (gap', run, len) =
            shift_loop_lem m todo (kept ++ o ∷ []) gap1 rest (i + 1)
              (kept ++ o ∷ (gap1 ++ (todo ++ rest))) (omega arith)
              (sym (append_assoc kept (o ∷ []) (gap1 ++ (todo ++ rest)))) in
          (
            gap',
            rw (read, one, up)
                (subst
                  (λ (n : ℕ).
                    shift_loop m (length todo) (i + 1) n (kept ++ o ∷ (gap1 ++ (todo ++ rest)))
                    ≡ ok (length gap', kept ++ o ∷ (ups m todo ++ (gap' ++ rest))))
                  len1
                  (run
                    ∙ ap (λ (t : List ℤ). ok (length gap', t))
                        (append_assoc kept (o ∷ []) (ups m todo ++ (gap' ++ rest))))),
            rw up (omega arith),
          )
    ]

pub snoc-cases :
    (n : ℕ) (xs : List ℤ)
    → length xs ≡ suc n
    → (ys : List ℤ) × (y : ℤ) × (xs ≡ ys ++ y ∷ []) × (length ys ≡ n)
snoc-cases n [] h = absurd (omega arith)
snoc-cases n (x ∷ []) h = ([], x, refl, omega arith)
snoc-cases zero (x ∷ x' ∷ xs) h = absurd (omega arith)
snoc-cases (suc n) (x ∷ x' ∷ xs) h =
    let (ys, y, e, len) = snoc-cases n (x' ∷ xs) (omega arith) in
    (x ∷ ys, y, ap (λ (t : List ℤ). x ∷ t) e, omega arith)

marked-snoc :
    (m : OsdMap) (ys : List ℤ) (y : ℤ) (done : List ℤ)
    → marked m (ys ++ y ∷ []) ++ done
      ≡ marked m ys ++ (if osd_is_down m y then item_none else y) ∷ done
marked-snoc m [] y done = refl
marked-snoc m (x ∷ ys) y done =
    ap (λ (t : List ℤ). (if osd_is_down m x then item_none else x) ∷ t) (marked-snoc m ys y done)

first_up-snoc :
    (m : OsdMap) (ys : List ℤ) (y p : ℤ)
    → first_up m (ys ++ y ∷ []) p ≡ first_up m ys (if osd_is_down m y then p else y)
first_up-snoc m [] y p = refl
first_up-snoc m (x ∷ ys) y p = rw (first_up-snoc m ys y p) refl

mark_loop_lem :
    (m : OsdMap) (n : ℕ) (xs done : List ℤ) (p : ℤ) (arr : List ℤ)
    → length xs ≡ n
    → arr ≡ xs ++ done
    → mark_loop m n arr p ≡ ok (marked m xs ++ done, first_up m xs p)
unfolding mark_loop mark_one
mark_loop_lem m zero [] done p arr len ea = rw ea refl
mark_loop_lem m zero (x ∷ xs) done p arr len ea = absurd (omega arith)
mark_loop_lem m (suc n) xs done p arr len ea =
    let (ys, y, e, len') = snoc-cases n xs len in
    let ea' : arr ≡ ys ++ y ∷ done =
      ea ∙ ap (λ (t : List ℤ). t ++ done) e ∙ append_assoc ys (y ∷ []) done in
    let read = load-past ys y done n arr (sym len') ea' in
    let write = store-past ys y item_none done n arr (sym len') ea' in
    let marks = marked-snoc m ys y done in
    let first = first_up-snoc m ys y p in
    elim (Bool-cases (osd_is_down m y)) [
      | inl down ↦
          rw (read, down, write, e, marks, first, down)
            (mark_loop_lem m n ys (item_none ∷ done) p (ys ++ item_none ∷ done) len' refl)
      | inr up ↦ rw (read, up, e, marks, first, up) (mark_loop_lem m n ys (y ∷ done) y arr len' ea')
    ]

abbrev head_or : List ℤ → ℤ → ℤ
head_or [] other = other
head_or (o ∷ os) other = o

first_up-head_or : (m : OsdMap) (raw : List ℤ) (q : ℤ) → first_up m raw q ≡ head_or (ups m raw) q
first_up-head_or m [] q = refl
first_up-head_or m (o ∷ raw) q = elim (Bool-cases (osd_is_down m o)) [
  | inl down ↦ rw (down, first_up-head_or m raw q) refl
  | inr up ↦ rw up refl
]

shifted_lem :
    (us t : List ℤ) (len removed : ℕ)
    → removed + length us ≡ len
    → shifted len removed (us ++ t)
      ≡ ok (record { osds = us ++ t; len = length us; primary = head_or us (negsuc 0) })
unfolding shifted
shifted_lem [] t len removed h = let e : len - removed ≡ 0 = omega arith in rw e refl
shifted_lem (o ∷ us) t len removed h =
    let e : len - removed ≡ length (o ∷ us) = omega arith in
    let more : ltb 0 (length (o ∷ us)) ≡ true = ground arith in
    rw (e, more, load-at [] o (us ++ t)) refl

-- What `raw_to_up_osds` answers for the raw osds, by the type of the pool.
abbrev pub UpFound : OsdMap → Pool → List ℤ → List ℤ → Type 0
UpFound m pool raw rest =
    ((pool.type ≡ 1)
      × (gap : List ℤ) × (length gap + length (ups m raw) ≡ length raw)
      × (raw_to_up_osds m pool (raw ++ rest) (length raw)
          ≡ ok (record {
            osds = ups m raw ++ (gap ++ rest);
            len = length (ups m raw);
            primary = first_up m raw (negsuc 0);
          })))
    ⊎ ((pool.type ≡ 3)
          × (raw_to_up_osds m pool (raw ++ rest) (length raw)
              ≡ ok (record {
                osds = marked m raw ++ rest;
                len = length raw;
                primary = first_up m raw (negsuc 0);
              }))
        ⊎ (pool.type ≢ 1)
          × (pool.type ≢ 3)
          × (raw_to_up_osds m pool (raw ++ rest) (length raw) ≡ fault))

-- A pool of replicas: the osds that are up move to the front, in order, and the first is the
-- primary. A pool of erasure codes: each osd keeps its place, CRUSH_ITEM_NONE stands for those that
-- are down, and the first that is up is the primary. Without one the primary is -1, and for another
-- type of pool the BUG_ON fails. The places after the osds keep what they held.
pub raw_to_up_osds-UpFound :
    (m : OsdMap) (pool : Pool) (raw rest : List ℤ) → UpFound m pool raw rest
unfolding raw_to_up_osds raw_to_up_by can_shift_osds
raw_to_up_osds-UpFound m pool raw rest = elim (Bool-cases (pool.type == 1)) [
  | inl is_rep ↦
      let (gap, run, len) = shift_loop_lem m raw [] [] rest 0 (raw ++ rest) refl refl in
      let size : length gap + length (ups m raw) ≡ length raw = omega (arith, len) in
      inl (
        ground arith,
        gap,
        size,
        rw (is_rep, run, first_up-head_or m raw (negsuc 0))
            (shifted_lem (ups m raw) (gap ++ rest) (length raw) (length gap) size),
      )
  | inr not_rep ↦ inr (elim (Bool-cases (pool.type == 3)) [
    | inl is_ec ↦
        let marks = mark_loop_lem m (length raw) raw rest (negsuc 0) (raw ++ rest) refl refl in
        inl (ground arith, rw (not_rep, is_ec, marks) refl)
    | inr not_ec ↦ inr (λ e. ground arith, λ e. ground arith, rw (not_rep, not_ec) refl)
  ])
]
