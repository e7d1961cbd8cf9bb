-- ===== src/Osd/Acting/Members.antt =====
-- What every step of `ceph_calc_pg_acting` keeps, and the answer that it leads to.
use kmod_ceph.Base.{
  ℕ, zero, suc, ◌+◌, ◌≤◌, ◌<◌, ◌≡◌, refl, sym, ap, ◌∙◌, ◌⊎◌, inl, inr, true, false, none, some,
  List, [], ◌∷◌, ◌++◌, arith, ◌==◌, Bool-cases, Option-cases, length, get_elem?, All, length-append,
  All-append, All-map,
}
use kmod_ceph.Base.Int.{ℤ, pos, negsuc}
use kmod_ceph.Crush.Outcome.{ok}
use kmod_ceph.Crush.Indep.{item_none}
use kmod_ceph.Crush.State.{int_eq}
use kmod_ceph.Crush.State.Runs.{int_eq-true}
use kmod_ceph.Osd.Trees.{Pg, pgid_cmp, lookup}
use kmod_ceph.Osd.Acting.{
  Pool, OsdMap, Found, skip, fallback, taken, max_osd, osd_exists, osd_is_up, osd_is_down, judge,
  raw_to_up_osds, apply_primary_affinity, apply_pg_temp,
}
use kmod_ceph.Osd.Acting.UpSet.{ups, marked, first_up, raw_to_up_osds-UpFound}
use kmod_ceph.Osd.Acting.Pick.{IsKnown}
use kmod_ceph.Osd.Acting.Affinity.{IsKind, IsChosen, reordered, apply_primary_affinity-Affine}
use kmod_ceph.Osd.Acting.Temps.{seen, first_of, apply_pg_temp-Seen}

-- An osd of the set: it is up, or it is the hole of a pool of erasure codes.
abbrev pub IsMember : OsdMap → Pool → ℤ → Type 0
IsMember m pool o = (osd_is_down m o ≡ false) ⊎ (pool.type ≡ 3) × (o ≡ item_none)

-- The primary is a member that is up, or -1 where there are only holes.
abbrev pub Leads : OsdMap → List ℤ → ℤ → Type 0
Leads m xs p =
    ((a : List ℤ) × (b : List ℤ) × (xs ≡ a ++ p ∷ b) × (osd_is_down m p ≡ false))
    ⊎ (p ≡ negsuc 0) × All (λ o. o ≡ item_none) xs

-- What the steps leave: the osds `xs` at the front of an array of n places.
pub record IsActing (m : OsdMap) (pool : Pool) (n : ℕ) (f : Found) : Type 0 where
  pub xs : List ℤ
  pub rest : List ℤ
  pub parts : f.osds ≡ xs ++ rest
  pub count : f.len ≡ length xs
  pub places : length f.osds ≡ n
  pub members : All (IsMember m pool) xs
  pub leads : Leads m xs f.primary

ups-Member : (m : OsdMap) (pool : Pool) (raw : List ℤ) → All (IsMember m pool) (ups m raw)
ups-Member m pool [] = tt
ups-Member m pool (o ∷ raw) = elim (Bool-cases (osd_is_down m o)) [
  | inl down ↦ rw down (ups-Member m pool raw)
  | inr up ↦ rw up (inl up, ups-Member m pool raw)
]

marked-Member :
    (m : OsdMap) (pool : Pool) (raw : List ℤ) → pool.type ≡ 3 → All (IsMember m pool) (marked m raw)
marked-Member m pool [] ec = tt
marked-Member m pool (o ∷ raw) ec = elim (Bool-cases (osd_is_down m o)) [
  | inl down ↦ rw down (inr (ec, refl), marked-Member m pool raw ec)
  | inr up ↦ rw up (inl up, marked-Member m pool raw ec)
]

Leads-skip : (m : OsdMap) (xs : List ℤ) (p : ℤ) → Leads m xs p → Leads m (item_none ∷ xs) p
Leads-skip m xs p (inl (a, b, e, up)) =
    inl (item_none ∷ a, b, ap (λ (t : List ℤ). item_none ∷ t) e, up)
Leads-skip m xs p (inr (e, holes)) = inr (e, (refl, holes))

ups-Leads : (m : OsdMap) (raw : List ℤ) → Leads m (ups m raw) (first_up m raw (negsuc 0))
ups-Leads m [] = inr (refl, tt)
ups-Leads m (o ∷ raw) = elim (Bool-cases (osd_is_down m o)) [
  | inl down ↦ rw down (ups-Leads m raw)
  | inr up ↦ rw up (inl ([], ups m raw, refl, up))
]

marked-Leads : (m : OsdMap) (raw : List ℤ) → Leads m (marked m raw) (first_up m raw (negsuc 0))
marked-Leads m [] = inr (refl, tt)
marked-Leads m (o ∷ raw) = elim (Bool-cases (osd_is_down m o)) [
  | inl down ↦
      rw down (Leads-skip m (marked m raw) (first_up m raw (negsuc 0)) (marked-Leads m raw))
  | inr up ↦ rw up (inl ([], marked m raw, refl, up))
]

length-marked : (m : OsdMap) (raw : List ℤ) → length (marked m raw) ≡ length raw
length-marked m [] = refl
length-marked m (o ∷ raw) = ap suc (length-marked m raw)

get_elem?-inside : (xs : List ℕ) (n v : ℕ) → get_elem? xs n ≡ some v → n < length xs
get_elem?-inside [] n v e = absurd (cc)
get_elem?-inside (x ∷ xs) zero v e = omega arith
get_elem?-inside (x ∷ xs) (suc n) v e = let h = get_elem?-inside xs n v e in omega arith

-- `raw_to_up_osds` answers, and what it leaves is in order.
pub up-IsActing :
    (m : OsdMap) (pool : Pool) (raw rest : List ℤ)
    → IsKind pool
    → (f : Found) × (raw_to_up_osds m pool (raw ++ rest) (length raw) ≡ ok f)
      × IsActing m pool (length raw + length rest) f
up-IsActing m pool raw rest kind = elim (raw_to_up_osds-UpFound m pool raw rest) [
  | inl (rep, gap, size, run) ↦
      let len = length-append (ups m raw) (gap ++ rest) in
      let len' = length-append gap rest in
      (
        _,
        run,
        record {
          xs = ups m raw;
          rest = gap ++ rest;
          parts = refl;
          count = refl;
          places = omega arith;
          members = ups-Member m pool raw;
          leads = ups-Leads m raw;
        },
      )
  | inr (inl (ec, run)) ↦
      let len = length-append (marked m raw) rest in
      let len' = length-marked m raw in
      (
        _,
        run,
        record {
          xs = marked m raw;
          rest = rest;
          parts = refl;
          count = sym len';
          places = omega arith;
          members = marked-Member m pool raw ec;
          leads = marked-Leads m raw;
        },
      )
  | inr (inr (h1, h3, run)) ↦ elim kind [ inl e ↦ absurd (h1 e) | inr e ↦ absurd (h3 e) ]
]

outside-missing :
    (m : OsdMap) (n : ℕ) → get_elem? m.osd_state n ≡ none → osd_exists m (pos n) ≡ false
unfolding osd_exists
outside-missing m n e = rw (e, osd_exists) refl

negative-missing : (m : OsdMap) (n : ℕ) → osd_exists m (negsuc n) ≡ false
unfolding osd_exists
negative-missing m n = refl

-- An osd that is up has a place in the arrays of the map.
up-inside : (m : OsdMap) (o : ℤ) → osd_is_down m o ≡ false → (n : ℕ) × (o ≡ pos n) × (n < max_osd m)
unfolding osd_is_down osd_is_up
up-inside m (negsuc n) up = let no : true ≡ false = rw (negative-missing m n) at up in absurd (cc)
up-inside m (pos n) up = elim (Option-cases (get_elem? m.osd_state n)) [
  | inl e ↦ let no : true ≡ false = rw (outside-missing m n e) at up in absurd (cc)
  | inr (v, e) ↦ (n, refl, get_elem?-inside m.osd_state n v e)
]

member-IsKnown :
    (m : OsdMap) (pool : Pool) (affinity : List ℕ) (xs : List ℤ)
    → length affinity ≡ max_osd m
    → All (IsMember m pool) xs
    → All (IsKnown affinity) xs
member-IsKnown m pool affinity xs size h = All-map (IsMember m pool) (IsKnown affinity) xs known h
  where
    known : (o : ℤ) → IsMember m pool o → IsKnown affinity o
    known o (inl up) = let (n, e, inside) = up-inside m o up in inr (n, e, omega arith)
    known o (inr (ec, hole)) = inl hole

found-parts :
    (f : Found) (xs rest : List ℤ)
    → f.osds ≡ xs ++ rest
    → f.len ≡ length xs
    → f ≡ record { osds = xs ++ rest; len = length xs; primary = f.primary }
found-parts f xs rest e e' =
    ap (λ (t : List ℤ). record { osds = t; len = f.len; primary = f.primary }) e
    ∙ ap (λ (k : ℕ). record { osds = xs ++ rest; len = k; primary = f.primary }) e'

All-split {ℓ κ} :
    {A : Type ℓ} (P : A → Type κ) (a : List A) (p : A) (b : List A)
    → All P (a ++ p ∷ b)
    → All P a × P p × All P b
All-split P [] p b h = (tt, h.0, h.1)
All-split P (x ∷ a) p b h = let (ha, hp, hb) = All-split P a p b h.1 in ((h.0, ha), hp, hb)

reordered-Member :
    (m : OsdMap) (pool : Pool) (a : List ℤ) (p : ℤ) (b : List ℤ)
    → All (IsMember m pool) (a ++ p ∷ b)
    → All (IsMember m pool) (reordered pool a p b)
reordered-Member m pool a p b h = elim (Bool-cases (pool.type == 1)) [
  | inl rep ↦
      let (ha, hp, hb) = All-split (IsMember m pool) a p b h in
      rw rep (hp, All-append (IsMember m pool) a b ha hb)
  | inr ec ↦ rw ec h
]

reordered-length :
    (pool : Pool) (a : List ℤ) (p : ℤ) (b : List ℤ)
    → length (reordered pool a p b) ≡ length (a ++ p ∷ b)
reordered-length pool a p b =
    let size = length-append a b in
    let size' = length-append a (p ∷ b) in
    elim (Bool-cases (pool.type == 1)) [ inl rep ↦ rw rep (omega arith) | inr ec ↦ rw ec refl ]

reordered-Leads :
    (m : OsdMap) (pool : Pool) (a : List ℤ) (p : ℤ) (b : List ℤ)
    → osd_is_down m p ≡ false
    → Leads m (reordered pool a p b) p
reordered-Leads m pool a p b up = elim (Bool-cases (pool.type == 1)) [
  | inl rep ↦ rw rep (inl ([], a ++ b, refl, up))
  | inr ec ↦ rw ec (inl (a, b, refl, up))
]

chosen-up :
    (m : OsdMap) (pool : Pool) (affinity : List ℕ) (pps : ℕ) (a : List ℤ) (p : ℤ) (b : List ℤ)
    → IsChosen affinity pps a p b
    → IsMember m pool p
    → osd_is_down m p ≡ false
unfolding judge
chosen-up m pool affinity pps a p b chosen (inl up) = up
chosen-up m pool affinity pps a p b (inl (passed, e)) (inr (ec, hole)) =
    let no : ok skip ≡ ok taken = rw hole at e in absurd (cc)
chosen-up m pool affinity pps a p b (inr (skipped, e, passed)) (inr (ec, hole)) =
    let no : ok skip ≡ ok fallback = rw hole at e in absurd (cc)

-- The affinities are those of the osds of the map.
abbrev pub HasAffinities : OsdMap → Type 0
HasAffinities m =
    (m.osd_primary_affinity ≡ none)
    ⊎ ((affinity : List ℕ) × (m.osd_primary_affinity ≡ some affinity)
        × (length affinity ≡ max_osd m))

-- `apply_primary_affinity` answers, and what it leaves is in order.
pub affinity-IsActing :
    (m : OsdMap) (pps : ℕ) (pool : Pool) (n : ℕ) (f : Found)
    → IsKind pool
    → HasAffinities m
    → IsActing m pool n f
    → (f' : Found) × (apply_primary_affinity m pps pool f ≡ ok f') × IsActing m pool n f'
unfolding apply_primary_affinity
affinity-IsActing m pps pool n f kind (inl e) h = (f, rw e refl, h)
affinity-IsActing m pps pool n f kind (inr (affinity, has, size)) h =
    let shape = found-parts f h.xs h.rest h.parts h.count in
    let at = ap (λ (g : Found). apply_primary_affinity m pps pool g) shape in
    let known = member-IsKnown m pool affinity h.xs size h.members in
    elim (apply_primary_affinity-Affine m pps pool affinity h.xs h.rest f.primary has kind known) [
      | inl (same, run) ↦ (f, at ∙ run ∙ ap ok (sym shape), h)
      | inr (odd, (a, p, b, e, chosen, run)) ↦
          let members : All (IsMember m pool) (a ++ p ∷ b) = rw e at h.members in
          let (ha, hp, hb) = All-split (IsMember m pool) a p b members in
          let up = chosen-up m pool affinity pps a p b chosen hp in
          let len = reordered-length pool a p b ∙ ap length (sym e) in
          let len' = length-append (reordered pool a p b) h.rest in
          let len'' = length-append h.xs h.rest in
          let old = ap length h.parts in
          let places = h.places in
          (
            _,
            at ∙ run,
            record {
              xs = reordered pool a p b;
              rest = h.rest;
              parts = refl;
              count = sym len;
              places = omega arith;
              members = reordered-Member m pool a p b members;
              leads = reordered-Leads m pool a p b up;
            },
          )
    ]

first_of-Leads :
    (m : OsdMap) (pool : Pool) (xs : List ℤ) → All (IsMember m pool) xs → Leads m xs (first_of xs)
first_of-Leads m pool [] h = inr (refl, tt)
first_of-Leads m pool (o ∷ xs) h = elim (Bool-cases (int_eq o item_none)) [
  | inl hole ↦
      let e = int_eq-true o item_none hole in
      rw (hole, e) (Leads-skip m xs (first_of xs) (first_of-Leads m pool xs h.1))
  | inr osd ↦ elim h.0 [
    | inl up ↦ rw osd (inl ([], xs, refl, up))
    | inr (ec, e) ↦ let no : true ≡ false = rw e at osd in absurd (cc)
  ]
]

seen-Member :
    (m : OsdMap) (pool : Pool) (temps : List ℤ)
    → IsKind pool
    → All (IsMember m pool) (seen m pool temps)
seen-Member m pool temps (inl rep) =
    let is_rep : (pool.type == 1) ≡ true = ground arith in rw is_rep (ups-Member m pool temps)
seen-Member m pool temps (inr ec) =
    let not_rep : (pool.type == 1) ≡ false = ground arith in
    rw not_rep (marked-Member m pool temps ec)

-- No mapping of pg_temp has more osds than the array has places.
abbrev pub FitsTemps : OsdMap → ℕ → Type 0
FitsTemps m n =
    (pg : Pg) (temps : List ℤ) → lookup pgid_cmp m.pg_temp pg ≡ some temps → length temps ≤ n

pub pg_temp-IsActing :
    (m : OsdMap) (pool : Pool) (n : ℕ) (f : Found) (pg : Pg)
    → IsKind pool
    → FitsTemps m n
    → IsActing m pool n f
    → (f' : Found) × (apply_pg_temp m pool f (lookup pgid_cmp m.pg_temp pg) ≡ ok f')
      × IsActing m pool n f'
unfolding apply_pg_temp
pg_temp-IsActing m pool n f pg kind fits h = elim (Option-cases (lookup pgid_cmp m.pg_temp pg)) [
  | inl e ↦ (f, rw e refl, h)
  | inr (temps, e) ↦
      let room = fits pg temps e in
      let places = h.places in
      let (rest, run, len) = apply_pg_temp-Seen m pool f temps kind (omega arith) in
      let size = length-append (seen m pool temps) rest in
      let members = seen-Member m pool temps kind in
      (
        _,
        rw e run,
        record {
          xs = seen m pool temps;
          rest = rest;
          parts = refl;
          count = refl;
          places = omega arith;
          members = members;
          leads = first_of-Leads m pool (seen m pool temps) members;
        },
      )
]
