-- ===== src/Osd/Acting/Affinity.antt =====
-- `apply_primary_affinity` of net/ceph/osdmap.c.
use kmod_ceph.Base.{
  ℕ, zero, suc, ◌≡◌, refl, sym, ap, ◌∙◌, ◌⊎◌, inl, inr, true, false, Option, none, some, List, [],
  ◌∷◌, ◌++◌, arith, ltb, ◌==◌, if◌then◌else◌, Bool-cases, length, All, length-append,
}
use mathlib.Core.List.{append_assoc}
use kmod_ceph.Base.Int.{ℤ}
use kmod_ceph.Crush.Outcome.{ok}
use kmod_ceph.Osd.Acting.{
  Pool, OsdMap, skip, fallback, taken, can_shift_osds, any_affinity, judge, pick_loop, move_up,
  take_primary, apply_affinity_by, apply_primary_affinity,
}
use kmod_ceph.Osd.Acting.UpSet.{load-past, store-past, snoc-cases, load-at, store-at}
use kmod_ceph.Osd.Acting.Pick.{
  IsKnown, IsDefault, IsPassed, Scanned, HasOdd, HasOdd-judge, any_affinity_lem, pick_loop_lem,
}

-- The places before `p` move up by one; what is left in the first does not matter.
move_up_lem :
    (n : ℕ) (a : List ℤ) (p : ℤ) (t : List ℤ)
    → length a ≡ n
    → (h : ℤ) × (move_up n (a ++ p ∷ t) ≡ ok (h ∷ (a ++ t)))
unfolding move_up
move_up_lem zero [] p t len = (p, refl)
move_up_lem zero (x ∷ a) p t len = absurd (omega arith)
move_up_lem (suc n) a p t len =
    let (ys, y, e, len') = snoc-cases n a len in
    let ea = ap (λ (s : List ℤ). s ++ p ∷ t) e ∙ append_assoc ys (y ∷ []) (p ∷ t) in
    let ea' = ea ∙ sym (append_assoc ys (y ∷ []) (p ∷ t)) in
    let size = length-append ys (y ∷ []) in
    let read = load-past ys y (p ∷ t) n (a ++ p ∷ t) (sym len') ea in
    let write = store-past (ys ++ y ∷ []) p y t (suc n) (a ++ p ∷ t) (omega arith) ea' in
    let shape = append_assoc ys (y ∷ []) (y ∷ t) in
    let (h, run) = move_up_lem n ys y (y ∷ t) len' in
    (
      h,
      rw (read, write, shape) run
          ∙ ap (λ (s : List ℤ). ok (h ∷ s))
              (sym (append_assoc ys (y ∷ []) t) ∙ ap (λ (s : List ℤ). s ++ t) (sym e)),
    )

-- The osds when `p`, after those of `a`, becomes the primary.
abbrev pub reordered : Pool → List ℤ → ℤ → List ℤ → List ℤ
reordered pool a p b = if pool.type == 1 then p ∷ (a ++ b) else a ++ p ∷ b

abbrev pub IsKind : Pool → Type 0
IsKind pool = (pool.type ≡ 1) ⊎ (pool.type ≡ 3)

take_primary-some :
    (pool : Pool) (a : List ℤ) (p : ℤ) (b : List ℤ) (len : ℕ) (primary : ℤ)
    → IsKind pool
    → take_primary pool (a ++ p ∷ b) len primary (some (length a))
      ≡ ok (record { osds = reordered pool a p b; len = len; primary = p })
unfolding take_primary can_shift_osds
take_primary-some pool a p b len primary (inr ec) =
    let not_rep : (pool.type == 1) ≡ false = ground arith in
    let is_ec : (pool.type == 3) ≡ true = ground arith in rw (load-at a p b, not_rep, is_ec) refl
take_primary-some pool [] p b len primary (inl rep) =
    let is_rep : (pool.type == 1) ≡ true = ground arith in rw (load-at [] p b, is_rep) refl
take_primary-some pool (x ∷ a) p b len primary (inl rep) =
    let is_rep : (pool.type == 1) ≡ true = ground arith in
    let more : ltb 0 (length (x ∷ a)) ≡ true = ground arith in
    let (h, run) = move_up_lem (length (x ∷ a)) (x ∷ a) p b refl in
    rw (load-at (x ∷ a) p b, is_rep, more, run, store-at [] h p ((x ∷ a) ++ b)) refl

reordered-append :
    (pool : Pool) (a : List ℤ) (p : ℤ) (b rest : List ℤ)
    → reordered pool a p (b ++ rest) ≡ reordered pool a p b ++ rest
reordered-append pool a p b rest = elim (Bool-cases (pool.type == 1)) [
  | inl rep ↦ rw rep (ap (λ (t : List ℤ). p ∷ t) (sym (append_assoc a b rest)))
  | inr ec ↦ rw ec (sym (append_assoc a (p ∷ b) rest))
]

-- `p` is the first osd that is taken, or none is and it is the first osd.
abbrev pub IsChosen : List ℕ → ℕ → List ℤ → ℤ → List ℤ → Type 0
IsChosen affinity pps a p b =
    All (IsPassed affinity pps) a × (judge affinity pps p ≡ ok taken)
    ⊎ All (λ o. judge affinity pps o ≡ ok skip) a
      × (judge affinity pps p ≡ ok fallback)
      × All (IsPassed affinity pps) b

-- What the function answers for the osds `xs`.
abbrev pub Affine : OsdMap → ℕ → Pool → List ℕ → List ℤ → List ℤ → ℤ → Type 0
Affine m pps pool affinity xs rest primary =
    All (IsDefault affinity) xs
      × (apply_primary_affinity m pps pool
            (record { osds = xs ++ rest; len = length xs; primary = primary })
          ≡ ok (record { osds = xs ++ rest; len = length xs; primary = primary }))
    ⊎ HasOdd affinity xs
      × ((a : List ℤ) × (p : ℤ) × (b : List ℤ) × (xs ≡ a ++ p ∷ b)
          × IsChosen affinity pps a p b
          × (apply_primary_affinity m pps pool
                (record { osds = xs ++ rest; len = length xs; primary = primary })
              ≡ ok (record { osds = reordered pool a p b ++ rest; len = length xs; primary = p })))

picked :
    (pool : Pool) (affinity : List ℕ) (pps : ℕ) (a : List ℤ) (p : ℤ) (b rest xs : List ℤ) (len : ℕ)
    (primary : ℤ)
    → IsKind pool
    → xs ≡ a ++ p ∷ b
    → take_primary pool (xs ++ rest) len primary (some (length a))
      ≡ ok (record { osds = reordered pool a p b ++ rest; len = len; primary = p })
picked pool affinity pps a p b rest xs len primary kind e =
    let e' = ap (λ (t : List ℤ). t ++ rest) e ∙ append_assoc a (p ∷ b) rest in
    rw (e', sym (reordered-append pool a p b rest))
      (take_primary-some pool a p (b ++ rest) len primary kind)

fallen :
    (m : OsdMap) (pps : ℕ) (pool : Pool) (affinity : List ℕ) (xs rest : List ℤ) (primary : ℤ)
    (at : Option ℕ)
    → m.osd_primary_affinity ≡ some affinity
    → IsKind pool
    → any_affinity affinity (xs ++ rest) (length xs) 0 ≡ ok true
    → HasOdd affinity xs
    → pick_loop affinity pps (xs ++ rest) (length xs) 0 none ≡ ok at
    → Scanned affinity pps xs at
    → Affine m pps pool affinity xs rest primary
unfolding apply_primary_affinity apply_affinity_by take_primary
fallen m pps pool affinity xs rest primary none has kind any odd run skipped =
    absurd (HasOdd-judge affinity pps xs odd skipped)
fallen m pps pool affinity xs rest primary (some at) has kind any odd run
      (a, p, b, e, len, before, first, after) =
    inr (
      odd,
      (
        a,
        p,
        b,
        e,
        inr (before, first, after),
        rw (has, any, run, sym len)
            (picked pool affinity pps a p b rest xs (length xs) primary kind e),
      ),
    )

-- When there is an array of affinities, the osds have entries in it, and the pool is one of replicas
-- or of erasure codes, the function answers. Either all affinities are the default, or there is no
-- osd, and it changes nothing; or an osd has another affinity, and the new primary is the first osd
-- that its affinity does not refuse, or the first osd of all when every one is refused; in a pool of
-- replicas it moves to the front and the others keep their order, and in a pool of erasure codes
-- each osd keeps its place. The places after the osds keep what they held.
pub apply_primary_affinity-Affine :
    (m : OsdMap) (pps : ℕ) (pool : Pool) (affinity : List ℕ) (xs rest : List ℤ) (primary : ℤ)
    → m.osd_primary_affinity ≡ some affinity
    → IsKind pool
    → All (IsKnown affinity) xs
    → Affine m pps pool affinity xs rest primary
unfolding apply_primary_affinity apply_affinity_by take_primary
apply_primary_affinity-Affine m pps pool affinity xs rest primary has kind known =
    elim (any_affinity_lem affinity xs [] rest 0 (xs ++ rest) refl refl known) [
      | inr (run, default) ↦ inl (default, rw (has, run) refl)
      | inl (any, odd) ↦
          let (at, run, post) =
            pick_loop_lem affinity pps xs [] rest 0 (xs ++ rest) none refl refl known tt in
          elim post [
            | inr (a, p, b, e, place, passed, chosen) ↦ inr (
              odd,
              (
                a,
                p,
                b,
                e,
                inl (passed, chosen),
                rw (has, any, run, place)
                    (picked pool affinity pps a p b rest xs (length xs) primary kind e),
              ),
            )
            | inl scanned ↦
                fallen m pps pool affinity xs rest primary at has kind any odd run scanned
          ]
    ]
