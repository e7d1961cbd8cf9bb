-- ===== src/Osd/Acting/Pick.antt =====
-- The two loops of `apply_primary_affinity` of net/ceph/osdmap.c.
use kmod_ceph.Base.{
  All-append, All-map, ℕ, zero, suc, ◌+◌, ◌<◌, ◌≡◌, ◌≢◌, refl, sym, ap, ◌∙◌, ◌⊎◌, inl, inr, true,
  false, Option, none, some, List, [], ◌∷◌, ◌++◌, arith, ◌==◌, Bool-cases, length, All,
  length-append,
}
use mathlib.Core.List.{append_assoc, append-nil}
use kmod_ceph.Base.Int.{ℤ, pos}
use kmod_ceph.Crush.Outcome.{ok, load}
use kmod_ceph.Crush.Indep.{item_none}
use kmod_ceph.Crush.State.{int_eq}
use kmod_ceph.Osd.Acting.{
  skip, fallback, taken, max_primary_affinity, affinity_of, any_affinity, rejects, judge,
  keep_first, pick_loop,
}
use kmod_ceph.Osd.Acting.UpSet.{load-past}

-- An osd that has an entry in the array of affinities, or CRUSH_ITEM_NONE.
abbrev pub IsKnown : List ℕ → ℤ → Type 0
IsKnown affinity o = (o ≡ item_none) ⊎ ((n : ℕ) × (o ≡ pos n) × (n < length affinity))

-- What the first loop passes over.
abbrev pub IsDefault : List ℕ → ℤ → Type 0
IsDefault affinity o =
    (int_eq o item_none ≡ true) ⊎ (affinity_of affinity o ≡ ok max_primary_affinity)

abbrev pub IsPassed : List ℕ → ℕ → ℤ → Type 0
IsPassed affinity pps o = (judge affinity pps o ≡ ok skip) ⊎ (judge affinity pps o ≡ ok fallback)

-- No osd so far was taken, and `at` is the place of the first that is not CRUSH_ITEM_NONE.
abbrev pub Scanned : List ℕ → ℕ → List ℤ → Option ℕ → Type 0
Scanned affinity pps xs none = All (λ o. judge affinity pps o ≡ ok skip) xs
Scanned affinity pps xs (some at) =
    (a : List ℤ) × (p : ℤ) × (b : List ℤ) × (xs ≡ a ++ p ∷ b)
    × (length a ≡ at)
    × All (λ o. judge affinity pps o ≡ ok skip) a
    × (judge affinity pps p ≡ ok fallback)
    × All (IsPassed affinity pps) b

-- The osd at `at` is the first that is taken.
abbrev pub Taken : List ℕ → ℕ → List ℤ → Option ℕ → Type 0
Taken affinity pps xs at =
    (a : List ℤ) × (p : ℤ) × (b : List ℤ) × (xs ≡ a ++ p ∷ b)
    × (at ≡ some (length a))
    × All (IsPassed affinity pps) a
    × (judge affinity pps p ≡ ok taken)

All-snoc {ℓ κ} :
    {A : Type ℓ} (P : A → Type κ) (xs : List A) (x : A) → All P xs → P x → All P (xs ++ x ∷ [])
All-snoc P [] x h px = (px, tt)
All-snoc P (y ∷ xs) x h px = (h.0, All-snoc P xs x h.1 px)

load-ok : (xs : List ℕ) (n : ℕ) → n < length xs → (v : ℕ) × (load xs n ≡ ok v)
unfolding load
load-ok [] n h = absurd (omega arith)
load-ok (x ∷ xs) zero h = (x, refl)
load-ok (x ∷ xs) (suc n) h = load-ok xs n (omega arith)

affinity_of-ok :
    (affinity : List ℕ) (o : ℤ)
    → IsKnown affinity o
    → (int_eq o item_none ≡ true) ⊎ ((aff : ℕ) × (affinity_of affinity o ≡ ok aff))
unfolding affinity_of
affinity_of-ok affinity o (inl e) = inl (rw e refl)
affinity_of-ok affinity o (inr (n, e, inside)) =
    let (aff, run) = load-ok affinity n inside in inr (aff, rw e run)

judge-cases :
    (affinity : List ℕ) (pps : ℕ) (o : ℤ)
    → IsKnown affinity o
    → (judge affinity pps o ≡ ok taken) ⊎ IsPassed affinity pps o
unfolding judge
judge-cases affinity pps o known = elim (Bool-cases (int_eq o item_none)) [
  | inl hole ↦ inr (inl (rw hole refl))
  | inr osd ↦ elim (affinity_of-ok affinity o known) [
    | inl hole ↦ inr (inl (rw hole refl))
    | inr (aff, run) ↦ elim (Bool-cases (rejects pps o aff)) [
      | inl rejected ↦ inr (inr (rw (osd, run, rejected) refl))
      | inr accepted ↦ inl (rw (osd, run, accepted) refl)
    ]
  ]
]

-- An osd of the list is not CRUSH_ITEM_NONE and its affinity is not the default.
abbrev pub HasOdd : List ℕ → List ℤ → Type 0
HasOdd affinity xs =
    (c : List ℤ) × (o : ℤ) × (d : List ℤ) × (aff : ℕ) × (xs ≡ c ++ o ∷ d)
    × (int_eq o item_none ≡ false)
    × (affinity_of affinity o ≡ ok aff)
    × (aff ≢ max_primary_affinity)

HasOdd-cons :
    (affinity : List ℕ) (x : ℤ) (xs : List ℤ) → HasOdd affinity xs → HasOdd affinity (x ∷ xs)
HasOdd-cons affinity x xs (c, o, d, aff, e, osd, got, odd) =
    (x ∷ c, o, d, aff, ap (λ (t : List ℤ). x ∷ t) e, osd, got, odd)

-- An osd with an affinity is not skipped.
judge-odd :
    (affinity : List ℕ) (pps : ℕ) (o : ℤ) (aff : ℕ)
    → int_eq o item_none ≡ false
    → affinity_of affinity o ≡ ok aff
    → ¬ (judge affinity pps o ≡ ok skip)
unfolding judge
judge-odd affinity pps o aff osd got h = elim (Bool-cases (rejects pps o aff)) [
  | inl rejected ↦
      let e : ok fallback ≡ ok skip = rw (judge, osd, got, rejected) at h in absurd (cc)
  | inr accepted ↦ let e : ok taken ≡ ok skip = rw (judge, osd, got, accepted) at h in absurd (cc)
]

-- So a list with such an osd is not skipped as a whole.
pub HasOdd-judge :
    (affinity : List ℕ) (pps : ℕ) (xs : List ℤ)
    → HasOdd affinity xs
    → ¬ All (λ o. judge affinity pps o ≡ ok skip) xs
HasOdd-judge affinity pps xs (c, o, d, aff, e, osd, got, odd) skipped =
    judge-odd affinity pps o aff osd got (at_middle c (rw e at skipped))
  where
    at_middle :
        (c : List ℤ)
        → All (λ o. judge affinity pps o ≡ ok skip) (c ++ o ∷ d)
        → judge affinity pps o ≡ ok skip
    at_middle [] h = h.0
    at_middle (x ∷ c) h = at_middle c h.1

-- The first loop answers, and with `false` only when it passed over every osd, and
-- with `true` only when there is an osd that it does not pass over.
pub any_affinity_lem :
    (affinity : List ℕ) (xs pre rest : List ℤ) (i : ℕ) (arr : List ℤ)
    → i ≡ length pre
    → arr ≡ pre ++ (xs ++ rest)
    → All (IsKnown affinity) xs
    → (any_affinity affinity arr (length xs) i ≡ ok true) × HasOdd affinity xs
      ⊎ (any_affinity affinity arr (length xs) i ≡ ok false) × All (IsDefault affinity) xs
unfolding any_affinity
any_affinity_lem affinity [] pre rest i arr ei ea known = inr (refl, tt)
any_affinity_lem affinity (o ∷ xs) pre rest i arr ei ea known =
    let read = load-past pre o (xs ++ rest) i arr ei ea in
    let size = length-append pre (o ∷ []) in
    let more =
      any_affinity_lem affinity xs (pre ++ o ∷ []) rest (i + 1) arr (omega arith)
        (ea ∙ sym (append_assoc pre (o ∷ []) (xs ++ rest))) known.1 in
    elim (Bool-cases (int_eq o item_none)) [
      | inl hole ↦ elim more [
        | inl (run, odd) ↦ inl (rw (read, hole) run, HasOdd-cons affinity o xs odd)
        | inr (run, all) ↦ inr (rw (read, hole) run, (inl hole, all))
      ]
      | inr osd ↦ elim (affinity_of-ok affinity o known.0) [
        | inl hole ↦ absurd (cc)
        | inr (aff, got) ↦ elim (Bool-cases (aff == max_primary_affinity)) [
          | inl default ↦
              let e : aff ≡ max_primary_affinity = ground arith in
              elim more [
                | inl (run, odd) ↦
                    inl (rw (read, osd, got, default) run, HasOdd-cons affinity o xs odd)
                | inr (run, all) ↦
                    inr (rw (read, osd, got, default) run, (inr (got ∙ ap ok e), all))
              ]
          | inr other ↦
              inl (rw (read, osd, got, other) refl, ([], o, xs, aff, refl, osd, got, ground arith))
        ]
      ]
    ]

Scanned-skip :
    (affinity : List ℕ) (pps : ℕ) (pre : List ℤ) (o : ℤ) (at : Option ℕ)
    → judge affinity pps o ≡ ok skip
    → Scanned affinity pps pre at
    → Scanned affinity pps (pre ++ o ∷ []) at
Scanned-skip affinity pps pre o none skipped h =
    All-snoc (λ o. judge affinity pps o ≡ ok skip) pre o h skipped
Scanned-skip affinity pps pre o (some at) skipped (a, p, b, e, len, before, first, after) = (
  a,
  p,
  b ++ o ∷ [],
  ap (λ (t : List ℤ). t ++ o ∷ []) e ∙ append_assoc a (p ∷ b) (o ∷ []),
  len,
  before,
  first,
  All-snoc (IsPassed affinity pps) b o after (inl skipped),
)

Scanned-fallback :
    (affinity : List ℕ) (pps : ℕ) (pre : List ℤ) (o : ℤ) (at : Option ℕ)
    → judge affinity pps o ≡ ok fallback
    → Scanned affinity pps pre at
    → Scanned affinity pps (pre ++ o ∷ []) (keep_first (length pre) at)
Scanned-fallback affinity pps pre o none passed h = (pre, o, [], refl, refl, h, passed, tt)
Scanned-fallback affinity pps pre o (some at) passed (a, p, b, e, len, before, first, after) = (
  a,
  p,
  b ++ o ∷ [],
  ap (λ (t : List ℤ). t ++ o ∷ []) e ∙ append_assoc a (p ∷ b) (o ∷ []),
  len,
  before,
  first,
  All-snoc (IsPassed affinity pps) b o after (inr passed),
)

Scanned-Passed :
    (affinity : List ℕ) (pps : ℕ) (pre : List ℤ) (at : Option ℕ)
    → Scanned affinity pps pre at
    → All (IsPassed affinity pps) pre
Scanned-Passed affinity pps pre none h =
    All-map (λ o. judge affinity pps o ≡ ok skip) (IsPassed affinity pps) pre (λ o e. inl e) h
Scanned-Passed affinity pps pre (some at) (a, p, b, e, len, before, first, after) = rw e (
    All-append (IsPassed affinity pps) a (p ∷ b)
      (All-map (λ o. judge affinity pps o ≡ ok skip) (IsPassed affinity pps) a (λ o e. inl e)
        before)
      (inr first, after))

-- The second loop answers.
pub pick_loop_lem :
    (affinity : List ℕ) (pps : ℕ) (xs pre rest : List ℤ) (i : ℕ) (arr : List ℤ) (at : Option ℕ)
    → i ≡ length pre
    → arr ≡ pre ++ (xs ++ rest)
    → All (IsKnown affinity) xs
    → Scanned affinity pps pre at
    → (at' : Option ℕ) × (pick_loop affinity pps arr (length xs) i at ≡ ok at')
      × (Scanned affinity pps (pre ++ xs) at' ⊎ Taken affinity pps (pre ++ xs) at')
unfolding pick_loop
pick_loop_lem affinity pps [] pre rest i arr at ei ea known scanned =
    (at, refl, inl (rw (append-nil pre) scanned))
pick_loop_lem affinity pps (o ∷ xs) pre rest i arr at ei ea known scanned =
    let read = load-past pre o (xs ++ rest) i arr ei ea in
    let size = length-append pre (o ∷ []) in
    let ei' : i + 1 ≡ length (pre ++ o ∷ []) = omega arith in
    let ea' = ea ∙ sym (append_assoc pre (o ∷ []) (xs ++ rest)) in
    let assoc = append_assoc pre (o ∷ []) xs in
    elim (judge-cases affinity pps o known.0) [
      | inl e ↦ (
        some i,
        rw (read, e) refl,
        inr (pre, o, xs, refl, ap some ei, Scanned-Passed affinity pps pre at scanned, e),
      )
      | inr (inl e) ↦
          let (at', run, post) =
            pick_loop_lem affinity pps xs (pre ++ o ∷ []) rest (i + 1) arr at ei' ea' known.1
              (Scanned-skip affinity pps pre o at e scanned) in
          (at', rw (read, e) run, rw assoc at post)
      | inr (inr e) ↦
          let (at', run, post) =
            pick_loop_lem affinity pps xs (pre ++ o ∷ []) rest (i + 1) arr (keep_first i at) ei' ea'
              known.1 (rw ei (Scanned-fallback affinity pps pre o at e scanned)) in
          (at', rw (read, e) run, rw assoc at post)
    ]
