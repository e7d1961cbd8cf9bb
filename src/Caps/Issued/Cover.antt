-- ===== src/Caps/Issued/Cover.antt =====
-- `__ceph_caps_issued_mask` of fs/ceph/caps.c against the union of the caps.
use kmod_ceph.Base.{
  ℕ, zero, suc, ◌-◌, ◌/◌, ◌%◌, ◌≤◌, ◌<◌, min, max, bit_and, bit_or, ◌≡◌, refl, sym, ap, ◌∙◌, ◌⊎◌,
  inl, inr, true, false, Option, none, some, List, [], ◌∷◌, arith, ◌==◌, Bool-cases, mod_unique,
  div_unique,
}
use kmod_ceph.Base.Bits.{bit_and_digit, bit_or_digit, bit_and-zero}
use kmod_ceph.Caps.Issued.{
  Cap, InodeCaps, cap_is_valid, issued_loop, without_revoked, caps_issued, covers, mask_loop,
  caps_issued_mask, issued_other_loop,
}

bit_or_half : (a b : ℕ) → bit_or a b / 2 ≡ bit_or (a / 2) (b / 2)
bit_or_half a b =
    div_unique (bit_or a b) 2 (bit_or (a / 2) (b / 2)) (max (a % 2) (b % 2)) (bit_or_digit a b)
      (omega arith)

bit_or_low : (a b : ℕ) → bit_or a b % 2 ≡ max (a % 2) (b % 2)
bit_or_low a b =
    mod_unique (bit_or a b) 2 (bit_or (a / 2) (b / 2)) (max (a % 2) (b % 2)) (bit_or_digit a b)
      (omega arith)

bit_and_half : (a b : ℕ) → bit_and a b / 2 ≡ bit_and (a / 2) (b / 2)
bit_and_half a b =
    div_unique (bit_and a b) 2 (bit_and (a / 2) (b / 2)) (min (a % 2) (b % 2)) (bit_and_digit a b)
      (omega arith)

bit_and_odd : (a b : ℕ) → bit_and a b % 2 ≡ min (a % 2) (b % 2)
bit_and_odd a b =
    mod_unique (bit_and a b) 2 (bit_and (a / 2) (b / 2)) (min (a % 2) (b % 2)) (bit_and_digit a b)
      (omega arith)

-- A set that covers the mask still does with more bits.
cover_more :
    (k a b m : ℕ) → m ≤ k → (bit_and a m ≡ m) ⊎ (bit_and b m ≡ m) → bit_and (bit_or a b) m ≡ m
cover_more zero a b m le h = let e : m ≡ 0 = omega arith in rw e (bit_and-zero (bit_or a b))
cover_more (suc k) a b m le h = elim (Bool-cases (m == 0)) [
  | inl none_asked ↦ let e : m ≡ 0 = ground arith in rw e (bit_and-zero (bit_or a b))
  | inr some_asked ↦
      let pos : 0 < m = ground arith in
      let half = bit_or_half a b in
      let low = bit_or_low a b in
      let digits = bit_and_digit (bit_or a b) m in
      let parts : ((bit_and (a / 2) (m / 2) ≡ m / 2) × (min (a % 2) (m % 2) ≡ m % 2))
          ⊎ ((bit_and (b / 2) (m / 2) ≡ m / 2) × (min (b % 2) (m % 2) ≡ m % 2)) =
        elim h [
          | inl e ↦ inl (
            sym (bit_and_half a m) ∙ ap (λ (n : ℕ). n / 2) e,
            sym (bit_and_odd a m) ∙ ap (λ (n : ℕ). n % 2) e,
          )
          | inr e ↦ inr (
            sym (bit_and_half b m) ∙ ap (λ (n : ℕ). n / 2) e,
            sym (bit_and_odd b m) ∙ ap (λ (n : ℕ). n % 2) e,
          )
        ] in
      let up : bit_and (bit_or a b / 2) (m / 2) ≡ m / 2 = rw half (
        cover_more k (a / 2) (b / 2) (m / 2) (omega arith)
          (elim parts [ inl p ↦ inl p.0 | inr p ↦ inr p.0 ])) in
      let bit : min (bit_or a b % 2) (m % 2) ≡ m % 2 = rw low (elim parts [
        | inl p ↦ (let q = p.1 in omega arith)
        | inr p ↦ (let q = p.1 in omega arith)
      ]) in
      omega arith
]

-- A set covers what a part of it covers.
cover_part : (k a b m : ℕ) → m ≤ k → bit_and (bit_and a b) m ≡ m → bit_and a m ≡ m
cover_part zero a b m le h = let e : m ≡ 0 = omega arith in rw e (bit_and-zero a)
cover_part (suc k) a b m le h = elim (Bool-cases (m == 0)) [
  | inl none_asked ↦ let e : m ≡ 0 = ground arith in rw e (bit_and-zero a)
  | inr some_asked ↦
      let pos : 0 < m = ground arith in
      let digits = bit_and_digit a m in
      let up : bit_and (bit_and (a / 2) (b / 2)) (m / 2) ≡ m / 2 =
        ap (λ (n : ℕ). bit_and n (m / 2)) (sym (bit_and_half a b))
        ∙ sym (bit_and_half (bit_and a b) m)
        ∙ ap (λ (n : ℕ). n / 2) h in
      let bit : min (min (a % 2) (b % 2)) (m % 2) ≡ m % 2 =
        ap (λ (n : ℕ). min n (m % 2)) (sym (bit_and_odd a b))
        ∙ sym (bit_and_odd (bit_and a b) m)
        ∙ ap (λ (n : ℕ). n % 2) h in
      let rest = cover_part k (a / 2) (b / 2) (m / 2) (omega arith) up in omega arith
]

covers-more : (a b m : ℕ) → (covers a m ≡ true) ⊎ (covers b m ≡ true) → covers (bit_or a b) m ≡ true
covers-more a b m h =
    let e =
      cover_more m a b m (omega arith)
        (elim h [ inl c ↦ inl (ground arith) | inr c ↦ inr (ground arith) ]) in
    ground arith

-- Once the mask is covered, more caps do not change that.
issued_loop-covers :
    (jiffies mask : ℕ) (caps : List Cap) (have : ℕ)
    → covers have mask ≡ true
    → covers (issued_loop jiffies caps have) mask ≡ true
unfolding issued_loop
issued_loop-covers jiffies mask [] have h = h
issued_loop-covers jiffies mask (cap ∷ caps) have h = elim (Bool-cases (cap_is_valid jiffies cap)) [
  | inl valid ↦ rw valid (
      issued_loop-covers jiffies mask caps (bit_or have cap.issued)
        (covers-more have cap.issued mask (inl h)))
  | inr stale ↦ rw stale (issued_loop-covers jiffies mask caps have h)
]

mask_loop_lem :
    (jiffies mask : ℕ) (caps : List Cap) (have : ℕ)
    → covers have mask ≡ false
    → mask_loop jiffies mask caps have ≡ covers (issued_loop jiffies caps have) mask
unfolding mask_loop issued_loop
mask_loop_lem jiffies mask [] have h = sym h
mask_loop_lem jiffies mask (cap ∷ caps) have h = elim (Bool-cases (cap_is_valid jiffies cap)) [
  | inr stale ↦ rw stale (mask_loop_lem jiffies mask caps have h)
  | inl valid ↦ elim (Bool-cases (covers cap.issued mask)) [
    | inl alone ↦
        let kept =
          issued_loop-covers jiffies mask caps (bit_or have cap.issued)
            (covers-more have cap.issued mask (inr alone)) in
        rw (valid, alone, kept) refl
    | inr more ↦ elim (Bool-cases (covers (bit_or have cap.issued) mask)) [
      | inl together ↦
          let kept = issued_loop-covers jiffies mask caps (bit_or have cap.issued) together in
          rw (valid, more, together, kept) refl
      | inr not_yet ↦
          rw (valid, more, not_yet)
            (mask_loop_lem jiffies mask caps (bit_or have cap.issued) not_yet)
    ]
  ]
]

-- `__ceph_caps_issued_mask`, which stops as soon as it can, says whether the union of the snapshot's
-- caps and of all valid caps covers the mask; and it never denies a mask that the set of
-- `__ceph_caps_issued` covers, from which the caps are taken that the auth mds is revoking.
pub caps_issued_mask-covers :
    (jiffies : ℕ) (ci : InodeCaps) (mask : ℕ)
    → (caps_issued_mask jiffies ci mask
        ≡ covers (issued_loop jiffies ci.i_caps ci.i_snap_caps) mask)
      × ((caps_issued_mask jiffies ci mask ≡ true) ⊎ (covers (caps_issued jiffies ci) mask ≡ false))
unfolding caps_issued_mask caps_issued
caps_issued_mask-covers jiffies ci mask =
    let union = issued_loop jiffies ci.i_caps ci.i_snap_caps in
    let whole : caps_issued_mask jiffies ci mask ≡ covers union mask =
      elim (Bool-cases (covers ci.i_snap_caps mask)) [
        | inl snap ↦
            rw
              (
                caps_issued_mask,
                snap,
                issued_loop-covers jiffies mask ci.i_caps ci.i_snap_caps snap,
              )
              refl
        | inr caps ↦
            rw (caps_issued_mask, caps) (mask_loop_lem jiffies mask ci.i_caps ci.i_snap_caps caps)
      ] in
    (
      whole,
      elim (without_cases union mask ci.i_auth_cap) [ inl c ↦ inl (whole ∙ c) | inr c ↦ inr c ],
    )
  where
    without_cases :
        (union mask : ℕ) (auth : Option Cap)
        → (covers union mask ≡ true) ⊎ (covers (without_revoked union auth) mask ≡ false)
    without_cases union mask none = Bool-cases (covers union mask)
    without_cases union mask (some cap) =
        let kept = bit_or (0xffffffff - cap.implemented) cap.issued in
        elim (Bool-cases (covers (bit_and union kept) mask)) [
          | inl c ↦
              let e = cover_part mask union kept mask (omega arith) (ground arith) in
              inl (ground arith)
          | inr c ↦ inr c
        ]

-- Without a cap to leave out, `__ceph_caps_issued_other` is the union that the mask is tested with.
issued_other-all :
    (jiffies : ℕ) (caps : List Cap) (have : ℕ)
    → issued_other_loop jiffies none caps have ≡ issued_loop jiffies caps have
unfolding issued_other_loop issued_loop
issued_other-all jiffies [] have = refl
issued_other-all jiffies (cap ∷ caps) have = elim (Bool-cases (cap_is_valid jiffies cap)) [
  | inl valid ↦ rw valid (issued_other-all jiffies caps (bit_or have cap.issued))
  | inr stale ↦ rw stale (issued_other-all jiffies caps have)
]
