-- ===== src/Frag/Containment.antt =====
-- Which values, and which frags, a frag contains.
use native.Mathlib.Decide.{dec_le}
use native.Mathlib.Nat.{pow-suc, one-le-pow, le_trans}
use kmod_ceph.Base.{
  ℕ, suc, ◌+◌, ◌-◌, ◌*◌, ◌/◌, ◌%◌, ◌^◌, ◌≤◌, ◌<◌, ◌≡◌, ◌∙◌, ◌↔◌, ==_iff, true, ◌==◌, leb, ◌&&◌,
  refl, ap, arith, bit_and,
}
use kmod_ceph.Frag.{
  frag_make, frag_bits, frag_value, frag_mask, frag_contains_value, frag_contains_frag, IsFrag,
}
use kmod_ceph.Frag.Fields.{
  frag_make-eq, frag_bits-word, frag_value-word, top_bits-lt, masked, masked_range, pow-split,
  value-lt,
}

-- The values of a frag: an interval of the 24-bit space.
abbrev pub InRange : ℕ → ℕ → ℕ → Type 0
InRange b q v = (q * 2 ^ (24 - b) ≤ v % 2 ^ 24) × (v % 2 ^ 24 < (q + 1) * 2 ^ (24 - b))

pub IsFrag-frag_bits : (f b q : ℕ) → IsFrag f b q → frag_bits f ≡ b
IsFrag-frag_bits f b q w = rw w.word (frag_bits-word b q w.depth w.fits)

pub IsFrag-frag_value : (f b q : ℕ) → IsFrag f b q → frag_value f ≡ q * 2 ^ (24 - b)
IsFrag-frag_value f b q w = rw w.word (frag_value-word b q w.depth w.fits)

-- Making a frag of at most 24 bits keeps the top bits of the value, and gives a well-formed frag
-- whose two fields read back.
pub frag_make-fields :
    (b v : ℕ)
    → b ≤ 24
    → IsFrag (frag_make b v) b ((v / 2 ^ (24 - b)) % 2 ^ b)
      × (frag_bits (frag_make b v) ≡ b)
      × (frag_value (frag_make b v) ≡ (v / 2 ^ (24 - b)) % 2 ^ b * 2 ^ (24 - b))
frag_make-fields b v h =
    let q : ℕ = (v / 2 ^ (24 - b)) % 2 ^ b in
    let w : IsFrag (frag_make b v) b q = record {
      depth = h;
      fits = top_bits-lt b (v / 2 ^ (24 - b));
      word = frag_make-eq b v h;
    } in
    (w, IsFrag-frag_bits _ b q w, IsFrag-frag_value _ b q w)

pub mask-IsFrag :
    (f b q v : ℕ)
    → IsFrag f b q
    → bit_and v (frag_mask f) ≡ v % 2 ^ 24 / 2 ^ (24 - b) * 2 ^ (24 - b)
unfolding frag_mask
mask-IsFrag f b q v w =
    rw (IsFrag-frag_bits f b q w, masked b v w.depth, masked_range b v w.depth) refl

cancel_unit : (x y u : ℕ) → 1 ≤ u → x * u ≡ y * u → x ≡ y
cancel_unit x y u p e = grind arith

in_unit : (n u q : ℕ) → 1 ≤ u → (n / u ≡ q) ↔ ((q * u ≤ n) × (n < (q + 1) * u))
in_unit n u q p = (λ e. (grind arith, grind arith), λ h. grind arith)

-- A frag contains exactly the values of its interval.
pub frag_contains_value_iff :
    (f b q v : ℕ) → IsFrag f b q → (frag_contains_value f v ≡ true) ↔ InRange b q v
unfolding frag_contains_value
frag_contains_value_iff f b q v w = (forth, back)
  where
    unit_pos : 1 ≤ 2 ^ (24 - b)
    unit_pos = one-le-pow (24 - b) 2 (omega arith)

    test :
        (frag_contains_value f v ≡ true)
        ↔ (v % 2 ^ 24 / 2 ^ (24 - b) * 2 ^ (24 - b) ≡ q * 2 ^ (24 - b))
    test = rw (mask-IsFrag f b q v w, IsFrag-frag_value f b q w) (==_iff _ _)

    forth : frag_contains_value f v ≡ true → InRange b q v
    forth h =
        (in_unit (v % 2 ^ 24) (2 ^ (24 - b)) q unit_pos).0
          (cancel_unit _ _ (2 ^ (24 - b)) unit_pos (test.0 h))

    back : InRange b q v → frag_contains_value f v ≡ true
    back h =
        test.1
          (ap (λ (t : ℕ). t * 2 ^ (24 - b)) ((in_unit (v % 2 ^ 24) (2 ^ (24 - b)) q unit_pos).1 h))

double_not_le : (s x k : ℕ) → s ≡ 2 * (x * k) → s ≤ x → 1 ≤ k → 1 ≤ x → ⊥
double_not_le s x k e h pk px = grind arith

unit_le : (b c : ℕ) → b ≤ 24 → c ≤ 24 → 2 ^ (24 - c) ≤ 2 ^ (24 - b) → b ≤ c
unit_le b c hb hc h = elim (dec_le b c) [
  | yes p ↦ p
  | no p ↦
      let k : ℕ = b - c - 1 in
      let e : 24 - c ≡ suc (24 - b + k) = omega arith in
      let pk : 1 ≤ 2 ^ k = one-le-pow k 2 (omega arith) in
      let pb : 1 ≤ 2 ^ (24 - b) = one-le-pow (24 - b) 2 (omega arith) in
      let s : 2 ^ (24 - c) ≡ 2 * (2 ^ (24 - b) * 2 ^ k) =
        ap (λ (t : ℕ). 2 ^ t) e ∙ omega (arith, pow-suc 2 (24 - b + k), pow-split (24 - b) k) in
      absurd (double_not_le (2 ^ (24 - c)) (2 ^ (24 - b)) (2 ^ k) s h pk pb)
]

-- The unit of a coarser frag is a multiple of that of a finer one.
pub unit-multiple : (b c : ℕ) → b ≤ c → c ≤ 24 → 2 ^ (24 - b) ≡ 2 ^ (c - b) * 2 ^ (24 - c)
unit-multiple b c h hc =
    let e : 24 - b ≡ c - b + (24 - c) = omega arith in
    ap (λ (t : ℕ). 2 ^ t) e ∙ pow-split (c - b) (24 - c)

mul_lt_cancel : (x n u : ℕ) → x * u < n * u → x < n
mul_lt_cancel x n u h = grind arith

mul_suc_le : (x n u : ℕ) → x < n → (x + 1) * u ≤ n * u
mul_suc_le x n u h = grind arith

-- An interval of the finer unit that starts in one of the coarser unit ends there too.
inside : (q r k u v : ℕ) → r * u < (q + 1) * (k * u) → v < (r + 1) * u → v < (q + 1) * (k * u)
inside q r k u v h below =
    let e : (q + 1) * (k * u) ≡ (q + 1) * k * u = omega arith in
    let h' : r * u < (q + 1) * k * u = omega arith in
    omega (arith, mul_suc_le r ((q + 1) * k) u (mul_lt_cancel r ((q + 1) * k) u h'))

frag_contains_frag_test :
    (f sub b q c r : ℕ)
    → IsFrag f b q
    → IsFrag sub c r
    → (frag_contains_frag f sub ≡ true) ↔ (
        (b ≤ c)
        × (q * 2 ^ (24 - b) ≤ r * 2 ^ (24 - c))
        × (r * 2 ^ (24 - c) < (q + 1) * 2 ^ (24 - b)))
unfolding frag_contains_frag
frag_contains_frag_test f sub b q c r w v =
    rw
      (
        IsFrag-frag_bits f b q w,
        IsFrag-frag_bits sub c r v,
        IsFrag-frag_value sub c r v,
        mask-IsFrag f b q (r * 2 ^ (24 - c)) w,
        IsFrag-frag_value f b q w,
        small,
      )
      (forth, back)
  where
    unit_pos : 1 ≤ 2 ^ (24 - b)
    unit_pos = one-le-pow (24 - b) 2 (omega arith)

    sub_pos : 1 ≤ 2 ^ (24 - c)
    sub_pos = one-le-pow (24 - c) 2 (omega arith)

    small : r * 2 ^ (24 - c) % 2 ^ 24 ≡ r * 2 ^ (24 - c)
    small = omega (arith, sub_pos, value-lt c r v.depth v.fits)

    start : ℕ
    start = r * 2 ^ (24 - c)

    forth :
        (leb b c && (start / 2 ^ (24 - b) * 2 ^ (24 - b) == q * 2 ^ (24 - b))) ≡ true
        → (b ≤ c) × (q * 2 ^ (24 - b) ≤ start) × (start < (q + 1) * 2 ^ (24 - b))
    forth h =
        let le : b ≤ c = ground arith in
        let e : start / 2 ^ (24 - b) * 2 ^ (24 - b) ≡ q * 2 ^ (24 - b) = ground arith in
        let inn =
          (in_unit start (2 ^ (24 - b)) q unit_pos).0 (cancel_unit _ _ (2 ^ (24 - b)) unit_pos e) in
        (le, inn.0, inn.1)

    back :
        (b ≤ c) × (q * 2 ^ (24 - b) ≤ start) × (start < (q + 1) * 2 ^ (24 - b))
        → (leb b c && (start / 2 ^ (24 - b) * 2 ^ (24 - b) == q * 2 ^ (24 - b))) ≡ true
    back h =
        let e : start / 2 ^ (24 - b) ≡ q = (in_unit start (2 ^ (24 - b)) q unit_pos).1 (h.1, h.2) in
        let le : b ≤ c = h.0 in rw e (ground arith)

-- `ceph_frag_contains_frag` holds exactly when every value of the second frag is in the first.
pub frag_contains_frag_iff :
    (f sub b q c r : ℕ)
    → IsFrag f b q
    → IsFrag sub c r
    → (frag_contains_frag f sub ≡ true)
      ↔ ((v : ℕ) → frag_contains_value sub v ≡ true → frag_contains_value f v ≡ true)
frag_contains_frag_iff f sub b q c r w w' = (forth, back)
  where
    sub_pos : 1 ≤ 2 ^ (24 - c)
    sub_pos = one-le-pow (24 - c) 2 (omega arith)

    forth :
        frag_contains_frag f sub ≡ true
        → (v : ℕ) → frag_contains_value sub v ≡ true
        → frag_contains_value f v ≡ true
    forth h v hv =
        let t = (frag_contains_frag_test f sub b q c r w w').0 h in
        let i = (frag_contains_value_iff sub c r v w').0 hv in
        let e : 2 ^ (24 - b) ≡ 2 ^ (c - b) * 2 ^ (24 - c) = unit-multiple b c t.0 w'.depth in
        (frag_contains_value_iff f b q v w).1 (
          le_trans t.1 i.0,
          rw e (inside q r (2 ^ (c - b)) (2 ^ (24 - c)) (v % 2 ^ 24) (rw e at t.2) i.1),
        )

    back :
        ((v : ℕ) → frag_contains_value sub v ≡ true → frag_contains_value f v ≡ true)
        → frag_contains_frag f sub ≡ true
    back all =
        let top : r * 2 ^ (24 - c) + 2 ^ (24 - c) ≤ 2 ^ 24 = value-lt c r w'.depth w'.fits in
        let p : 1 ≤ 2 ^ (24 - c) = sub_pos in
        let first : ℕ = r * 2 ^ (24 - c) in
        let last : ℕ = r * 2 ^ (24 - c) + 2 ^ (24 - c) - 1 in
        let ef : first % 2 ^ 24 ≡ first = omega arith in
        let el : last % 2 ^ 24 ≡ last = omega arith in
        let a : InRange b q first =
          (frag_contains_value_iff f b q first w).0
            (all first ((frag_contains_value_iff sub c r first w').1 (omega arith, omega arith))) in
        let z : InRange b q last =
          (frag_contains_value_iff f b q last w).0
            (all last ((frag_contains_value_iff sub c r last w').1 (omega arith, omega arith))) in
        (frag_contains_frag_test f sub b q c r w w').1
          (unit_le b c w.depth w'.depth (omega arith), omega arith, omega arith)
