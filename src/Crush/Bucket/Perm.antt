-- ===== src/Crush/Bucket/Perm.antt =====
-- The permutation behind `bucket_perm_choose`, as a function of the input alone.
use native.Mathlib.Nat.{mod-lt}
use kmod_ceph.Base.{
  ℕ, zero, suc, ◌+◌, ◌-◌, ◌≤◌, ◌<◌, ◌≡◌, ◌∙◌, inl, inr, refl, arith, ltb, ◌==◌, if◌then◌else◌, List,
  some, get_elem?, set, length, length-set, get_elem?-set_self, get_elem?-set_ne, Bool-cases,
}
use kmod_ceph.Crush.Outcome.{ok, load, store}
use kmod_ceph.Crush.Types.{Bucket}
use kmod_ceph.Crush.Bucket.{swap_offset, perm_step, perm_loop, fill_perm}

-- The item place that stands at place `k` after `n` rounds, from the identity.
unfoldable pub perm_at : Bucket → ℕ → ℕ → ℕ → ℕ
perm_at b x zero k = k
perm_at b x (suc p) k =
    if ltb p (b.size - 1)
    then if k == p
      then perm_at b x p (p + swap_offset b x p)
      else if k == p + swap_offset b x p
      then perm_at b x p p
      else perm_at b x p k
    else perm_at b x p k

pub swap_offset-lt : (b : Bucket) (x p : ℕ) → p < b.size → swap_offset b x p < b.size - p
unfolding swap_offset
swap_offset-lt b x p h = mod-lt _ (omega arith)

-- The array holds the given function.
pub record Holds (size : ℕ) (perm : List ℕ) (f : ℕ → ℕ) : Type 0 where
  pub len : length perm ≡ size
  pub at : (k : ℕ) → k < size → get_elem? perm k ≡ some (f k)

pub load-some {ℓ} :
    {A : Type ℓ} (xs : List A) (i : ℕ) (v : A) → get_elem? xs i ≡ some v → load xs i ≡ ok v
unfolding load
load-some xs i v e = rw (e, load) refl

pub store-ok {ℓ} :
    {A : Type ℓ} (xs : List A) (i : ℕ) (v : A) → i < length xs → store xs i v ≡ ok (set xs i v)
unfolding store
store-ok xs i v h = ground arith

-- After the rounds below place `k`, later rounds leave that place alone.
pub perm_at-settled :
    (b : Bucket) (x n m k : ℕ) → k < n → n + m ≤ b.size → perm_at b x (n + m) k ≡ perm_at b x n k
unfolding perm_at
perm_at-settled b x n zero k h le = let e : n + 0 ≡ n = omega arith in rw e refl
perm_at-settled b x n (suc m) k h le =
    let e : n + suc m ≡ suc (n + m) = omega arith in
    rw e (ground (arith, perm_at-settled b x n m k h))

pub perm_at-lt : (b : Bucket) (x n k : ℕ) → n ≤ b.size → k < b.size → perm_at b x n k < b.size
unfolding perm_at
perm_at-lt b x zero k h hk = hk
perm_at-lt b x (suc p) k h hk = ground (
  arith,
  perm_at-lt b x p k,
  perm_at-lt b x p p,
  perm_at-lt b x p (p + swap_offset b x p),
  swap_offset-lt b x p,
)

-- The exchange of two places.
exchange : ℕ → ℕ → ℕ → ℕ
exchange p q k = if k == p then q else if k == q then p else k

exchange-injective : (p q j k : ℕ) → exchange p q j ≡ exchange p q k → j ≡ k
unfolding exchange
exchange-injective p q j k e = ground arith

exchange-lt : (p q k n : ℕ) → p < n → q < n → k < n → exchange p q k < n
unfolding exchange
exchange-lt p q k n hp hq hk = ground arith

perm_at-exchange :
    (b : Bucket) (x p k : ℕ)
    → perm_at b x (suc p) k ≡ (
        if ltb p (b.size - 1)
        then perm_at b x p (exchange p (p + swap_offset b x p) k)
        else perm_at b x p k)
unfolding perm_at exchange
perm_at-exchange b x p k = ground arith

-- Distinct places hold distinct items' places.
pub perm_at-injective :
    (b : Bucket) (x n j k : ℕ)
    → n ≤ b.size
    → j < b.size
    → k < b.size
    → perm_at b x n j ≡ perm_at b x n k
    → j ≡ k
perm_at-injective b x zero j k h hj hk e = unfold perm_at in e
perm_at-injective b x (suc p) j k h hj hk e =
    let q : ℕ = p + swap_offset b x p in
    let inside : p + swap_offset b x p < b.size = omega (arith, swap_offset-lt b x p) in
    ground (
      arith,
      perm_at-exchange b x p j,
      perm_at-exchange b x p k,
      exchange-lt p q j b.size,
      exchange-lt p q k b.size,
      exchange-injective p q j k,
      perm_at-injective b x p j k,
      perm_at-injective b x p (exchange p q j) (exchange p q k),
    )

abbrev swapped : List ℕ → ℕ → ℕ → ℕ → ℕ → List ℕ
swapped perm p q u t = set (set perm q u) p t

swapped-at :
    (perm : List ℕ) (p q u t k : ℕ)
    → p < length perm
    → q < length perm
    → get_elem? (swapped perm p q u t) k
      ≡ (if k == p then some t else if k == q then some u else get_elem? perm k)
swapped-at perm p q u t k hp hq = ground (
  arith,
  get_elem?-set_self (set perm q u) p t,
  get_elem?-set_self perm q u,
  get_elem?-set_ne (set perm q u) {i = p} {j = k} t,
  get_elem?-set_ne perm {i = q} {j = k} u,
  length-set perm q u,
)

-- One round keeps the array at the function.
perm_step-Holds :
    (b : Bucket) (x p : ℕ) (perm : List ℕ)
    → p < b.size
    → Holds b.size perm (perm_at b x p)
    → (perm' : List ℕ) × (perm_step b x p perm ≡ ok perm')
      × Holds b.size perm' (perm_at b x (suc p))
unfolding perm_step perm_at
perm_step-Holds b x p perm h v = elim (Bool-cases (ltb p (b.size - 1))) [
  | inr last ↦ (perm, rw last refl, record { len = v.len; at = λ k hk. rw last (v.at k hk) })
  | inl more ↦ elim (Bool-cases (swap_offset b x p == 0)) [
    | inl same ↦
        (perm, rw (more, same) refl, record { len = v.len; at = λ k hk. ground (arith, v.at k hk) })
    | inr moved ↦
        let q : ℕ = p + swap_offset b x p in
        let inside : p + swap_offset b x p < b.size = omega (arith, swap_offset-lt b x p h) in
        let t : ℕ = perm_at b x p (p + swap_offset b x p) in
        let u : ℕ = perm_at b x p p in
        let hp : p < length perm = omega (arith, v.len) in
        let hq : p + swap_offset b x p < length perm = omega (arith, v.len) in
        (
          swapped perm p q u t,
          rw
              (
                more,
                moved,
                load-some perm q t (v.at q inside),
                load-some perm p u (v.at p h),
                store-ok perm q u hq,
                store-ok (set perm q u) p t (omega (arith, length-set perm q u)),
              )
              refl,
          record {
            len = length-set (set perm q u) p t ∙ length-set perm q u ∙ v.len;
            at = λ k hk. swapped-at perm p q u t k hp hq ∙ ground (arith, v.at k hk);
          },
        )
  ]
]

pub perm_loop-Holds :
    (b : Bucket) (x left p : ℕ) (perm : List ℕ)
    → p + left ≤ b.size
    → Holds b.size perm (perm_at b x p)
    → (perm' : List ℕ) × (perm_loop b x left p perm ≡ ok perm')
      × Holds b.size perm' (perm_at b x (p + left))
unfolding perm_loop
perm_loop-Holds b x zero p perm h v = let e : p + 0 ≡ p = omega arith in (perm, refl, rw e v)
perm_loop-Holds b x (suc left) p perm h v =
    let (perm', step, v') = perm_step-Holds b x p perm (omega arith) v in
    let e : suc p ≡ p + 1 = omega arith in
    let (out, loop, w) = perm_loop-Holds b x left (p + 1) perm' (omega arith) (rw e at v') in
    let s : p + 1 + left ≡ p + suc left = omega arith in (out, rw step loop, rw s at w)

-- The filling loop writes the identity from its place on.
pub fill_perm-at :
    (left i : ℕ) (perm : List ℕ)
    → i + left ≡ length perm
    → (perm' : List ℕ) × (fill_perm left i perm ≡ ok perm')
      × (length perm' ≡ length perm)
      × ((k : ℕ)
          → k < length perm
          → get_elem? perm' k ≡ (if ltb k i then get_elem? perm k else some k))
unfolding fill_perm
fill_perm-at zero i perm e = (perm, refl, refl, λ k hk. ground arith)
fill_perm-at (suc left) i perm e =
    let l : length (set perm i i) ≡ length perm = length-set perm i i in
    let (out, run, len, at) = fill_perm-at left (i + 1) (set perm i i) (omega arith) in
    (
      out,
      rw (store-ok perm i i (omega arith)) run,
      len ∙ l,
      λ k hk.
          at k (omega arith)
          ∙ ground (arith, get_elem?-set_self perm i i, get_elem?-set_ne perm {i = i} {j = k} i),
    )
