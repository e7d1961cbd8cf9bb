-- ===== src/Crush/Firstn/World.antt =====
-- Maps on which `crush_choose_firstn` returns: the steps of one attempt.

use native.Mathlib.Decide.{ℕ_discrete}
use kmod_ceph.Base.{
  ℕ, zero, suc, ◌+◌, ◌≤◌, ◌<◌, ◌≡◌, inl, inr, ◌∙◌, refl, sym, ap, subst, List, [], ◌∷◌, some,
  get_elem?, set, length, length-set, arith, false, true, Bool-cases, get_elem?-set_self,
  get_elem?-set_ne,
}
use kmod_ceph.Base.Int.{ℤ, pos, negsuc}
use kmod_ceph.Crush.Outcome.{Outcome, ok}
use kmod_ceph.Crush.Types.{Bucket}
use kmod_ceph.Crush.Bucket.{bucket_choose, bucket_perm_choose}
use kmod_ceph.Crush.Bucket.Perm.{load-some, store-ok}
use kmod_ceph.Crush.Bucket.Cache.{IsSized, get_elem?-some}
use kmod_ceph.Crush.Bucket.Usable.{
  IsUsable, Answers, bucket_choose-Answers, bucket_perm_choose-Answers,
}
use kmod_ceph.Crush.State.{
  St, M, pure, lift, ◌>>=◌, ◌>>◌, bucket_at, put_bucket, choose_in, perm_choose_in, read, write,
  type_of, int_eq, collides,
}
use kmod_ceph.Crush.State.Returns.{Returns, Returns-pure, Returns-bind}

-- An item of a bucket of rank `r`: a device, or a bucket of a lower rank that is not 0. A bucket
-- has rank 0 only if it is no item.
abbrev pub Below : (ℕ → ℕ) → ℕ → ℤ → Type 0
Below rank r (pos n) = Unit {0}
Below rank r (negsuc n) = (1 ≤ rank n) × (rank n < r)

-- A bucket of rank `r`; only devices have the type 0.
pub record IsNode (rank : ℕ → ℕ) (big r : ℕ) (b : Bucket) : Type 0 where
  pub usable : IsUsable (Below rank r) b
  pub size_le : b.size ≤ big
  pub typed : 1 ≤ b.type

-- The array has its size, and every bucket of a positive rank is there.
pub record IsWorld (rank : ℕ → ℕ) (cells big : ℕ) (s : St) : Type 0 where
  pub cells_len : length s.mem ≡ cells
  pub node :
      (i : ℕ)
      → 1 ≤ rank i
      → (b : Bucket) × (get_elem? s.buckets i ≡ some (some b)) × IsNode rank big (rank i) b

get_elem?-lt {ℓ} :
    {A : Type ℓ} (xs : List A) (i : ℕ) (v : A) → get_elem? xs i ≡ some v → i < length xs
get_elem?-lt [] i v h = cc
get_elem?-lt (x ∷ xs) zero v h = omega arith
get_elem?-lt (x ∷ xs) (suc i) v h = let p = get_elem?-lt xs i v h in omega (arith, p)

module _ (rank : ℕ → ℕ) (cells big : ℕ) where
  abbrev I : St → Type 0
  I s = IsWorld rank cells big s

  pub read-Returns : (i : ℕ) → i < cells → Returns I (read i) (λ v. Unit {0})
  unfolding read
  read-Returns i h s w =
      let (v, e) = get_elem?-some s.mem i (omega (arith, w.cells_len, h)) in
      ((v, s), rw (load-some s.mem i v e) refl, w, tt)

  pub write-Returns : (i : ℕ) (v : ℤ) → i < cells → Returns I (write i v) (λ u. Unit {0})
  unfolding write
  write-Returns i v h s w = (
    (tt, record s { mem = set s.mem i v }),
    rw (write, store-ok s.mem i v (omega (arith, w.cells_len, h))) refl,
    record { cells_len = length-set s.mem i v ∙ w.cells_len; node = w.node },
    tt,
  )

  pub bucket_at-run :
      (i : ℕ) (s : St) (b : Bucket)
      → get_elem? s.buckets i ≡ some (some b)
      → bucket_at i s ≡ ok (b, s)
  unfolding bucket_at
  bucket_at-run i s b e = rw (bucket_at, e) refl

  pub put_bucket-IsWorld :
      (i : ℕ) (b b' : Bucket) (s : St)
      → I s
      → get_elem? s.buckets i ≡ some (some b)
      → IsNode rank big (rank i) b'
      → I (record s { buckets = set s.buckets i (some b') })
  put_bucket-IsWorld i b b' s w e good = record {
    cells_len = w.cells_len;
    node = λ j h. elim (ℕ_discrete i j) [
      | yes same ↦ (
        b',
        ap (λ (t : ℕ). get_elem? (set s.buckets i (some b')) t) (sym same)
            ∙ get_elem?-set_self s.buckets i (some b') (get_elem?-lt s.buckets i (some b) e),
        subst (λ (t : ℕ). IsNode rank big (rank t) b') same good,
      )
      | no apart ↦
          let (c, e', n) = w.node j h in
          (c, get_elem?-set_ne s.buckets {i = i} {j = j} (some b') apart ∙ e', n)
    ];
  }

  -- A choice in a bucket of the map that has items.
  abbrev pub Chooses : ℕ → St → M ℤ → Type 0
  Chooses i s m = (p : ℤ × St) × (m s ≡ ok p) × I p.1 × Below rank (rank i) p.0

  put_chosen :
      (i : ℕ) (b : Bucket) (s : St) (f : Bucket → Outcome (ℤ × Bucket))
      → I s
      → get_elem? s.buckets i ≡ some (some b)
      → IsNode rank big (rank i) b
      → Answers (Below rank (rank i)) b (f b)
      → Chooses i s (do b ← bucket_at i; p ← lift (f b); put_bucket i p.1; pure p.0)
  unfolding put_bucket
  put_chosen i b s f w e n (p, e', below, u, es, et) = (
    (p.0, record s { buckets = set s.buckets i (some p.1) }),
    rw (◌>>=◌, bucket_at-run i s b e, e') refl,
    put_bucket-IsWorld i b p.1 s w e (record {
      usable = u;
      size_le = omega (arith, n.size_le, es);
      typed = omega (arith, n.typed, et);
    }),
    below,
  )

  pub choose_in-Chooses :
      (i x r : ℕ) (b : Bucket) (s : St)
      → I s
      → get_elem? s.buckets i ≡ some (some b)
      → IsNode rank big (rank i) b
      → IsSized b
      → Chooses i s (choose_in i x r)
  unfolding choose_in
  choose_in-Chooses i x r b s w e n sized =
      put_chosen i b s (λ b. bucket_choose b x r) w e n
        (bucket_choose-Answers (Below rank (rank i)) b n.usable x r sized)

  pub perm_choose_in-Chooses :
      (i x r : ℕ) (b : Bucket) (s : St)
      → I s
      → get_elem? s.buckets i ≡ some (some b)
      → IsNode rank big (rank i) b
      → IsSized b
      → Chooses i s (perm_choose_in i x r)
  unfolding perm_choose_in
  perm_choose_in-Chooses i x r b s w e n sized =
      put_chosen i b s (λ b. bucket_perm_choose b x r) w e n
        (bucket_perm_choose-Answers (Below rank (rank i)) b n.usable x r sized)

  pub collides-Returns :
      (left i : ℕ) (item : ℤ) → i + left ≤ cells → Returns I (collides left i item) (λ b. Unit {0})
  unfolding collides
  collides-Returns zero i item h = Returns-pure I false _ tt
  collides-Returns (suc left) i item h =
      Returns-bind I (read i) _ (λ v. Unit {0}) _ (read-Returns i (omega arith))
        λ v u. elim (Bool-cases (int_eq v item)) [
          | inl hit ↦ rw hit (Returns-pure I true _ tt)
          | inr miss ↦ rw miss (collides-Returns left (i + 1) item (omega arith))
        ]

  -- The type of a bucket is positive.
  abbrev pub TypeOk : ℤ → ℕ → Type 0
  TypeOk (pos n) t = Unit {0}
  TypeOk (negsuc n) t = 1 ≤ t

  pub type_of-Returns :
      (r : ℕ) (item : ℤ) → Below rank r item → Returns I (type_of item) (TypeOk item)
  unfolding type_of
  type_of-Returns r (pos n) h s w = ((0, s), refl, w, tt)
  type_of-Returns r (negsuc n) h s w =
      let (b, e, node) = w.node n h.0 in
      ((b.type, s), rw (◌>>=◌, bucket_at-run n s b e) refl, w, node.typed)
