-- ===== src/Crush/Bucket/Usable.antt =====
-- Buckets on which every choice returns an item.
use kmod_ceph.Base.{
  ℕ, zero, suc, ◌+◌, ◌%◌, ◌*◌, ◌≤◌, ◌<◌, ◌≡◌, ◌⊎◌, inl, inr, refl, arith, false, List, get_elem?,
  length, some, Bool-cases, ltb, ◌==◌, ◌||◌, if◌then◌else◌, bit_and, ◌>>>◌,
}
use kmod_ceph.Base.Int.{ℤ}
use kmod_ceph.Crush.Hash.{hash32_3, hash32_4}
use kmod_ceph.Crush.Outcome.{Outcome, ok, load, ◌>>=◌}
use kmod_ceph.Crush.Types.{Alg, uniform, list, tree, straw, other, Bucket}
use kmod_ceph.Crush.Bucket.{
  bucket_choose, choose_by, bucket_perm_choose, bucket_list_choose, list_loop, bucket_straw_choose,
  straw_loop, to_u32,
}
use kmod_ceph.Crush.Bucket.Perm.{perm_at, load-some}
use kmod_ceph.Crush.Bucket.Cache.{IsSized, IsCached, bucket_perm_choose-Chosen, get_elem?-some}

-- The arrays of the algorithm are as long as the items. Tree buckets are left out.
abbrev pub IsKind : Alg → ℕ → Type 0
IsKind (uniform w) size = Unit {0}
IsKind (list item_weights sum_weights) size =
    (length item_weights ≡ size) × (length sum_weights ≡ size)
IsKind (tree n w) size = ⊥
IsKind (straw item_weights straws) size = length straws ≡ size
IsKind (other n) size = Unit {0}

-- The items satisfy `P`.
pub record IsUsable (P : ℤ → Type 0) (b : Bucket) : Type 0 where
  pub sized : (b.size ≡ 0) ⊎ IsSized b
  pub cached : IsCached b
  pub kind : IsKind b.alg b.size
  pub items : (k : ℕ) (item : ℤ) → get_elem? b.items k ≡ some item → P item

-- A choice: an item of the bucket, and the bucket as it is after it.
abbrev pub Answers : (P : ℤ → Type 0) (b : Bucket) → Outcome (ℤ × Bucket) → Type 0
Answers P b m =
    (p : ℤ × Bucket) × (m ≡ ok p)
    × P p.0
    × IsUsable P p.1
    × (p.1.size ≡ b.size)
    × (p.1.type ≡ b.type)

module _ (P : ℤ → Type 0) (b : Bucket) (u : IsUsable P b) (x r : ℕ) (sized : IsSized b) where
  pub bucket_perm_choose-Answers : Answers P b (bucket_perm_choose b x r)
  bucket_perm_choose-Answers =
      let c = bucket_perm_choose-Chosen b x r sized u.cached in
      (
        (c.item, record b { perm_x = c.cache_x; perm_n = c.cache_n; perm = c.cache }),
        c.result,
        u.items (perm_at b x (r % b.size + 1) (r % b.size)) c.item c.at_place,
        record {
          sized = inr (record {
            nonempty = sized.nonempty;
            below_magic = sized.below_magic;
            items_len = sized.items_len;
            perm_len = c.cache_len;
          });
          cached = c.cached;
          kind = u.kind;
          items = u.items;
        },
        refl,
        refl,
      )

  -- A run that gives the item at some place.
  abbrev Picks : Outcome ℤ → Type 0
  Picks m = (item : ℤ) × (k : ℕ) × (m ≡ ok item) × (get_elem? b.items k ≡ some item)

  Picks-load : (k : ℕ) → k < b.size → Picks (load b.items k)
  Picks-load k h =
      let (v, e) = get_elem?-some b.items k (omega (arith, sized.items_len, h)) in
      (v, k, load-some b.items k v e, e)

  list_loop-Picks :
      (item_weights sum_weights : List ℕ) (i : ℕ)
      → length item_weights ≡ b.size
      → length sum_weights ≡ b.size
      → i ≤ b.size
      → Picks (list_loop b item_weights sum_weights x r i)
  unfolding list_loop
  list_loop-Picks iw sw zero hi hs h = Picks-load 0 (omega (arith, sized.nonempty))
  list_loop-Picks iw sw (suc i) hi hs h =
      let (item, k, e, at) = Picks-load i (omega arith) in
      let (s, es) = get_elem?-some sw i (omega arith) in
      let (w, ew) = get_elem?-some iw i (omega arith) in
      let (item', k', e', at') = list_loop-Picks iw sw i hi hs (omega arith) in
      elim (Bool-cases
        (ltb ((bit_and (hash32_4 b.hash x (to_u32 item) r (to_u32 b.id)) 0xffff * s) >>> 16) w)) [
          | inl hit ↦ (item, k, rw (e, load-some sw i s es, load-some iw i w ew, hit) refl, at)
          | inr miss ↦ (item', k', rw (e, load-some sw i s es, load-some iw i w ew, miss) e', at')
        ]

  straw_loop-lt :
      (straws : List ℕ) (left i high high_draw : ℕ)
      → length straws ≡ b.size
      → i + left ≤ b.size
      → high < b.size
      → (n : ℕ) × (straw_loop b straws x r left i high high_draw ≡ ok n) × (n < b.size)
  unfolding straw_loop
  straw_loop-lt straws zero i high high_draw hs le lt = (high, refl, lt)
  straw_loop-lt straws (suc left) i high high_draw hs le lt =
      let (item, e) = get_elem?-some b.items i (omega (arith, sized.items_len, le)) in
      let (len, e') = get_elem?-some straws i (omega arith) in
      let draw = bit_and (hash32_3 b.hash x (to_u32 item) r) 0xffff * len in
      let (n, e2, lt') =
        straw_loop-lt straws left (i + 1) (if i == 0 || ltb high_draw draw then i else high)
          (if i == 0 || ltb high_draw draw then draw else high_draw) hs (omega arith)
          (ground arith) in
      (n, rw (load-some b.items i item e, load-some straws i len e') e2, lt')

  bucket_straw_choose-Picks :
      (straws : List ℕ) → length straws ≡ b.size → Picks (bucket_straw_choose b straws x r)
  unfolding bucket_straw_choose
  bucket_straw_choose-Picks straws hs =
      let (n, e, lt) =
        straw_loop-lt straws b.size 0 0 0 hs (omega arith) (omega (arith, sized.nonempty)) in
      let (v, k, e', at) = Picks-load n lt in (v, k, rw e e', at)

  Answers-keep : (m : Outcome ℤ) → Picks m → Answers P b (m >>= λ item. ok (item, b))
  Answers-keep m (v, k, e, at) = ((v, b), rw e refl, u.items k v at, u, refl, refl)

  choose_by-Answers : (alg : Alg) → IsKind alg b.size → Answers P b (choose_by alg b x r)
  unfolding choose_by bucket_list_choose
  choose_by-Answers (uniform w) k = bucket_perm_choose-Answers
  choose_by-Answers (list iw sw) k =
      Answers-keep _ (list_loop-Picks iw sw b.size k.0 k.1 (omega arith))
  choose_by-Answers (tree n w) k = absurd k
  choose_by-Answers (straw iw straws) k = Answers-keep _ (bucket_straw_choose-Picks straws k)
  choose_by-Answers (other n) k = Answers-keep _ (Picks-load 0 (omega (arith, sized.nonempty)))

  -- `crush_bucket_choose` on a bucket that has 1 to 0xfffe items, a cache in order and whose arrays are as long as they should be
  -- answers, for any x and r, with an item of the bucket; the bucket after it is still in order, with
  -- the same size and type. Tree buckets are left out.
  pub bucket_choose-Answers : Answers P b (bucket_choose b x r)
  unfolding bucket_choose
  bucket_choose-Answers =
      let full : (b.size == 0) ≡ false = (let h = sized.nonempty in ground arith) in
      rw full (choose_by-Answers b.alg u.kind)
