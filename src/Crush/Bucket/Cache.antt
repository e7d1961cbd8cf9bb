-- ===== src/Crush/Bucket/Cache.antt =====
-- `bucket_perm_choose` with its cache, against the permutation of the input alone.
use native.Mathlib.Nat.{mod-lt}
use kmod_ceph.Base.{
  ℕ, zero, suc, ◌+◌, ◌-◌, ◌%◌, ◌≤◌, ◌<◌, ◌≡◌, ◌∙◌, ◌⊎◌, inl, inr, refl, sym, subst, ap, arith, true,
  false, ltb, leb, ◌==◌, ◌||◌, not, if◌then◌else◌, List, [], ◌∷◌, some, get_elem?, set, length,
  length-set, get_elem?-set_self, get_elem?-set_ne, Bool-cases,
}
use kmod_ceph.Base.Int.{ℤ}
use kmod_ceph.Crush.Hash.{hash32_3}
use kmod_ceph.Crush.Outcome.{ok, store}
use kmod_ceph.Crush.Types.{Bucket}
use kmod_ceph.Crush.Bucket.{swap_offset, perm_finish, bucket_perm_choose, magic, to_u32}
use kmod_ceph.Crush.Bucket.Perm.{
  perm_at, perm_at-lt, perm_at-settled, swap_offset-lt, Holds, load-some, store-ok, perm_loop-Holds,
  fill_perm-at,
}

-- The arrays have their sizes, and the count of rounds does not meet the magic value.
pub record IsSized (b : Bucket) : Type 0 where
  pub nonempty : 1 ≤ b.size
  pub below_magic : b.size < magic
  pub items_len : length b.items ≡ b.size
  pub perm_len : length b.perm ≡ b.size

-- What the cache may hold: nothing, the first place only, or the permutation so far.
abbrev pub IsCached : Bucket → Type 0
IsCached b =
    (b.perm_n ≡ 0)
    ⊎ (((b.perm_n ≡ magic) × (get_elem? b.perm 0 ≡ some (swap_offset b b.perm_x 0)))
        ⊎ ((1 ≤ b.perm_n)
            × (b.perm_n ≤ b.size)
            × Holds b.size b.perm (perm_at b b.perm_x b.perm_n)))

-- The choice: the item at the place that the permutation of `x` has at r % size; the bucket after
-- it has the same items and a cache that is in order.
pub record Chosen (b : Bucket) (x r : ℕ) : Type 0 where
  pub item : ℤ
  pub cache_x : ℕ
  pub cache_n : ℕ
  pub cache : List ℕ
  pub result :
      bucket_perm_choose b x r
      ≡ ok (item, record b { perm_x = cache_x; perm_n = cache_n; perm = cache })
  pub at_place : get_elem? b.items (perm_at b x (r % b.size + 1) (r % b.size)) ≡ some item
  pub cache_len : length cache ≡ b.size
  pub cached : IsCached (record b { perm_x = cache_x; perm_n = cache_n; perm = cache })

pub get_elem?-some {ℓ} :
    {A : Type ℓ} (xs : List A) (i : ℕ) → i < length xs → (v : A) × (get_elem? xs i ≡ some v)
get_elem?-some [] i h = absurd (omega arith)
get_elem?-some (x ∷ xs) zero h = (x, refl)
get_elem?-some (x ∷ xs) (suc i) h = get_elem?-some xs i (omega arith)

-- What `perm_finish` gives from an array in order.
record Finished (b : Bucket) (x pr : ℕ) : Type 0 where
  f_item : ℤ
  f_n : ℕ
  f_cache : List ℕ
  f_result : perm_finish b x pr ≡ ok (f_item, record b { perm_n = f_n; perm = f_cache })
  f_place : get_elem? b.items (perm_at b x (pr + 1) pr) ≡ some f_item
  f_pos : 1 ≤ f_n
  f_le : f_n ≤ b.size
  f_holds : Holds b.size f_cache (perm_at b x f_n)

perm_at-final :
    (b : Bucket) (x n pr : ℕ) → pr < n → n ≤ b.size → perm_at b x n pr ≡ perm_at b x (pr + 1) pr
perm_at-final b x n pr h le =
    let e : pr + 1 + (n - (pr + 1)) ≡ n = omega arith in
    ap (λ (t : ℕ). perm_at b x t pr) (sym e)
    ∙ perm_at-settled b x (pr + 1) (n - (pr + 1)) pr (omega arith) (omega arith)

finish :
    (b : Bucket) (x pr : ℕ)
    → length b.items ≡ b.size
    → pr < b.size
    → b.perm_n ≤ b.size
    → Holds b.size b.perm (perm_at b x b.perm_n)
    → Finished b x pr
finish b x pr items h le v =
    let rounds : ℕ = pr + 1 - b.perm_n in
    let (out, run, w) = perm_loop-Holds b x (pr + 1 - b.perm_n) b.perm_n b.perm (omega arith) v in
    let e : b.perm_n + (pr + 1 - b.perm_n) ≡ (if leb b.perm_n pr then pr + 1 else b.perm_n) =
      ground arith in
    let at : get_elem? out pr ≡ some (perm_at b x (pr + 1) pr) =
      w.at pr h
      ∙ ap some
          (perm_at-final b x (b.perm_n + (pr + 1 - b.perm_n)) pr (omega arith) (omega arith)) in
    let lt : perm_at b x (pr + 1) pr < length b.items =
      omega (arith, items, perm_at-lt b x (pr + 1) pr (omega arith) h) in
    let (item, found) = get_elem?-some b.items (perm_at b x (pr + 1) pr) lt in
    record {
      f_item = item;
      f_n = if leb b.perm_n pr then pr + 1 else b.perm_n;
      f_cache = out;
      f_result =
          unfold perm_finish in
          rw (run, load-some out pr _ at, load-some b.items _ item found) refl;
      f_place = found;
      f_pos = ground arith;
      f_le = ground arith;
      f_holds = rw e at w;
    }

-- The permutation does not depend on the cache.
abbrev with_cache : Bucket → ℕ → ℕ → List ℕ → Bucket
with_cache b px pn pm = record b { perm_x = px; perm_n = pn; perm = pm }

module _ (b : Bucket) (px pn : ℕ) (pm : List ℕ) where
  swap_offset-with_cache : (x p : ℕ) → swap_offset (with_cache b px pn pm) x p ≡ swap_offset b x p
  unfolding swap_offset
  swap_offset-with_cache x p = refl

  perm_at-with_cache : (x n k : ℕ) → perm_at (with_cache b px pn pm) x n k ≡ perm_at b x n k
  unfolding perm_at
  perm_at-with_cache x zero k = refl
  perm_at-with_cache x (suc p) k = rw (swap_offset-with_cache x p) (
      ground (
        arith,
        perm_at-with_cache x p (p + swap_offset b x p),
        perm_at-with_cache x p p,
        perm_at-with_cache x p k,
      ))

  Holds-with_cache :
      (perm : List ℕ) (x n : ℕ)
      → Holds b.size perm (perm_at b x n)
      → Holds b.size perm (perm_at (with_cache b px pn pm) x n)
  Holds-with_cache perm x n v = record {
    len = v.len;
    at = λ k hk. v.at k hk ∙ ap some (sym (perm_at-with_cache x n k));
  }

-- A bucket whose array `perm_finish` may go on from gives a choice.
finish-Chosen :
    (b : Bucket) (x r n : ℕ) (perm : List ℕ)
    → IsSized b
    → n ≤ b.size
    → Holds b.size perm (perm_at b x n)
    → bucket_perm_choose b x r ≡ perm_finish (with_cache b x n perm) x (r % b.size)
    → Chosen b x r
finish-Chosen b x r n perm s le v run =
    let lt : r % b.size < b.size = mod-lt r s.nonempty in
    let f =
      finish (with_cache b x n perm) x (r % b.size) s.items_len lt le
        (Holds-with_cache b x n perm perm x n v) in
    record {
      item = f.f_item;
      cache_x = x;
      cache_n = f.f_n;
      cache = f.f_cache;
      result = run ∙ f.f_result;
      at_place =
          ap (λ (t : ℕ). get_elem? b.items t)
            (sym (perm_at-with_cache b x n perm x (r % b.size + 1) (r % b.size)))
          ∙ f.f_place;
      cache_len = f.f_holds.len;
      cached = inr (
          inr (
            f.f_pos,
            f.f_le,
            record {
              len = f.f_holds.len;
              at = λ k hk.
                  f.f_holds.at k hk
                  ∙ ap some (
                      perm_at-with_cache b x n perm x f.f_n k
                      ∙ sym (perm_at-with_cache b x f.f_n f.f_cache x f.f_n k));
            },
          ));
    }

first_place :
    (b : Bucket) (x pr : ℕ) → IsSized b → pr ≡ 0 → perm_at b x (pr + 1) pr ≡ swap_offset b x 0
unfolding perm_at
first_place b x pr s e = rw e (ground (arith, swap_offset-lt b x 0, s.nonempty))

first_run :
    (b : Bucket) (x r : ℕ)
    → IsSized b
    → (not (b.perm_x == x) || b.perm_n == 0) ≡ true
    → r % b.size ≡ 0
    → (item : ℤ) → get_elem? b.items (swap_offset b x 0) ≡ some item
    → store b.perm 0 (swap_offset b x 0) ≡ ok (set b.perm 0 (swap_offset b x 0))
    → bucket_perm_choose b x r ≡ ok (item, with_cache b x magic (set b.perm 0 (swap_offset b x 0)))
unfolding bucket_perm_choose swap_offset
first_run b x r s new z item found stored =
    let nz : (b.size == 0) ≡ false = ground (arith, s.nonempty) in
    let e : b.size - 0 ≡ b.size = omega arith in
    let stored' : store b.perm 0 (hash32_3 b.hash x (to_u32 b.id) 0 % b.size)
        ≡ ok (set b.perm 0 (hash32_3 b.hash x (to_u32 b.id) 0 % b.size)) =
      rw e at stored in
    let found' : get_elem? b.items (hash32_3 b.hash x (to_u32 b.id) 0 % b.size) ≡ some item =
      rw e at found in
    rw (e, nz, new, z, stored', load-some b.items _ item found') refl

-- The identity with the first place exchanged is one round.
cleaned :
    (b : Bucket) (x : ℕ) (perm : List ℕ)
    → IsSized b
    → length perm ≡ b.size
    → ((k : ℕ)
        → k < b.size
        → get_elem? perm k ≡ (if ltb k 1 then some (swap_offset b x 0) else some k))
    → Holds b.size (set perm (swap_offset b x 0) 0) (perm_at b x 1)
unfolding perm_at
cleaned b x perm s len at = record {
  len = length-set perm (swap_offset b x 0) 0 ∙ len;
  at = λ k hk. ground (
    arith,
    at k hk,
    swap_offset-lt b x 0,
    s.nonempty,
    get_elem?-set_self perm (swap_offset b x 0) 0,
    get_elem?-set_ne perm {i = swap_offset b x 0} {j = k} 0,
  );
}

module _ (b : Bucket) (x r : ℕ) (s : IsSized b) where
  size_nonzero : (b.size == 0) ≡ false
  size_nonzero = ground (arith, s.nonempty)

  fresh_first :
      (not (b.perm_x == x) || b.perm_n == 0) ≡ true → (r % b.size == 0) ≡ true → Chosen b x r
  fresh_first new first =
      let z : r % b.size ≡ 0 = ground arith in
      let place : ℕ = swap_offset b x 0 in
      let store_at : store b.perm 0 (swap_offset b x 0) ≡ ok (set b.perm 0 (swap_offset b x 0)) =
        store-ok b.perm 0 (swap_offset b x 0) (omega (arith, s.perm_len, s.nonempty)) in
      let lt : swap_offset b x 0 < length b.items =
        omega (arith, s.items_len, s.nonempty, swap_offset-lt b x 0) in
      let (item, found) = get_elem?-some b.items (swap_offset b x 0) lt in
      record {
        item = item;
        cache_x = x;
        cache_n = magic;
        cache = set b.perm 0 (swap_offset b x 0);
        result = first_run b x r s new z item found store_at;
        at_place = ap (λ (t : ℕ). get_elem? b.items t) (first_place b x (r % b.size) s z) ∙ found;
        cache_len = length-set b.perm 0 (swap_offset b x 0) ∙ s.perm_len;
        cached = inr (
            inl (
              refl,
              get_elem?-set_self b.perm 0 (swap_offset b x 0)
                    (omega (arith, s.perm_len, s.nonempty))
                  ∙ ap some (
                      sym
                        (swap_offset-with_cache b x magic (set b.perm 0 (swap_offset b x 0)) x 0)),
            ));
      }

  fresh_later :
      (not (b.perm_x == x) || b.perm_n == 0) ≡ true → (r % b.size == 0) ≡ false → Chosen b x r
  unfolding bucket_perm_choose
  fresh_later new later =
      let (perm, run, len, at) = fill_perm-at b.size 0 b.perm (omega (arith, s.perm_len)) in
      let v : Holds b.size perm (perm_at b x 0) = record {
        len = len ∙ s.perm_len;
        at = λ k hk. unfold perm_at in at k (omega (arith, s.perm_len)) ∙ ground arith;
      } in
      finish-Chosen b x r 0 perm s (omega arith) v
        (rw (size_nonzero, new, later, run, bucket_perm_choose) refl)

  -- A new input: the identity is filled in, or the first place alone is worked out.
  fresh : (not (b.perm_x == x) || b.perm_n == 0) ≡ true → Chosen b x r
  fresh new = elim (Bool-cases (r % b.size == 0)) [
    | inl first ↦ fresh_first new first
    | inr later ↦ fresh_later new later
  ]

  -- After the magic value the rest of the identity is put in order.
  after_first :
      (not (b.perm_x == x) || b.perm_n == 0) ≡ false
      → b.perm_n ≡ magic
      → get_elem? b.perm 0 ≡ some (swap_offset b b.perm_x 0)
      → Chosen b x r
  unfolding bucket_perm_choose perm_finish
  after_first old m first =
      let e : b.perm_x ≡ x = ground arith in
      let first' : get_elem? b.perm 0 ≡ some (swap_offset b x 0) =
        subst (λ t. get_elem? b.perm 0 ≡ some (swap_offset b t 0)) e first in
      let (perm, run, len, at) =
        fill_perm-at (b.size - 1) 1 b.perm (omega (arith, s.perm_len, s.nonempty)) in
      let head : get_elem? perm 0 ≡ some (swap_offset b x 0) =
        at 0 (omega (arith, s.perm_len, s.nonempty)) ∙ first' in
      let stored : store perm (swap_offset b x 0) 0 ≡ ok (set perm (swap_offset b x 0) 0) =
        store-ok perm (swap_offset b x 0) 0
          (omega (arith, len, s.perm_len, swap_offset-lt b x 0, s.nonempty)) in
      let v : Holds b.size (set perm (swap_offset b x 0) 0) (perm_at b x 1) =
        cleaned b x perm s (len ∙ s.perm_len)
          (λ k hk. at k (omega (arith, s.perm_len)) ∙ ground (arith, first')) in
      let mm : (b.perm_n == magic) ≡ true = ground arith in
      finish-Chosen b x r 1 (set perm (swap_offset b x 0) 0) s s.nonempty v (
        rw (size_nonzero, old, mm, run, load-some perm 0 _ head, stored, bucket_perm_choose)
          (ap
            (λ (t : ℕ).
              perm_finish (with_cache b t 1 (set perm (swap_offset b x 0) 0)) x (r % b.size))
            e))

  going_on :
      (not (b.perm_x == x) || b.perm_n == 0) ≡ false
      → b.perm_n ≤ b.size
      → Holds b.size b.perm (perm_at b b.perm_x b.perm_n)
      → Chosen b x r
  unfolding bucket_perm_choose perm_finish
  going_on old le v =
      let e : b.perm_x ≡ x = ground arith in
      let nm : (b.perm_n == magic) ≡ false = ground (arith, s.below_magic) in
      finish-Chosen b x r b.perm_n b.perm s le
        (subst (λ t. Holds b.size b.perm (perm_at b t b.perm_n)) e v)
        (rw (size_nonzero, old, nm, bucket_perm_choose)
          (ap (λ (t : ℕ). perm_finish (with_cache b t b.perm_n b.perm) x (r % b.size)) e))

-- For a bucket of 1 to 0xfffe items with arrays of its size, and from a cache in order,
-- `bucket_perm_choose` gives the item that the permutation of the input has
-- at r % size, whatever was asked before, and leaves the cache in order: no array is left, and
-- the cache never shows in a result.
pub bucket_perm_choose-Chosen : (b : Bucket) (x r : ℕ) → IsSized b → IsCached b → Chosen b x r
bucket_perm_choose-Chosen b x r s c = elim (Bool-cases (not (b.perm_x == x) || b.perm_n == 0)) [
  | inl new ↦ fresh b x r s new
  | inr old ↦ elim c [
    | inl none_yet ↦ ground arith
    | inr (inl (m, first)) ↦ after_first b x r s old m first
    | inr (inr (p, le, v)) ↦ going_on b x r s old le v
  ]
]
