-- ===== src/Crush/Firstn/Total.antt =====
-- `crush_choose_firstn` returns on a map whose buckets form no cycle, with enough fuel.

use mathlib.Core.Bool.{false≢true}
use native.Mathlib.Nat.{mul-le-mul_right}
use kmod_ceph.Base.{
  ℕ, zero, suc, ◌+◌, ◌-◌, ◌*◌, ◌≤◌, ◌<◌, ◌≡◌, ◌⊎◌, inl, inr, ◌∙◌, refl, sym, Option, none, some,
  get_elem?, length, arith, ltb, leb, ◌==◌, false, true, Bool, Bool-cases, if◌then◌else◌, not, ◌&&◌,
  ◌||◌, u32, ◌^◌,
}
use kmod_ceph.Base.Int.{ℤ, pos, negsuc}
use kmod_ceph.Crush.Outcome.{ok}
use kmod_ceph.Crush.Types.{Bucket}
use kmod_ceph.Crush.Bucket.{is_out}
use kmod_ceph.Crush.Bucket.Cache.{IsSized}
use kmod_ceph.Crush.State.{
  St, M, ◌>>=◌, choose_in, perm_choose_in, write, type_of, int_eq, collides,
}
use kmod_ceph.Crush.State.Returns.{Returns, Returns-pure, Returns-bind, Returns-lift}
use kmod_ceph.Crush.Firstn.{
  Config, Args, Verdict, descend, skip, accept, refuse, at_least, wrong_type, leaf_args, no_leaf,
  check_leaf, check_out, try_item, classify, attempt, use_fallback, retry_local, follow,
  search_item, place, replicas, choose_firstn,
}
use kmod_ceph.Crush.Firstn.World.{
  Below, IsNode, IsWorld, write-Returns, bucket_at-run, Chooses, choose_in-Chooses,
  perm_choose_in-Chooses, collides-Returns, TypeOk, type_of-Returns,
}
use kmod_ceph.Crush.Firstn.Placed.{Placed, IsApart, choose_firstn-Placed}
use kmod_ceph.Crush.Firstn.Fuel.{
  is_out-ok, local_rounds, rounds_left, enough, rounds_left-local, rounds_left-descent,
  retry_local-le,
}

abbrev U : {A : Type 0} → A → Type 0
U a = Unit {0}

-- The arguments of a call that returns: its places are in the array, its bucket is in the map.
pub record IsCall (rank : ℕ → ℕ) (cells tries : ℕ) (a : Args) : Type 0 where
  pub bucket_there : 1 ≤ rank a.bucket
  pub outpos_le : a.outpos ≤ a.numrep
  pub room : a.out + a.numrep ≤ cells
  pub tries_le : a.tries ≤ tries

module _ (rank : ℕ → ℕ) (cells big top : ℕ) (c : Config) (ranked : (i : ℕ) → rank i ≤ top)
    (weights : c.weight_max ≤ length c.weight) where
  abbrev I : St → Type 0
  I s = IsWorld rank cells big s

  abbrev LeafReturns : (Args → M ℕ) → ℕ → Type 0
  LeafReturns sub tries =
      (a : Args) → IsCall rank cells tries a → a.recurse_to_leaf ≡ false → Returns I (sub a) U

  -- What a verdict says about the next round.
  abbrev Leads : ℕ → Verdict → Type 0
  Leads cur (descend n) = (1 ≤ rank n) × (rank n < rank cur)
  Leads cur skip = Unit {0}
  Leads cur (accept item) = Unit {0}
  Leads cur (refuse collide size) = size ≤ big

  module _ (sub : Args → M ℕ) (a : Args) (tries : ℕ) (call : IsCall rank cells tries a)
      (fits : tries + local_rounds c big + 1 < 2 ^ 32)
      (leaf : (a.recurse_to_leaf ≡ false)
        ⊎ (LeafReturns sub tries × (a.out2 + a.numrep ≤ cells) × (a.recurse_tries ≤ tries))) where
    no_leaf-Returns :
        (outpos r : ℕ) (item : ℤ) (q : ℕ)
        → outpos < a.numrep
        → a.recurse_to_leaf ≡ true
        → Below rank q item
        → Returns I (no_leaf sub c a outpos item r) U
    unfolding no_leaf
    no_leaf-Returns outpos r (negsuc n) q lt t below = elim leaf [
      | inl f ↦ absurd (false≢true (sym f ∙ t))
      | inr (returns, room, le) ↦
          Returns-bind I (sub (leaf_args c a outpos n r)) _ U _
            (returns (leaf_args c a outpos n r)
              (record {
                bucket_there = below.0;
                outpos_le = omega arith;
                room = omega arith;
                tries_le = le;
              })
              refl)
            λ got u. Returns-pure I (leb got outpos) _ tt
    ]
    no_leaf-Returns outpos r (pos n) q lt t below = elim leaf [
      | inl f ↦ absurd (false≢true (sym f ∙ t))
      | inr (returns, room, le) ↦
          Returns-bind I (write (a.out2 + outpos) (pos n)) _ U _
            (write-Returns rank cells big (a.out2 + outpos) (pos n) (omega arith))
            λ w u. Returns-pure I false _ tt
    ]

    check_leaf-Returns :
        (outpos r : ℕ) (collide : Bool) (item : ℤ) (q : ℕ)
        → outpos < a.numrep
        → Below rank q item
        → Returns I (check_leaf sub c a outpos collide item r) U
    unfolding check_leaf
    check_leaf-Returns outpos r collide item q lt below =
        elim (Bool-cases (not collide && a.recurse_to_leaf)) [
          | inl go ↦ rw go (no_leaf-Returns outpos r item q lt (ground arith) below)
          | inr stop ↦ rw stop (Returns-pure I false _ tt)
        ]

    check_out-Returns :
        (item : ℤ) (t : ℕ) (missing : Bool)
        → TypeOk rank cells big item t
        → Returns I (check_out c item t missing) U
    unfolding check_out
    check_out-Returns item t true typed = Returns-pure I true _ tt
    check_out-Returns (negsuc n) t false typed =
        let bucket : (t == 0) ≡ false = ground arith in rw bucket (Returns-pure I false _ tt)
    check_out-Returns (pos n) t false typed = elim (Bool-cases (t == 0)) [
      | inl device ↦
          let (v, e) = is_out-ok c.weight c.weight_max n c.x weights in
          rw device (Returns-lift I (is_out c.weight c.weight_max (pos n) c.x) v _ e tt)
      | inr other ↦ rw other (Returns-pure I false _ tt)
    ]

    try_item-Returns :
        (outpos r size : ℕ) (item : ℤ) (t cur : ℕ)
        → outpos < a.numrep
        → size ≤ big
        → Below rank (rank cur) item
        → TypeOk rank cells big item t
        → Returns I (try_item sub c a outpos r size item t) (Leads cur)
    unfolding try_item
    try_item-Returns outpos r size item t cur lt le below typed =
        Returns-bind I (collides outpos a.out item) _ U _
          (collides-Returns rank cells big outpos a.out item (omega (arith, call.room)))
          λ collide u.
            Returns-bind I (check_leaf sub c a outpos collide item r) _ U _
              (check_leaf-Returns outpos r collide item (rank cur) lt below)
              λ missing u.
                Returns-bind I (check_out c item t missing) _ U _
                  (check_out-Returns item t missing typed)
                  λ reject u. Returns-pure I _ _ (verdict reject collide)
      where
        verdict :
            (reject collide : Bool)
            → Leads cur (if reject || collide then refuse collide size else accept item)
        verdict true collide = le
        verdict false true = le
        verdict false false = tt

    wrong_type-Returns :
        (item : ℤ) (cur : ℕ)
        → Below rank (rank cur) item
        → Returns I (wrong_type c item) (Leads cur)
    unfolding wrong_type
    wrong_type-Returns (pos n) cur below = Returns-pure I skip _ tt
    wrong_type-Returns (negsuc n) cur below = elim (Bool-cases (leb c.max_buckets n)) [
      | inl past ↦ rw past (Returns-pure I skip _ tt)
      | inr inside ↦ rw inside (Returns-pure I (descend n) (Leads cur) below)
    ]

    classify-Returns :
        (outpos r size : ℕ) (item : ℤ) (cur : ℕ)
        → outpos < a.numrep
        → size ≤ big
        → Below rank (rank cur) item
        → Returns I (classify sub c a outpos r size item) (Leads cur)
    unfolding classify
    classify-Returns outpos r size item cur lt le below =
        elim (Bool-cases (at_least item c.max_devices)) [
          | inl past ↦ rw past (Returns-pure I skip _ tt)
          | inr small ↦ rw small (
              Returns-bind I (type_of item) _ (TypeOk rank cells big item) _
                (type_of-Returns rank cells big (rank cur) item below)
                λ t typed. elim (Bool-cases (int_eq (pos t) a.type)) [
                  | inl fits ↦ rw fits (try_item-Returns outpos r size item t cur lt le below typed)
                  | inr other ↦ rw other (wrong_type-Returns item cur below)
                ])
        ]

    attempt-Returns :
        (rep outpos ftotal flocal cur : ℕ)
        → outpos < a.numrep
        → 1 ≤ rank cur
        → Returns I (attempt sub c a rep outpos ftotal flocal cur) (Leads cur)
    unfolding attempt
    attempt-Returns rep outpos ftotal flocal cur lt there s w =
        let (b, e, n) = w.node cur there in
        let run = bucket_at-run rank cells big cur s b e in
        elim n.usable.sized [
          | inl empty ↦
              let z : (b.size == 0) ≡ true = ground arith in
              ((refuse false 0, s), rw (◌>>=◌, run, z) refl, w, omega arith)
          | inr sized ↦
              let z : (b.size == 0) ≡ false = (let h = sized.nonempty in ground arith) in
              let (p, e1, w1, below) = chooser (u32 (rep + a.parent_r + ftotal)) b s w e n sized in
              let (q, e2, w2, leads) =
                classify-Returns outpos (u32 (rep + a.parent_r + ftotal)) b.size p.0 cur lt
                  n.size_le below p.1 w1 in
              (q, rw (◌>>=◌, run, z, e1) e2, w2, leads)
        ]
      where
        chooser :
            (r : ℕ) (b : Bucket) (s : St)
            → I s
            → get_elem? s.buckets cur ≡ some (some b)
            → IsNode rank big (rank cur) b
            → IsSized b
            → Chooses rank cells big cur s (
                if use_fallback c b.size flocal
                then perm_choose_in cur c.x r
                else choose_in cur c.x r)
        chooser r b s w e n sized = elim (Bool-cases (use_fallback c b.size flocal)) [
          | inl f ↦ rw f (perm_choose_in-Chooses rank cells big cur c.x r b s w e n sized)
          | inr f ↦ rw f (choose_in-Chooses rank cells big cur c.x r b s w e n sized)
        ]

    abbrev left_of : ℕ → ℕ → ℕ → ℕ
    left_of ftotal flocal r = rounds_left (local_rounds c big) top a.tries ftotal flocal r

    -- The counters of a search, which stay in their 32 bits.
    abbrev Counted : ℕ → ℕ → Type 0
    Counted ftotal flocal = (flocal ≤ local_rounds c big) × (ftotal ≤ tries + flocal)

    follow-Returns :
        (again : ℕ → ℕ → ℕ → M (Option ℤ)) (ftotal flocal cur : ℕ) (v : Verdict)
        → 1 ≤ rank cur
        → Counted ftotal flocal
        → ((t l i : ℕ)
            → 1 ≤ rank i
            → Counted t l
            → left_of t l (rank i) < left_of ftotal flocal (rank cur)
            → Returns I (again t l i) U)
        → Leads cur v
        → Returns I (follow c a again ftotal flocal cur v) U
    unfolding follow
    follow-Returns again ftotal flocal cur (descend n) there counted ih leads =
        ih ftotal flocal n leads.0 counted (omega (arith, leads.1))
    follow-Returns again ftotal flocal cur skip there counted ih leads = Returns-pure I none _ tt
    follow-Returns again ftotal flocal cur (accept item) there counted ih leads =
        Returns-pure I (some item) _ tt
    follow-Returns again ftotal flocal cur (refuse collide size) there (lo, hi) ih leads =
        let e : u32 (flocal + 1) ≡ flocal + 1 = omega (arith, fits, lo, hi) in
        let e' : u32 (ftotal + 1) ≡ ftotal + 1 = omega (arith, fits, lo, hi) in
        elim (Bool-cases (retry_local c collide size (flocal + 1))) [
          | inl near ↦
              let le = retry_local-le c collide big size (flocal + 1) leads near in
              rw (e, e', near)
                (ih (ftotal + 1) (flocal + 1) cur there (le, omega (arith, hi))
                  (rounds_left-local (local_rounds c big) top a.tries ftotal flocal (rank cur) le
                    (ranked cur)))
          | inr far ↦ elim (Bool-cases (ltb (ftotal + 1) a.tries)) [
            | inl more ↦
                let less : ftotal + 1 < a.tries = ground arith in
                rw (e, e', far, more)
                  (ih (ftotal + 1) 0 a.bucket call.bucket_there
                    (omega arith, omega (arith, call.tries_le, less))
                    (rounds_left-descent (local_rounds c big) top a.tries ftotal flocal (rank cur)
                      (rank a.bucket) less (ranked a.bucket)))
            | inr last ↦ rw (e, e', far, last) (Returns-pure I none _ tt)
          ]
        ]

    search_item-Returns :
        (rep outpos fuel ftotal flocal cur : ℕ)
        → outpos < a.numrep
        → 1 ≤ rank cur
        → Counted ftotal flocal
        → left_of ftotal flocal (rank cur) < fuel
        → Returns I (search_item sub c a rep outpos fuel ftotal flocal cur) U
    unfolding search_item
    search_item-Returns rep outpos zero ftotal flocal cur lt there counted h = absurd (omega arith)
    search_item-Returns rep outpos (suc fuel) ftotal flocal cur lt there counted h =
        Returns-bind I (attempt sub c a rep outpos ftotal flocal cur) _ (Leads cur) _
          (attempt-Returns rep outpos ftotal flocal cur lt there)
          λ v leads.
            follow-Returns (search_item sub c a rep outpos fuel) ftotal flocal cur v there counted
              (λ t l i p n less. search_item-Returns rep outpos fuel t l i lt p n (omega arith))
              leads

    place-Returns :
        (next : ℕ → M ℕ) (outpos : ℕ) (found : Option ℤ)
        → outpos < a.numrep
        → ((o : ℕ) → o ≤ outpos + 1 → Returns I (next o) U)
        → Returns I (place a next outpos found) U
    unfolding place
    place-Returns next outpos none lt ih = ih outpos (omega arith)
    place-Returns next outpos (some item) lt ih =
        Returns-bind I (write (a.out + outpos) item) _ U _
          (write-Returns rank cells big (a.out + outpos) item (omega (arith, call.room)))
          λ w u. ih (outpos + 1) (omega arith)

    pub replicas-Returns :
        (fuel left rep outpos : ℕ)
        → left_of 0 0 top < fuel
        → outpos + left ≤ a.numrep
        → Returns I (replicas sub c a fuel left rep outpos) U
    unfolding replicas
    replicas-Returns fuel zero rep outpos h le = Returns-pure I outpos _ tt
    replicas-Returns fuel (suc left) rep outpos h le =
        Returns-bind I (search_item sub c a rep outpos fuel 0 0 a.bucket) _ U _
          (search_item-Returns rep outpos fuel 0 0 a.bucket (omega arith) call.bucket_there
            (omega arith, omega arith) (omega (arith, ranked a.bucket)))
          λ found u.
            place-Returns (replicas sub c a fuel left (rep + 1)) outpos found (omega arith)
              λ o o_le. replicas-Returns fuel left (rep + 1) o h (omega arith)

  rounds-enough :
      (tries fuel : ℕ) (a : Args)
      → a.tries ≤ tries
      → enough c big top tries ≤ fuel
      → rounds_left (local_rounds c big) top a.tries 0 0 top < fuel
  rounds-enough tries fuel a le h =
      let p = mul-le-mul_right (suc (local_rounds c big)) le in
      let q : a.tries * suc (local_rounds c big) + local_rounds c big
          ≤ tries * suc (local_rounds c big) + local_rounds c big =
        omega arith in
      let r = mul-le-mul_right (suc top) q in
      let z : a.tries - 0 ≡ a.tries = omega arith in
      let z' : local_rounds c big - 0 ≡ local_rounds c big = omega arith in
      rw (z, z') (omega (arith, r, h))

  -- A call that looks for no leaves.
  flat-Returns :
      (depth fuel tries : ℕ)
      → enough c big top tries ≤ fuel
      → tries + local_rounds c big + 1 < 2 ^ 32
      → LeafReturns (choose_firstn (suc depth) c fuel) tries
  unfolding choose_firstn
  flat-Returns depth fuel tries h fits a call flat =
      replicas-Returns (choose_firstn depth c fuel) a tries call fits (inl flat) fuel
        (a.numrep - a.outpos) a.outpos a.outpos (rounds-enough tries fuel a call.tries_le h)
        (omega (arith, call.outpos_le))

  pub choose_firstn-Returns :
      (fuel tries : ℕ) (a : Args)
      → enough c big top tries ≤ fuel
      → tries + local_rounds c big + 1 < 2 ^ 32
      → IsCall rank cells tries a
      → (a.recurse_to_leaf ≡ false) ⊎ ((a.out2 + a.numrep ≤ cells) × (a.recurse_tries ≤ tries))
      → Returns I (choose_firstn 2 c fuel a) U
  unfolding choose_firstn
  choose_firstn-Returns fuel tries a h fits call leaf =
      replicas-Returns (choose_firstn 1 c fuel) a tries call fits
        (elim leaf [ inl f ↦ inl f | inr l ↦ inr (flat-Returns 0 fuel tries h fits, l.0, l.1) ])
        fuel (a.numrep - a.outpos) a.outpos a.outpos (rounds-enough tries fuel a call.tries_le h)
        (omega (arith, call.outpos_le))

-- What a call of `crush_choose_firstn` needs. Each bucket of the map has a rank, which falls from a
-- bucket to the buckets in it, so that they form no cycle; no size is above `big`. The tries, the
-- retries and `big` are small enough for counters of 32 bits: with local_retries 0xffffffff a
-- collision that stays would be retried for ever. The fuel grows with the tries, the retries, the
-- sizes and the ranks.
pub record IsReady (rank : ℕ → ℕ) (cells big top : ℕ) (c : Config) (fuel : ℕ) (a : Args) (s : St)
    : Type 0 where
  pub ranked : (i : ℕ) → rank i ≤ top
  pub weights : c.weight_max ≤ length c.weight
  pub world : IsWorld rank cells big s
  pub call : IsCall rank cells (a.tries + a.recurse_tries) a
  pub leaf_room : (a.recurse_to_leaf ≡ false) ⊎ (a.out2 + a.numrep ≤ cells)
  pub apart : IsApart a a.numrep
  pub counters_fit : a.tries + a.recurse_tries + local_rounds c big + 1 < 2 ^ 32
  pub fuel_enough : enough c big top (a.tries + a.recurse_tries) ≤ fuel

-- On a map whose buckets have sizes below 0xffff, arrays of their sizes, caches in order and positive
-- types, form no cycle and are no trees, with a weight vector of its length, room for the output and
-- for the leaves apart from it, and tries, recursive tries, local retries, local fallback retries
-- and the largest size that together stay below 2 ^ 32 - 1, `crush_choose_firstn` ends without a fault when it has enough fuel, and the map
-- keeps these properties. What it placed stands from outpos on: at most numrep items
-- in all, each different from every item before it, none past the devices of the map, and none
-- marked out where devices were asked for; no other cell of the array has changed but the leaf
-- places.
pub choose_firstn-total :
    (rank : ℕ → ℕ) (cells big top : ℕ) (c : Config) (fuel : ℕ) (a : Args) (s : St)
    → IsReady rank cells big top c fuel a s
    → (p : ℕ × St) × (choose_firstn 2 c fuel a s ≡ ok p)
      × IsWorld rank cells big p.1
      × Placed c a a.outpos (a.numrep - a.outpos) p.0 s.mem p.1.mem
choose_firstn-total rank cells big top c fuel a s r =
    let leaf : (a.recurse_to_leaf ≡ false)
        ⊎ ((a.out2 + a.numrep ≤ cells) × (a.recurse_tries ≤ a.tries + a.recurse_tries)) =
      elim r.leaf_room [ inl f ↦ inl f | inr l ↦ inr (l, omega arith) ] in
    let (p, e, w, u) =
      choose_firstn-Returns rank cells big top c r.ranked r.weights fuel (a.tries + a.recurse_tries)
        a r.fuel_enough r.counters_fit r.call leaf s r.world in
    (p, e, w, choose_firstn-Placed 2 c fuel a s p r.call.outpos_le r.apart e)
