-- ===== src/Crush/Firstn/Attempt.antt =====
-- One attempt of `crush_choose_firstn`: what it changes, and what it has checked when it accepts.
use mathlib.Core.Bool.{false≢true}
use kmod_ceph.Base.{
  ℕ, ◌+◌, ◌≤◌, ◌<◌, ◌≡◌, ◌≢◌, ◌⊎◌, inl, inr, ◌∙◌, refl, sym, ap, subst, List, some, get_elem?, set,
  length, length-set, arith, leb, ◌==◌, if◌then◌else◌, Bool, true, false, not, ◌&&◌, ◌||◌,
  Bool-cases, get_elem?-set_ne, u32,
}
use kmod_ceph.Base.Int.{ℤ, pos, negsuc}
use kmod_ceph.Crush.Outcome.{ok}
use kmod_ceph.Crush.Bucket.{is_out}
use kmod_ceph.Crush.State.{
  St, M, pure, bucket_at, choose_in, perm_choose_in, write, type_of, int_eq, collides,
}
use kmod_ceph.Crush.State.Runs.{
  bind-eq-ok, Quiet, Quiet-bucket_at, Quiet-choose_in, Quiet-perm_choose_in, Quiet-type_of,
  collides-false, write-eq, pure-eq, lift-eq,
}
use kmod_ceph.Crush.Firstn.{
  Config, Args, Verdict, descend, skip, accept, refuse, at_least, wrong_type, leaf_args, no_leaf,
  check_leaf, check_out, try_item, classify, attempt, use_fallback,
}

-- The array keeps its length and every cell outside the `out2` places from `lo` to `hi`, which
-- only a call that looks for leaves writes.
abbrev pub OffLeaf : Args → ℕ → ℕ → ℕ → Type 0
OffLeaf a lo hi k = (a.recurse_to_leaf ≡ false) ⊎ ((k < a.out2 + lo) ⊎ (a.out2 + hi ≤ k))

pub record LeafFrame (a : Args) (lo hi : ℕ) (m m' : List ℤ) : Type 0 where
  pub len : length m' ≡ length m
  pub kept : (k : ℕ) → OffLeaf a lo hi k → get_elem? m' k ≡ get_elem? m k

pub LeafFrame-of_eq : (a : Args) (lo hi : ℕ) {m m' : List ℤ} → m' ≡ m → LeafFrame a lo hi m m'
LeafFrame-of_eq a lo hi e = record { len = ap length e; kept = λ k o. ap (λ t. get_elem? t k) e }

pub LeafFrame-trans :
    (a : Args) (lo hi : ℕ) {m m' m'' : List ℤ}
    → LeafFrame a lo hi m m'
    → LeafFrame a lo hi m' m''
    → LeafFrame a lo hi m m''
LeafFrame-trans a lo hi f g = record { len = g.len ∙ f.len; kept = λ k o. g.kept k o ∙ f.kept k o }

-- What the inner call for a leaf is known to do: it writes its own output places only.
abbrev pub LeavesRest : (Args → M ℕ) → Type 0
LeavesRest sub =
    (a : Args) (s : St) (p : ℕ × St)
    → a.recurse_to_leaf ≡ false
    → a.outpos ≤ a.numrep
    → sub a s ≡ ok p
    → (length p.1.mem ≡ length s.mem)
      × ((k : ℕ)
          → (k < a.out + a.outpos) ⊎ (a.out + a.numrep ≤ k)
          → get_elem? p.1.mem k ≡ get_elem? s.mem k)

-- An item that may be placed: a device of the map that is not marked out if devices are looked
-- for, and in any case no item past the devices.
pub record IsGood (c : Config) (a : Args) (item : ℤ) : Type 0 where
  pub in_range : at_least item c.max_devices ≡ false
  pub not_out : a.type ≡ pos 0 → is_out c.weight c.weight_max item c.x ≡ ok false

abbrev pub Accepted : Config → Args → ℕ → List ℤ → Verdict → Type 0
Accepted c a outpos m (accept item) =
    IsGood c a item × ((i : ℕ) → i < outpos → get_elem? m (a.out + i) ≢ some item)
Accepted c a outpos m (descend n) = Unit {0}
Accepted c a outpos m skip = Unit {0}
Accepted c a outpos m (refuse collide size) = Unit {0}

module _ (sub : Args → M ℕ) (rest : LeavesRest sub) (c : Config) (a : Args) (outpos : ℕ) where
  no_leaf-frame :
      (item : ℤ) (r : ℕ) (s : St) (p : Bool × St)
      → a.recurse_to_leaf ≡ true
      → no_leaf sub c a outpos item r s ≡ ok p
      → LeafFrame a outpos (outpos + 1) s.mem p.1.mem
  unfolding no_leaf
  no_leaf-frame (negsuc n) r s p t h =
      let (q, e, h') =
        bind-eq-ok (sub (leaf_args c a outpos n r)) (λ got. pure (leb got outpos)) s p h in
      let f = rest (leaf_args c a outpos n r) s q refl (omega arith) e in
      let same : p.1.mem ≡ q.1.mem = ap (λ u. u.mem) (pure-eq (leb q.0 outpos) q.1 p h').1 in
      record {
        len = ap length same ∙ f.0;
        kept = λ k o.
            ap (λ u. get_elem? u k) same
            ∙ f.1 k (elim o [ inl z ↦ absurd (false≢true (sym z ∙ t)) | inr w ↦ w ]);
      }
  no_leaf-frame (pos n) r s p t h =
      let (q, e, h') = bind-eq-ok (write (a.out2 + outpos) (pos n)) (λ u. pure false) s p h in
      let w = write-eq (a.out2 + outpos) (pos n) s q e in
      let same : p.1.mem ≡ set s.mem (a.out2 + outpos) (pos n) =
        ap (λ u. u.mem) (pure-eq false q.1 p h').1 ∙ w.1 in
      record {
        len = ap length same ∙ length-set s.mem (a.out2 + outpos) (pos n);
        kept = λ k o.
            ap (λ u. get_elem? u k) same
            ∙ get_elem?-set_ne s.mem {i = a.out2 + outpos} {j = k} (pos n)
                (λ z. elim o [ inl y ↦ absurd (false≢true (sym y ∙ t)) | inr y ↦ (omega arith) ]);
      }

  check_leaf-frame :
      (collide : Bool) (item : ℤ) (r : ℕ) (s : St) (p : Bool × St)
      → check_leaf sub c a outpos collide item r s ≡ ok p
      → LeafFrame a outpos (outpos + 1) s.mem p.1.mem
  unfolding check_leaf
  check_leaf-frame collide item r s p h = elim (Bool-cases (not collide && a.recurse_to_leaf)) [
    | inl go ↦ no_leaf-frame item r s p (ground arith) (rw go at h)
    | inr stop ↦
        LeafFrame-of_eq a outpos (outpos + 1) (ap (λ u. u.mem) (pure-eq false s p (rw stop at h)).1)
  ]

  -- The test of the weight passes only a missing leaf or, for a device, the test itself.
  check_out-false :
      (item : ℤ) (t : ℕ) (missing : Bool) (s : St) (p : Bool × St)
      → check_out c item t missing s ≡ ok p
      → (p.1 ≡ s) × (p.0 ≡ false → t ≡ 0 → is_out c.weight c.weight_max item c.x ≡ ok false)
  unfolding check_out
  check_out-false item t true s p h =
      let e = pure-eq true s p h in (e.1, λ f. absurd (false≢true (sym f ∙ e.0)))
  check_out-false item t false s p h = elim (Bool-cases (t == 0)) [
    | inl device ↦
        let e = lift-eq (is_out c.weight c.weight_max item c.x) s p (rw device at h) in
        (e.1, λ f z. e.0 ∙ ap ok f)
    | inr bucket ↦ let e = pure-eq false s p (rw bucket at h) in (e.1, λ f z. ground arith)
  ]

  try_item-lem :
      (r size : ℕ) (item : ℤ) (t : ℕ) (s : St) (p : Verdict × St)
      → at_least item c.max_devices ≡ false
      → (a.type ≡ pos 0 → t ≡ 0)
      → try_item sub c a outpos r size item t s ≡ ok p
      → LeafFrame a outpos (outpos + 1) s.mem p.1.mem × Accepted c a outpos s.mem p.0
  unfolding try_item
  try_item-lem r size item t s p small typed h =
      let (q1, e1, h1) = bind-eq-ok (collides outpos a.out item) _ s p h in
      let (q2, e2, h2) = bind-eq-ok (check_leaf sub c a outpos q1.0 item r) _ q1.1 p h1 in
      let (q3, e3, h3) = bind-eq-ok (check_out c item t q2.0) _ q2.1 p h2 in
      let scan = collides-false outpos a.out item s q1 e1 in
      let weigh = check_out-false item t q2.0 q2.1 q3 e3 in
      let out = pure-eq (if q3.0 || q1.0 then refuse q1.0 size else accept item) q3.1 p h3 in
      let frame : LeafFrame a outpos (outpos + 1) s.mem p.1.mem =
        LeafFrame-trans a outpos (outpos + 1)
          (LeafFrame-of_eq a outpos (outpos + 1) (ap (λ u. u.mem) scan.0))
          (LeafFrame-trans a outpos (outpos + 1) (check_leaf-frame q1.0 item r q1.1 q2 e2)
            (LeafFrame-of_eq a outpos (outpos + 1) (ap (λ u. u.mem) (out.1 ∙ weigh.0)))) in
      (
        frame,
        subst (λ v. Accepted c a outpos s.mem v) (sym out.0)
            (verdict q3.0 q1.0 (λ f g. (
              record { in_range = small; not_out = λ z. weigh.1 f (typed z) },
              λ i lt. scan.1 g (a.out + i) (omega arith) (omega arith),
            ))),
      )
    where
      verdict :
          (reject collide : Bool)
          → (reject ≡ false → collide ≡ false → Accepted c a outpos s.mem (accept item))
          → Accepted c a outpos s.mem
              (if reject || collide then refuse collide size else accept item)
      verdict false false k = k refl refl
      verdict false true k = tt
      verdict true collide k = tt

  wrong_type-lem :
      (item : ℤ) (s : St) (p : Verdict × St)
      → wrong_type c item s ≡ ok p
      → (p.1 ≡ s) × Accepted c a outpos s.mem p.0
  unfolding wrong_type
  wrong_type-lem (pos n) s p h =
      let e = pure-eq skip s p h in (e.1, subst (λ v. Accepted c a outpos s.mem v) (sym e.0) tt)
  wrong_type-lem (negsuc n) s p h = elim (Bool-cases (leb c.max_buckets n)) [
    | inl past ↦
        let e = pure-eq skip s p (rw past at h) in
        (e.1, subst (λ v. Accepted c a outpos s.mem v) (sym e.0) tt)
    | inr inside ↦
        let e = pure-eq (descend n) s p (rw inside at h) in
        (e.1, subst (λ v. Accepted c a outpos s.mem v) (sym e.0) tt)
  ]

  abbrev Tried : St → Verdict × St → Type 0
  Tried s p = LeafFrame a outpos (outpos + 1) s.mem p.1.mem × Accepted c a outpos s.mem p.0

  Tried-moved : (s q : St) (p : Verdict × St) → q.mem ≡ s.mem → Tried q p → Tried s p
  Tried-moved s q p e (f, acc) = (
    LeafFrame-trans a outpos (outpos + 1) (LeafFrame-of_eq a outpos (outpos + 1) e) f,
    subst (λ m. Accepted c a outpos m p.0) e acc,
  )

  type_zero : (t : ℕ) → int_eq (pos t) a.type ≡ true → a.type ≡ pos 0 → t ≡ 0
  type_zero t h z =
      let e : int_eq (pos t) (pos 0) ≡ true = subst (λ y. int_eq (pos t) y ≡ true) z h in
      ground arith

  classify-Tried :
      (r size : ℕ) (item : ℤ) (s : St) (p : Verdict × St)
      → classify sub c a outpos r size item s ≡ ok p
      → Tried s p
  unfolding classify
  classify-Tried r size item s p h = elim (Bool-cases (at_least item c.max_devices)) [
    | inl past ↦
        let e = pure-eq skip s p (rw past at h) in
        (
          LeafFrame-of_eq a outpos (outpos + 1) (ap (λ u. u.mem) e.1),
          subst (λ v. Accepted c a outpos s.mem v) (sym e.0) tt,
        )
    | inr small ↦
        let (q, e, h') =
          bind-eq-ok (type_of item)
            (λ itemtype.
              (if int_eq (pos itemtype) a.type
                then try_item sub c a outpos r size item itemtype
                else wrong_type c item))
            s p (rw small at h) in
        Tried-moved s q.1 p (Quiet-type_of item s q e)
          (elim (Bool-cases (int_eq (pos q.0) a.type)) [
            | inl fits ↦
                try_item-lem r size item q.0 q.1 p small (type_zero q.0 fits) (rw fits at h')
            | inr other ↦
                let w = wrong_type-lem item q.1 p (rw other at h') in
                (LeafFrame-of_eq a outpos (outpos + 1) (ap (λ u. u.mem) w.0), w.1)
          ])
  ]

  -- One attempt changes no cell but, when leaves are looked for, the leaf place of this output
  -- position; an item that it accepts is good and stands at no earlier place.
  pub attempt-Tried :
      (rep ftotal flocal cur : ℕ) (s : St) (p : Verdict × St)
      → attempt sub c a rep outpos ftotal flocal cur s ≡ ok p
      → LeafFrame a outpos (outpos + 1) s.mem p.1.mem × Accepted c a outpos s.mem p.0
  unfolding attempt
  attempt-Tried rep ftotal flocal cur s p h =
      let (q, e, h') = bind-eq-ok (bucket_at cur) _ s p h in
      Tried-moved s q.1 p (Quiet-bucket_at cur s q e) (elim (Bool-cases (q.0.size == 0)) [
        | inl empty ↦
            let r = pure-eq (refuse false 0) q.1 p (rw empty at h') in
            (
              LeafFrame-of_eq a outpos (outpos + 1) (ap (λ u. u.mem) r.1),
              subst (λ v. Accepted c a outpos q.1.mem v) (sym r.0) tt,
            )
        | inr some_items ↦
            let (u, e2, h2) =
              bind-eq-ok (chooser q.0.size)
                (classify sub c a outpos (u32 (rep + a.parent_r + ftotal)) q.0.size) q.1 p
                (rw some_items at h') in
            Tried-moved q.1 u.1 p (chooser-quiet q.0.size q.1 u e2)
              (classify-Tried (u32 (rep + a.parent_r + ftotal)) q.0.size u.0 u.1 p h2)
      ])
    where
      chooser : ℕ → M ℤ
      chooser size =
          if use_fallback c size flocal
          then perm_choose_in cur c.x (u32 (rep + a.parent_r + ftotal))
          else choose_in cur c.x (u32 (rep + a.parent_r + ftotal))

      chooser-quiet : (size : ℕ) → Quiet (chooser size)
      chooser-quiet size s p h = elim (Bool-cases (use_fallback c size flocal)) [
        | inl f ↦ Quiet-perm_choose_in cur c.x (u32 (rep + a.parent_r + ftotal)) s p (rw f at h)
        | inr f ↦ Quiet-choose_in cur c.x (u32 (rep + a.parent_r + ftotal)) s p (rw f at h)
      ]
