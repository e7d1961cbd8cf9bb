-- ===== src/Crush/Firstn/Placed.antt =====
-- The loops of `crush_choose_firstn`: the items that it places.

use native.Mathlib.Decide.{ℕ_discrete}
use kmod_ceph.Base.{
  u32, ℕ, zero, suc, ◌+◌, ◌-◌, ◌≤◌, ◌<◌, ◌≡◌, ◌≢◌, ◌⊎◌, inl, inr, ◌∙◌, sym, ap, subst, List, Option,
  none, some, get_elem?, set, length, length-set, arith, ltb, false, Bool-cases, get_elem?-set_self,
  get_elem?-set_ne,
}
use kmod_ceph.Base.Int.{ℤ}
use kmod_ceph.Crush.Outcome.{ok}
use kmod_ceph.Crush.State.{St, M, pure, write}
use kmod_ceph.Crush.State.Runs.{bind-eq-ok, write-eq, pure-eq}
use kmod_ceph.Crush.Firstn.{
  Config, Args, Verdict, descend, skip, accept, refuse, attempt, retry_local, search_item, follow,
  place, replicas, choose_firstn,
}
use kmod_ceph.Crush.Firstn.Attempt.{
  OffLeaf, LeafFrame, LeafFrame-of_eq, LeafFrame-trans, LeavesRest, IsGood, Accepted, attempt-Tried,
}

-- The output places of the call and its leaf places do not meet.
abbrev pub IsApart : Args → ℕ → Type 0
IsApart a n = (a.recurse_to_leaf ≡ false) ⊎ ((a.out + n ≤ a.out2) ⊎ (a.out2 + n ≤ a.out))

pub OffLeaf-out :
    (a : Args) (n lo hi i : ℕ) → IsApart a n → hi ≤ n → i < n → OffLeaf a lo hi (a.out + i)
OffLeaf-out a n lo hi i (inl f) h lt = inl f
OffLeaf-out a n lo hi i (inr (inl f)) h lt = inr (inl (omega arith))
OffLeaf-out a n lo hi i (inr (inr f)) h lt = inr (inr (omega arith))

OffLeaf-narrow :
    (a : Args) (lo hi lo' hi' k : ℕ) → lo ≤ lo' → hi' ≤ hi → OffLeaf a lo hi k → OffLeaf a lo' hi' k
OffLeaf-narrow a lo hi lo' hi' k p q (inl f) = inl f
OffLeaf-narrow a lo hi lo' hi' k p q (inr (inl f)) = inr (inl (omega arith))
OffLeaf-narrow a lo hi lo' hi' k p q (inr (inr f)) = inr (inr (omega arith))

-- What a search gives: an item that is good and new, or nothing.
abbrev pub Found : Config → Args → ℕ → List ℤ → Option ℤ → Type 0
Found c a outpos m none = Unit {0}
Found c a outpos m (some item) = Accepted c a outpos m (accept item)

-- The output of the rounds from `outpos` on.
pub record Placed (c : Config) (a : Args) (outpos left n : ℕ) (m m' : List ℤ) : Type 0 where
  pub lower : outpos ≤ n
  pub upper : n ≤ outpos + left
  pub len : length m' ≡ length m
  pub kept :
      (k : ℕ)
      → (k < a.out + outpos) ⊎ (a.out + (outpos + left) ≤ k)
      → OffLeaf a outpos (outpos + left) k
      → get_elem? m' k ≡ get_elem? m k
  pub placed :
      (j : ℕ)
      → outpos ≤ j
      → j < n
      → (item : ℤ) × (get_elem? m' (a.out + j) ≡ some item)
        × IsGood c a item
        × ((i : ℕ) → i < j → get_elem? m' (a.out + i) ≢ some item)

module _ (sub : Args → M ℕ) (rest : LeavesRest sub) (c : Config) (a : Args) (n : ℕ)
    (apart : IsApart a n) where
  abbrev Searched : ℕ → St → Option ℤ × St → Type 0
  Searched outpos s p = LeafFrame a outpos (outpos + 1) s.mem p.1.mem × Found c a outpos s.mem p.0

  Found-moved :
      (outpos : ℕ) (m m' : List ℤ) (found : Option ℤ)
      → outpos < n
      → LeafFrame a outpos (outpos + 1) m m'
      → Found c a outpos m' found
      → Found c a outpos m found
  Found-moved outpos m m' none lt f h = tt
  Found-moved outpos m m' (some item) lt f (good, new) = (
    good,
    λ i hi e. new i hi (
        f.kept (a.out + i) (OffLeaf-out a n outpos (outpos + 1) i apart (omega arith) (omega arith))
        ∙ e),
  )

  Searched-after :
      (outpos : ℕ) (s q : St) (p : Option ℤ × St)
      → outpos < n
      → LeafFrame a outpos (outpos + 1) s.mem q.mem
      → Searched outpos q p
      → Searched outpos s p
  Searched-after outpos s q p lt f (g, h) =
      (LeafFrame-trans a outpos (outpos + 1) f g, Found-moved outpos s.mem q.mem p.0 lt f h)

  nothing : (outpos : ℕ) (s : St) (p : Option ℤ × St) → pure none s ≡ ok p → Searched outpos s p
  nothing outpos s p h =
      let e = pure-eq none s p h in
      (
        LeafFrame-of_eq a outpos (outpos + 1) (ap (λ u. u.mem) e.1),
        subst (λ f. Found c a outpos s.mem f) (sym e.0) tt,
      )

  follow-Searched :
      (again : ℕ → ℕ → ℕ → M (Option ℤ)) (outpos ftotal flocal cur : ℕ)
      → ((t l i : ℕ) (s : St) (p : Option ℤ × St) → again t l i s ≡ ok p → Searched outpos s p)
      → outpos < n
      → (v : Verdict) (s q : St) (p : Option ℤ × St) → LeafFrame a outpos (outpos + 1) s.mem q.mem
      → Accepted c a outpos s.mem v
      → follow c a again ftotal flocal cur v q ≡ ok p
      → Searched outpos s p
  unfolding follow
  follow-Searched again outpos ftotal flocal cur ih lt (descend i) s q p f acc h =
      Searched-after outpos s q p lt f (ih ftotal flocal i q p h)
  follow-Searched again outpos ftotal flocal cur ih lt skip s q p f acc h =
      Searched-after outpos s q p lt f (nothing outpos q p h)
  follow-Searched again outpos ftotal flocal cur ih lt (accept item) s q p f acc h =
      let e = pure-eq (some item) q p h in
      (
        LeafFrame-trans a outpos (outpos + 1) f
            (LeafFrame-of_eq a outpos (outpos + 1) (ap (λ u. u.mem) e.1)),
        subst (λ o. Found c a outpos s.mem o) (sym e.0) acc,
      )
  follow-Searched again outpos ftotal flocal cur ih lt (refuse collide size) s q p f acc h =
      Searched-after outpos s q p lt f
        (elim (Bool-cases (retry_local c collide size (u32 (flocal + 1)))) [
          | inl near ↦ ih (u32 (ftotal + 1)) (u32 (flocal + 1)) cur q p (rw near at h)
          | inr far ↦ elim (Bool-cases (ltb (u32 (ftotal + 1)) a.tries)) [
            | inl more ↦ ih (u32 (ftotal + 1)) 0 a.bucket q p (rw (far, more) at h)
            | inr last ↦ nothing outpos q p (rw (far, last) at h)
          ]
        ])

  search_item-Searched :
      (rep outpos fuel ftotal flocal cur : ℕ) (s : St) (p : Option ℤ × St)
      → outpos < n
      → search_item sub c a rep outpos fuel ftotal flocal cur s ≡ ok p
      → Searched outpos s p
  unfolding search_item
  search_item-Searched rep outpos zero ftotal flocal cur s p lt h = cc
  search_item-Searched rep outpos (suc fuel) ftotal flocal cur s p lt h =
      let (q, e, h') =
        bind-eq-ok (attempt sub c a rep outpos ftotal flocal cur)
          (follow c a (search_item sub c a rep outpos fuel) ftotal flocal cur) s p h in
      let t = attempt-Tried sub rest c a outpos rep ftotal flocal cur s q e in
      follow-Searched (search_item sub c a rep outpos fuel) outpos ftotal flocal cur
        (λ t l i s p h. search_item-Searched rep outpos fuel t l i s p lt h) lt q.0 s q.1 p t.0 t.1
        h'

  -- A replica that is given up leaves the rest of the rounds.
  Placed-skip :
      (outpos left r : ℕ) {m m1 m2 : List ℤ}
      → outpos + suc left ≤ n
      → LeafFrame a outpos (outpos + 1) m m1
      → Placed c a outpos left r m1 m2
      → Placed c a outpos (suc left) r m m2
  Placed-skip outpos left r le f g = record {
    lower = g.lower;
    upper = omega (arith, g.upper);
    len = g.len ∙ f.len;
    kept = λ k o leaf.
        g.kept k (elim o [ inl x ↦ inl x | inr y ↦ inr (omega arith) ])
          (OffLeaf-narrow a outpos (outpos + suc left) outpos (outpos + left) k (omega arith)
            (omega arith) leaf)
        ∙ f.kept k (
            OffLeaf-narrow a outpos (outpos + suc left) outpos (outpos + 1) k (omega arith)
              (omega arith) leaf);
    placed = g.placed;
  }

  Placed-item :
      (outpos left r : ℕ) (item : ℤ) (m m1 m2 m3 : List ℤ)
      → outpos + suc left ≤ n
      → LeafFrame a outpos (outpos + 1) m m1
      → Accepted c a outpos m (accept item)
      → a.out + outpos < length m1
      → m2 ≡ set m1 (a.out + outpos) item
      → Placed c a (outpos + 1) left r m2 m3
      → Placed c a outpos (suc left) r m m3
  Placed-item outpos left r item m m1 m2 m3 le f acc room wrote g = record {
    lower = omega (arith, g.lower);
    upper = omega (arith, g.upper);
    len = g.len ∙ ap length wrote ∙ length-set m1 (a.out + outpos) item ∙ f.len;
    kept = λ k o leaf.
        g.kept k (elim o [ inl x ↦ inl (omega arith) | inr y ↦ inr (omega arith) ])
          (OffLeaf-narrow a outpos (outpos + suc left) (outpos + 1) (outpos + 1 + left) k
            (omega arith) (omega arith) leaf)
        ∙ unmoved k (elim o [ inl x ↦ (λ z. omega arith) | inr y ↦ (λ z. omega arith) ])
        ∙ f.kept k (
            OffLeaf-narrow a outpos (outpos + suc left) outpos (outpos + 1) k (omega arith)
              (omega arith) leaf);
    placed = λ j lo hi. elim (ℕ_discrete j outpos) [
      | yes here ↦ (
        item,
        at_outpos j here,
        acc.0,
        λ i lt e. acc.1 i (omega arith) (
            sym (f.kept (a.out + i) (off_leaf i outpos (outpos + 1) (omega arith) (omega arith)))
            ∙ sym (unmoved (a.out + i) (λ z. omega arith))
            ∙ sym (
                g.kept (a.out + i) (inl (omega arith))
                  (off_leaf i (outpos + 1) (outpos + 1 + left) (omega arith) (omega arith)))
            ∙ e),
      )
      | no later ↦ g.placed j (omega arith) hi
    ];
  }
    where
      unmoved : (k : ℕ) → a.out + outpos ≢ k → get_elem? m2 k ≡ get_elem? m1 k
      unmoved k z =
          ap (λ t. get_elem? t k) wrote ∙ get_elem?-set_ne m1 {i = a.out + outpos} {j = k} item z

      off_leaf : (i lo hi : ℕ) → i < n → hi ≤ n → OffLeaf a lo hi (a.out + i)
      off_leaf i lo hi p q = OffLeaf-out a n lo hi i apart q p

      at_outpos : (j : ℕ) → j ≡ outpos → get_elem? m3 (a.out + j) ≡ some item
      at_outpos j e =
          ap (λ (t : ℕ). get_elem? m3 (a.out + t)) e
          ∙ g.kept (a.out + outpos) (inl (omega arith))
              (off_leaf outpos (outpos + 1) (outpos + 1 + left) (omega arith) (omega arith))
          ∙ ap (λ t. get_elem? t (a.out + outpos)) wrote
          ∙ get_elem?-set_self m1 (a.out + outpos) item room

  place-Placed :
      (next : ℕ → M ℕ) (outpos left : ℕ)
      → outpos + suc left ≤ n
      → ((o : ℕ) (s : St) (p : ℕ × St)
          → o + left ≤ n
          → next o s ≡ ok p
          → Placed c a o left p.0 s.mem p.1.mem)
      → (found : Option ℤ) (s q : St) (p : ℕ × St) → LeafFrame a outpos (outpos + 1) s.mem q.mem
      → Found c a outpos s.mem found
      → place a next outpos found q ≡ ok p
      → Placed c a outpos (suc left) p.0 s.mem p.1.mem
  unfolding place
  place-Placed next outpos left le ih none s q p f acc h =
      Placed-skip outpos left p.0 le f (ih outpos q p (omega arith) h)
  place-Placed next outpos left le ih (some item) s q p f acc h =
      let (u, e, h') = bind-eq-ok (write (a.out + outpos) item) (λ z. next (outpos + 1)) q p h in
      let w = write-eq (a.out + outpos) item q u e in
      Placed-item outpos left p.0 item s.mem q.mem u.1.mem p.1.mem le f acc w.0 w.1
        (ih (outpos + 1) u.1 p (omega arith) h')

  pub replicas-Placed :
      (fuel left rep outpos : ℕ) (s : St) (p : ℕ × St)
      → outpos + left ≤ n
      → replicas sub c a fuel left rep outpos s ≡ ok p
      → Placed c a outpos left p.0 s.mem p.1.mem
  unfolding replicas
  replicas-Placed fuel zero rep outpos s p le h =
      let e = pure-eq outpos s p h in
      record {
        lower = omega (arith, e.0);
        upper = omega (arith, e.0);
        len = ap (λ u. length u.mem) e.1;
        kept = λ k o leaf. ap (λ u. get_elem? u.mem k) e.1;
        placed = λ j lo hi. absurd (omega (arith, e.0));
      }
  replicas-Placed fuel (suc left) rep outpos s p le h =
      let (q, e, h') =
        bind-eq-ok (search_item sub c a rep outpos fuel 0 0 a.bucket)
          (place a (replicas sub c a fuel left (rep + 1)) outpos) s p h in
      let f = search_item-Searched rep outpos fuel 0 0 a.bucket s q (omega arith) e in
      place-Placed (replicas sub c a fuel left (rep + 1)) outpos left le
        (λ o s p l h. replicas-Placed fuel left (rep + 1) o s p l h) q.0 s q.1 p f.0 f.1 h'

-- The inner call writes its own places only, at every depth.
choose_firstn-LeavesRest :
    (depth : ℕ) (c : Config) (fuel : ℕ) → LeavesRest (choose_firstn depth c fuel)
unfolding choose_firstn
choose_firstn-LeavesRest zero c fuel a s p flat le h = cc
choose_firstn-LeavesRest (suc depth) c fuel a s p flat le h =
    let g =
      replicas-Placed (choose_firstn depth c fuel) (choose_firstn-LeavesRest depth c fuel) c a
        (a.outpos + (a.numrep - a.outpos)) (inl flat) fuel (a.numrep - a.outpos) a.outpos a.outpos s
        p (omega arith) h in
    (g.len, λ k o. g.kept k (elim o [ inl x ↦ inl x | inr y ↦ inr (omega arith) ]) (inl flat))

-- `crush_choose_firstn`, when it returns, has placed at most numrep items in all: they stand from
-- outpos on, each differs from every item before it, none lies past the devices of the map, and
-- where devices were asked for none is marked out; no other cell of the array has changed but the
-- leaf places of the call. The leaf places must not meet the output places.
pub choose_firstn-Placed :
    (depth : ℕ) (c : Config) (fuel : ℕ) (a : Args) (s : St) (p : ℕ × St)
    → a.outpos ≤ a.numrep
    → IsApart a a.numrep
    → choose_firstn depth c fuel a s ≡ ok p
    → Placed c a a.outpos (a.numrep - a.outpos) p.0 s.mem p.1.mem
unfolding choose_firstn
choose_firstn-Placed zero c fuel a s p le apart h = cc
choose_firstn-Placed (suc depth) c fuel a s p le apart h =
    replicas-Placed (choose_firstn depth c fuel) (choose_firstn-LeavesRest depth c fuel) c a
      a.numrep apart fuel (a.numrep - a.outpos) a.outpos a.outpos s p (omega arith) h
