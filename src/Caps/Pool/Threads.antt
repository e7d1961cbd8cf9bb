-- ===== src/Caps/Pool/Threads.antt =====
-- Threads that share the pool, with the lock dropped in the middle of `ceph_reserve_caps`.
use kmod_ceph.Base.{
  ℕ, zero, suc, ◌+◌, ◌-◌, ◌≤◌, ◌<◌, ◌≡◌, refl, sym, subst, ap, ◌∙◌, some, List, [], ◌∷◌, arith,
  length, get_elem?, set,
}
use kmod_ceph.Crush.Outcome.{Outcome, ok}
use kmod_ceph.Caps.Pool.{
  Mdsc, have_of, reserve_first, reserve_second, unreserve_caps, get_cap_direct, get_cap, put_cap,
  IsBalanced,
}
use kmod_ceph.Caps.Pool.Counts.{
  Leaves, reserve_first-Leaves, reserve_second-Leaves, unreserve_caps-Leaves, get_cap-Leaves,
  get_cap_direct-Leaves, put_cap-Leaves,
}

-- A thread with its reservation, or between the two halves of `ceph_reserve_caps`.
pub data Thread : Type 0 where
  idle : ℕ → Thread
  reserving : ℕ → ℕ → Thread

-- `out` is the number of caps in use.
pub record Sys : Type 0 where
  pub mdsc : Mdsc
  pub threads : List Thread
  pub out : ℕ

abbrev held_by : Thread → ℕ
held_by (idle count) = count
held_by (reserving need have) = have

abbrev pub held : List Thread → ℕ
held [] = 0
held (t ∷ ts) = held_by t + held ts

-- One thread runs up to where it drops the lock. All allocations of a reservation succeed.
pub data Step (s : Sys) (t : Sys) : Type 0 where
  reserve :
      (i need : ℕ) (m : Mdsc)
      → get_elem? s.threads i ≡ some (idle 0)
      → reserve_first s.mdsc need ≡ ok m
      → t ≡ record s { mdsc = m; threads = set s.threads i (reserving need (have_of s.mdsc need)) }
      → Step s t
  reserve_rest :
      (i need have : ℕ) (newcaps : List ℕ) (m : Mdsc)
      → get_elem? s.threads i ≡ some (reserving need have)
      → have + length newcaps ≡ need
      → reserve_second s.mdsc newcaps ≡ ok m
      → t ≡ record s { mdsc = m; threads = set s.threads i (idle need) }
      → Step s t
  unreserve :
      (i count : ℕ) (m : Mdsc)
      → get_elem? s.threads i ≡ some (idle count)
      → unreserve_caps s.mdsc count ≡ ok m
      → t ≡ record s { mdsc = m; threads = set s.threads i (idle 0) }
      → Step s t
  get :
      (i count : ℕ) (r : ℕ × Mdsc)
      → get_elem? s.threads i ≡ some (idle (suc count))
      → get_cap s.mdsc (suc count) ≡ ok r
      → t ≡ record s { mdsc = r.1; threads = set s.threads i (idle count); out = s.out + 1 }
      → Step s t
  get_direct :
      (cap : ℕ)
      → t ≡ record s { mdsc = get_cap_direct s.mdsc (some cap); out = s.out + 1 }
      → Step s t
  put :
      (cap : ℕ) (m : Mdsc)
      → 0 < s.out
      → put_cap s.mdsc cap ≡ ok m
      → t ≡ record s { mdsc = m; out = s.out - 1 }
      → Step s t

pub data Reach (s : Sys) : Sys → Type 0 where
  here : Reach s s
  next : {t u : Sys} → Reach s t → Step t u → Reach s u

-- The reservations of the threads are what the pool counts as reserved.
pub record IsSound (s : Sys) : Type 0 where
  pub balanced : IsBalanced s.mdsc
  pub reserved_eq : s.mdsc.caps_reserve_count ≡ held s.threads
  pub out_eq : s.mdsc.caps_use_count ≡ s.out

held-set :
    (ts : List Thread) (i : ℕ) (t t' : Thread)
    → get_elem? ts i ≡ some t
    → held (set ts i t') + held_by t ≡ held ts + held_by t'
held-set [] i t t' h = cc
held-set (x ∷ ts) zero t t' h = let e : x ≡ t = cc in rw (← e) (omega arith)
held-set (x ∷ ts) (suc i) t t' h = omega (arith, held-set ts i t t' h)

ok-injective {ℓ} : {A : Type ℓ} {a b : A} → ok a ≡ ok b → a ≡ b
ok-injective h = cc

held-ge : (ts : List Thread) (i : ℕ) (t : Thread) → get_elem? ts i ≡ some t → held_by t ≤ held ts
held-ge ts i t h = omega (arith, held-set ts i t (idle 0) h)

-- A step whose run is known to leave the counts that the threads account for.
settle :
    (o : Outcome Mdsc) (t : Sys) (ts : List Thread) (out : ℕ) (m m' : Mdsc) (n used : ℕ)
    → o ≡ ok m
    → o ≡ ok m'
    → Leaves n used m'
    → n ≡ held ts
    → used ≡ out
    → t ≡ record { mdsc = m; threads = ts; out = out }
    → IsSound t
settle o t ts out m m' n used run run' l e e' shape =
    let same : m' ≡ m = ok-injective (sym run' ∙ run) in
    let l' : Leaves n used m = subst (λ x. Leaves n used x) same l in
    subst (λ x. IsSound x) (sym shape)
      (record { balanced = l'.balanced; reserved_eq = l'.reserve_eq ∙ e; out_eq = l'.use_eq ∙ e' })

Step-IsSound : (s t : Sys) → Step s t → IsSound s → IsSound t
Step-IsSound s t (reserve i need m at run e) v =
    let (m', run', l) = reserve_first-Leaves s.mdsc need v.balanced in
    let k = held-set s.threads i (idle 0) (reserving need (have_of s.mdsc need)) at in
    settle _ t _ s.out m m' _ _ run run' l (omega (arith, v.reserved_eq)) v.out_eq e
Step-IsSound s t (reserve_rest i need have newcaps m at all run e) v =
    let (m', run', l) = reserve_second-Leaves s.mdsc newcaps v.balanced in
    let k = held-set s.threads i (reserving need have) (idle need) at in
    settle _ t _ s.out m m' _ _ run run' l (omega (arith, v.reserved_eq)) v.out_eq e
Step-IsSound s t (unreserve i count m at run e) v =
    let enough = held-ge s.threads i (idle count) at in
    let (m', run', l) =
      unreserve_caps-Leaves s.mdsc count v.balanced (omega (arith, v.reserved_eq)) in
    let k = held-set s.threads i (idle count) (idle 0) at in
    settle _ t _ s.out m m' _ _ run run' l (omega (arith, v.reserved_eq)) v.out_eq e
Step-IsSound s t (get i count r at run e) v =
    let enough = held-ge s.threads i (idle (suc count)) at in
    let (r', run', l) =
      get_cap-Leaves s.mdsc (suc count) v.balanced (omega arith) (omega (arith, v.reserved_eq)) in
    let k = held-set s.threads i (idle (suc count)) (idle count) at in
    let same : r' ≡ r = ok-injective (sym run' ∙ run) in
    settle (ok r.1) t _ (s.out + 1) r.1 r'.1 _ _ refl (ap (λ x. ok x.1) (sym same)) l
      (omega (arith, v.reserved_eq)) (omega (arith, v.out_eq)) e
Step-IsSound s t (get_direct cap e) v =
    let l = get_cap_direct-Leaves s.mdsc cap v.balanced in
    settle (ok (get_cap_direct s.mdsc (some cap))) t s.threads (s.out + 1) _ _ _ _ refl refl l
      v.reserved_eq (omega (arith, v.out_eq)) e
Step-IsSound s t (put cap m some_out run e) v =
    let (m', run', l) = put_cap-Leaves s.mdsc cap v.balanced (omega (arith, v.out_eq)) in
    settle _ t s.threads (s.out - 1) m m' _ _ run run' l v.reserved_eq (omega (arith, v.out_eq)) e

Reach-IsSound : (s t : Sys) → IsSound s → Reach s t → IsSound t
Reach-IsSound s t v here = v
Reach-IsSound s t v (next {t = u} r st) = Step-IsSound u t st (Reach-IsSound s u v r)

-- Nothing that a thread may do next meets a BUG_ON.
pub record NoBug (s : Sys) : Type 0 where
  pub reserve_ok : (need : ℕ) → (m : Mdsc) × (reserve_first s.mdsc need ≡ ok m)
  pub rest_ok : (newcaps : List ℕ) → (m : Mdsc) × (reserve_second s.mdsc newcaps ≡ ok m)
  pub unreserve_ok :
      (i count : ℕ)
      → get_elem? s.threads i ≡ some (idle count)
      → (m : Mdsc) × (unreserve_caps s.mdsc count ≡ ok m)
  pub get_ok :
      (i count : ℕ)
      → get_elem? s.threads i ≡ some (idle (suc count))
      → (r : ℕ × Mdsc) × (get_cap s.mdsc (suc count) ≡ ok r)
  pub put_ok : (cap : ℕ) → 0 < s.out → (m : Mdsc) × (put_cap s.mdsc cap ≡ ok m)

IsSound-NoBug : (s : Sys) → IsSound s → NoBug s
IsSound-NoBug s v = record {
  reserve_ok = λ need. let (m, e, l) = reserve_first-Leaves s.mdsc need v.balanced in (m, e);
  rest_ok = λ newcaps. let (m, e, l) = reserve_second-Leaves s.mdsc newcaps v.balanced in (m, e);
  unreserve_ok = λ i count at.
      let enough = held-ge s.threads i (idle count) at in
      let (m, e, l) =
        unreserve_caps-Leaves s.mdsc count v.balanced (omega (arith, enough, v.reserved_eq)) in
      (m, e);
  get_ok = λ i count at.
      let enough = held-ge s.threads i (idle (suc count)) at in
      let (r, e, l) =
        get_cap-Leaves s.mdsc (suc count) v.balanced (omega arith)
          (omega (arith, enough, v.reserved_eq)) in
      (r, e);
  put_ok = λ cap h.
      let (m, e, l) = put_cap-Leaves s.mdsc cap v.balanced (omega (arith, h, v.out_eq)) in (m, e);
}

-- Threads that share the pool of caps, in any order, with the lock dropped between the two halves of
-- a reservation: as long as every allocation succeeds, the counts stay balanced, what is counted as
-- reserved is what the threads hold, what is counted as used is what is out, and no BUG_ON of the
-- functions fires.
pub Reach-NoBug : (s t : Sys) → IsSound s → Reach s t → IsSound t × NoBug t
Reach-NoBug s t v r = let w = Reach-IsSound s t v r in (w, IsSound-NoBug t w)
