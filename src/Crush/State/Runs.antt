-- ===== src/Crush/State/Runs.antt =====
-- What a run of a computation over the state gives, when it ends without a fault.
use kmod_ceph.Base.{
  ℕ, zero, suc, ◌+◌, ◌≤◌, ◌<◌, ◌≡◌, ◌≢◌, inl, inr, Bool-cases, ◌∙◌, refl, sym, ap, List, some,
  get_elem?, set, length, arith, if◌then◌else◌, Bool, true, false,
}
use mathlib.Core.Bool.{false≢true}
use native.Mathlib.Decide.{ℕ_discrete}
use kmod_ceph.Base.Int.{ℤ, pos, negsuc}
use kmod_ceph.Crush.Outcome.{Outcome, ok, fault, stuck, load, store}
use kmod_ceph.Crush.Types.{Bucket}
use kmod_ceph.Crush.State.{
  St, M, pure, lift, ◌>>=◌, bucket_at, put_bucket, choose_in, perm_choose_in, read, write, type_of,
  int_eq, collides,
}

-- The parts of a successful bind.
split_run :
    {A B : Type 0} (o : Outcome (A × St)) (f : A → M B) (r : B × St)
    → (let g : Outcome (B × St) = elim o [ ok p ↦ f p.0 p.1 | fault ↦ fault | stuck ↦ stuck ] in g)
      ≡ ok r
    → (p : A × St) × (o ≡ ok p) × (f p.0 p.1 ≡ ok r)
split_run (ok p) f r h = (p, refl, h)
split_run fault f r h = cc
split_run stuck f r h = cc

pub bind-eq-ok :
    {A B : Type 0} (m : M A) (f : A → M B) (s : St) (r : B × St)
    → (m >>= f) s ≡ ok r
    → (p : A × St) × (m s ≡ ok p) × (f p.0 p.1 ≡ ok r)
bind-eq-ok m f s r h = split_run (m s) f r h

-- A computation that leaves the array alone.
abbrev pub Quiet : {A : Type 0} → M A → Type 0
Quiet {A} m = (s : St) (p : A × St) → m s ≡ ok p → p.1.mem ≡ s.mem

pub Quiet-bind :
    {A B : Type 0} (m : M A) (f : A → M B) → Quiet m → ((a : A) → Quiet (f a)) → Quiet (m >>= f)
Quiet-bind m f q k s r h = let (p, e, h') = bind-eq-ok m f s r h in k p.0 p.1 r h' ∙ q s p e

ok-injective {ℓ} : {A : Type ℓ} {a b : A} → ok a ≡ ok b → a ≡ b
ok-injective h = cc

pub pure-eq : {A : Type 0} (a : A) (s : St) (p : A × St) → pure a s ≡ ok p → (p.0 ≡ a) × (p.1 ≡ s)
pure-eq a s p h = let e = ok-injective h in (ap (λ q. q.0) (sym e), ap (λ q. q.1) (sym e))

pub Quiet-pure : {A : Type 0} (a : A) → Quiet (pure a)
Quiet-pure a s p h = ap (λ t. t.mem) (pure-eq a s p h).1

pub lift-eq :
    {A : Type 0} (m : Outcome A) (s : St) (p : A × St) → lift m s ≡ ok p → (m ≡ ok p.0) × (p.1 ≡ s)
lift-eq (ok a) s p h = let e = ok-injective h in (ap (λ q. ok q.0) e, ap (λ q. q.1) (sym e))
lift-eq fault s p h = cc
lift-eq stuck s p h = cc

pub Quiet-lift : {A : Type 0} (m : Outcome A) → Quiet (lift m)
Quiet-lift m s p h = ap (λ t. t.mem) (lift-eq m s p h).1

pub bucket_at-eq : (i : ℕ) (s : St) (p : Bucket × St) → bucket_at i s ≡ ok p → p.1 ≡ s
unfolding bucket_at
bucket_at-eq i s p h = ground arith

pub Quiet-bucket_at : (i : ℕ) → Quiet (bucket_at i)
Quiet-bucket_at i s p h = ap (λ t. t.mem) (bucket_at-eq i s p h)

Quiet-put_bucket : (i : ℕ) (b : Bucket) → Quiet (put_bucket i b)
unfolding put_bucket
Quiet-put_bucket i b s p h = ap (λ q. q.1.mem) (sym (ok-injective h))

pub Quiet-choose_in : (i x r : ℕ) → Quiet (choose_in i x r)
unfolding choose_in
Quiet-choose_in i x r = Quiet-bind (bucket_at i) _ (Quiet-bucket_at i) λ b.
    Quiet-bind (lift _) _ (Quiet-lift _)
      λ p. Quiet-bind (put_bucket i p.1) _ (Quiet-put_bucket i p.1) λ u. Quiet-pure p.0

pub Quiet-perm_choose_in : (i x r : ℕ) → Quiet (perm_choose_in i x r)
unfolding perm_choose_in
Quiet-perm_choose_in i x r = Quiet-bind (bucket_at i) _ (Quiet-bucket_at i) λ b.
    Quiet-bind (lift _) _ (Quiet-lift _)
      λ p. Quiet-bind (put_bucket i p.1) _ (Quiet-put_bucket i p.1) λ u. Quiet-pure p.0

pub Quiet-type_of : (item : ℤ) → Quiet (type_of item)
unfolding type_of
Quiet-type_of (pos n) = Quiet-pure 0
Quiet-type_of (negsuc n) = Quiet-bind (bucket_at n) _ (Quiet-bucket_at n) λ b. Quiet-pure b.type

load-eq : {A : Type 0} (xs : List A) (i : ℕ) (v : A) → load xs i ≡ ok v → get_elem? xs i ≡ some v
unfolding load
load-eq xs i v h = ground arith

pub int_eq_refl : (a : ℤ) → int_eq a a ≡ true
int_eq_refl (pos n) = ground arith
int_eq_refl (negsuc n) = ground arith

pub int_eq-true : (a b : ℤ) → int_eq a b ≡ true → a ≡ b
int_eq-true a b h = ground arith

pub read-eq :
    (i : ℕ) (s : St) (p : ℤ × St) → read i s ≡ ok p → (get_elem? s.mem i ≡ some p.0) × (p.1 ≡ s)
unfolding read
read-eq i s p h = let q = lift-eq (load s.mem i) s p h in (load-eq s.mem i p.0 q.0, q.1)

unsome {ℓ} : {A : Type ℓ} {a b : A} → some a ≡ some b → a ≡ b
unsome h = cc

-- A scan that finds no collision has seen that every place differs, and changes nothing.
pub collides-false :
    (left i : ℕ) (item : ℤ) (s : St) (p : Bool × St)
    → collides left i item s ≡ ok p
    → (p.1 ≡ s) × (p.0 ≡ false → (k : ℕ) → i ≤ k → k < i + left → get_elem? s.mem k ≢ some item)
unfolding collides
collides-false zero i item s p h = ((pure-eq false s p h).1, λ e k lo hi. absurd (omega arith))
collides-false (suc left) i item s p h =
    let (q, e, h') =
      bind-eq-ok (read i)
        (λ v. (let rest = collides left (i + 1) item in if int_eq v item then pure true else rest))
        s p h in
    let here = read-eq i s q e in
    elim (Bool-cases (int_eq q.0 item)) [
      | inl hit ↦
          let done = pure-eq true q.1 p (rw hit at h') in
          (done.1 ∙ here.1, λ f. absurd (false≢true (sym f ∙ done.0)))
      | inr miss ↦
          let more = collides-false left (i + 1) item q.1 p (rw miss at h') in
          (
            more.0 ∙ here.1,
            λ f k lo hi same. elim (ℕ_discrete k i) [
              | yes at ↦ false≢true (
                  sym miss
                  ∙ ap (λ z. int_eq z item)
                      (unsome (sym here.0 ∙ ap (λ (t : ℕ). get_elem? s.mem t) (sym at) ∙ same))
                  ∙ int_eq_refl item)
              | no apart ↦
                  more.1 f k (omega arith) (omega arith) (ap (λ t. get_elem? t.mem k) here.1 ∙ same)
            ],
          )
    ]

-- A write that succeeds.
pub write-eq :
    (i : ℕ) (v : ℤ) (s : St) (p : Unit {0} × St)
    → write i v s ≡ ok p
    → (i < length s.mem) × (p.1.mem ≡ set s.mem i v)
unfolding write store
write-eq i v s p h = ground arith
