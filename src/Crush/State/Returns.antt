-- ===== src/Crush/State/Returns.antt =====
-- Computations over the state that return: they neither fault nor run out of fuel.
use kmod_ceph.Base.{◌≡◌, refl}
use kmod_ceph.Crush.Outcome.{Outcome, ok}
use kmod_ceph.Crush.State.{St, M, pure, lift, ◌>>=◌}

-- From every state with the invariant there is a result with the property, and the state after it
-- has the invariant again.
abbrev pub Returns : (St → Type 0) → {A : Type 0} → M A → (A → Type 0) → Type 0
Returns I {A} m Q = (s : St) → I s → (p : A × St) × (m s ≡ ok p) × I p.1 × Q p.0

module _ (I : St → Type 0) where
  pub Returns-pure : {A : Type 0} (a : A) (Q : A → Type 0) → Q a → Returns I (pure a) Q
  Returns-pure a Q q s i = ((a, s), refl, i, q)

  pub Returns-bind :
      {A B : Type 0} (m : M A) (f : A → M B) (Q : A → Type 0) (R : B → Type 0)
      → Returns I m Q
      → ((a : A) → Q a → Returns I (f a) R)
      → Returns I (m >>= f) R
  Returns-bind m f Q R hm hf s i =
      let (p, e, i', q) = hm s i in
      let (r, e', i'', w) = hf p.0 q p.1 i' in (r, rw (e, ◌>>=◌) e', i'', w)

  pub Returns-weaken :
      {A : Type 0} (m : M A) (Q R : A → Type 0)
      → Returns I m Q
      → ((a : A) → Q a → R a)
      → Returns I m R
  Returns-weaken m Q R hm h s i = let (p, e, i', q) = hm s i in (p, e, i', h p.0 q)

  pub Returns-lift :
      {A : Type 0} (m : Outcome A) (a : A) (Q : A → Type 0) → m ≡ ok a → Q a → Returns I (lift m) Q
  Returns-lift m a Q e q s i = ((a, s), rw e refl, i, q)
