-- ===== src/Osd/Trees/Views.antt =====
-- The search trees of osdmap.c against the sorted lists of their nodes.
use kmod_ceph.Base.{◌≡◌, refl, ◌⊎◌, inl, inr, Option, none, some, List, [], ◌∷◌, ◌++◌, All}
use kmod_ceph.Osd.Trees.{Compared, less, equal, greater, Tree, leaf, node, lookup}

pub record IsOrder {K : Type 0} (cmp : K → K → Compared) : Type 0 where
  pub equal_eq : (a b : K) → cmp a b ≡ equal → a ≡ b
  pub self : (a : K) → cmp a a ≡ equal
  pub flip : (a b : K) → cmp a b ≡ less → cmp b a ≡ greater
  pub flip' : (a b : K) → cmp a b ≡ greater → cmp b a ≡ less
  pub trans : (a b c : K) → cmp a b ≡ less → cmp b c ≡ less → cmp a c ≡ less

-- The nodes from left to right.
abbrev pub to_list : {K A : Type 0} → Tree K A → List (K × A)
to_list leaf = []
to_list (node l x v r) = to_list l ++ (x, v) ∷ to_list r

abbrev pub Sorted : {K A : Type 0} → (K → K → Compared) → List (K × A) → Type 0
Sorted cmp [] = Unit
Sorted cmp (p ∷ ps) = All (λ q. cmp p.0 q.0 ≡ less) ps × Sorted cmp ps

abbrev pub on_equal : {B : Type 0} → Compared → B → B → B
on_equal equal x y = x
on_equal less x y = y
on_equal greater x y = y

abbrev pub find : {K A : Type 0} → (K → K → Compared) → List (K × A) → K → Option A
find cmp [] k = none
find cmp (p ∷ ps) k = on_equal (cmp k p.0) (some p.1) (find cmp ps k)

abbrev pub or_else : {A : Type 0} → Option A → Option A → Option A
or_else none o = o
or_else (some a) o = some a

pub Compared-cases : (c : Compared) → (c ≡ less) ⊎ ((c ≡ equal) ⊎ (c ≡ greater))
Compared-cases less = inl refl
Compared-cases equal = inr (inl refl)
Compared-cases greater = inr (inr refl)

pub find-append :
    {K A : Type 0} (cmp : K → K → Compared) (ps qs : List (K × A)) (k : K)
    → find cmp (ps ++ qs) k ≡ or_else (find cmp ps k) (find cmp qs k)
find-append cmp [] qs k = refl
find-append cmp (p ∷ ps) qs k = elim (Compared-cases (cmp k p.0)) [
  | inl e ↦ rw (e, find-append cmp ps qs k) refl
  | inr (inl e) ↦ rw e refl
  | inr (inr e) ↦ rw (e, find-append cmp ps qs k) refl
]

-- A key before all the nodes, or after all of them, is not found.
pub find-below :
    {K A : Type 0} (cmp : K → K → Compared) (qs : List (K × A)) (k : K)
    → All (λ q. cmp k q.0 ≡ less) qs
    → find cmp qs k ≡ none
find-below cmp [] k h = refl
find-below cmp (q ∷ qs) k h = rw h.0 (find-below cmp qs k h.1)

pub find-above :
    {K A : Type 0} (cmp : K → K → Compared) (ps : List (K × A)) (k : K)
    → IsOrder cmp
    → All (λ p. cmp p.0 k ≡ less) ps
    → find cmp ps k ≡ none
find-above cmp [] k order h = refl
find-above cmp (p ∷ ps) k order h = rw (order.flip p.0 k h.0) (find-above cmp ps k order h.1)

pub All-both {ℓ κ} :
    {A : Type ℓ} (P : A → Type κ) (xs ys : List A)
    → (All P (xs ++ ys) → All P xs × All P ys) × (All P xs → All P ys → All P (xs ++ ys))
All-both P [] ys = (λ h. (tt, h), λ h h'. h')
All-both P (x ∷ xs) ys =
    let (split, join) = All-both P xs ys in
    (λ h. let (a, b) = split h.1 in ((h.0, a), b), λ h h'. (h.0, join h.1 h'))

-- The parts of a sorted list, and a list sorted by its parts.
pub Sorted-split :
    {K A : Type 0} (cmp : K → K → Compared) (ps : List (K × A)) (q : K × A) (qs : List (K × A))
    → Sorted cmp (ps ++ q ∷ qs)
    → All (λ p. cmp p.0 q.0 ≡ less) ps
      × Sorted cmp ps
      × All (λ r. cmp q.0 r.0 ≡ less) qs
      × Sorted cmp qs
Sorted-split cmp [] q qs h = (tt, tt, h.0, h.1)
Sorted-split cmp (p ∷ ps) q qs h =
    let (before, left, after, right) = Sorted-split cmp ps q qs h.1 in
    let (a, b) = (All-both (λ r. cmp p.0 r.0 ≡ less) ps (q ∷ qs)).0 h.0 in
    ((b.0, before), (a, left), after, right)

pub below-All :
    {K A : Type 0} (cmp : K → K → Compared) (k x : K) (qs : List (K × A))
    → IsOrder cmp
    → cmp k x ≡ less
    → All (λ q. cmp x q.0 ≡ less) qs
    → All (λ q. cmp k q.0 ≡ less) qs
below-All cmp k x [] order e h = tt
below-All cmp k x (q ∷ qs) order e h = (order.trans k x q.0 e h.0, below-All cmp k x qs order e h.1)

pub above-All :
    {K A : Type 0} (cmp : K → K → Compared) (k x : K) (ps : List (K × A))
    → IsOrder cmp
    → cmp x k ≡ less
    → All (λ p. cmp p.0 x ≡ less) ps
    → All (λ p. cmp p.0 k ≡ less) ps
above-All cmp k x [] order e h = tt
above-All cmp k x (p ∷ ps) order e h = (order.trans p.0 x k h.0 e, above-All cmp k x ps order e h.1)

or_none : {A : Type 0} (o : Option A) → o ≡ or_else o none
or_none none = refl
or_none (some a) = refl

-- `lookup` finds what the sorted list of the nodes holds.
pub lookup-find :
    {K A : Type 0} (cmp : K → K → Compared) (t : Tree K A) (k : K)
    → IsOrder cmp
    → Sorted cmp (to_list t)
    → lookup cmp t k ≡ find cmp (to_list t) k
unfolding lookup
lookup-find cmp leaf k order sorted = refl
lookup-find cmp (node l x v r) k order sorted =
    let (before, left, after, right) = Sorted-split cmp (to_list l) (x, v) (to_list r) sorted in
    let split = find-append cmp (to_list l) ((x, v) ∷ to_list r) k in
    elim (Compared-cases (cmp k x)) [
      | inl e ↦
          let below = find-below cmp (to_list r) k (below-All cmp k x (to_list r) order e after) in
          rw (lookup, e, split, lookup-find cmp l k order left, e, below)
            (or_none (find cmp (to_list l) k))
      | inr (inl e) ↦
          let same = order.equal_eq k x e in
          let above = find-above cmp (to_list l) k order (rw same before) in
          rw (lookup, e, split, above, e) refl
      | inr (inr e) ↦
          let above =
            find-above cmp (to_list l) k order
              (above-All cmp k x (to_list l) order (order.flip' k x e) before) in
          rw (lookup, e, split, above, e, lookup-find cmp r k order right) refl
    ]
