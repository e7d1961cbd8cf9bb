-- ===== src/Osd/Trees/Update.antt =====
-- `__insert_pg_mapping` and `__remove_pg_mapping` of net/ceph/osdmap.c: what a
-- lookup gives afterwards. The kernel's rbtree code is a parameter that keeps the order of the nodes.
use kmod_ceph.Base.{
  ◌≡◌, refl, sym, ap, ◌∙◌, ◌⊎◌, inl, inr, none, some, List, [], ◌∷◌, ◌++◌, Option-cases, All,
}
use mathlib.Core.List.{append_assoc}
use kmod_ceph.Osd.Trees.Orders.{pgid_cmp-IsOrder}
use kmod_ceph.Osd.Trees.{
  Compared, less, Tree, leaf, node, lookup, link, insert, remove, Pg, pgid_cmp, lookup_pg_mapping,
  insert_pg_mapping,
}
use kmod_ceph.Osd.Trees.Views.{
  IsOrder, to_list, Sorted, on_equal, find, Compared-cases, find-append, find-below, find-above,
  All-both, Sorted-split, below-All, above-All, lookup-find,
}

-- A node is linked between the nodes before its key and those after it, unless there is one.
abbrev LinkedAt : {K A : Type 0} → (K → K → Compared) → K → A → List (K × A) → List (K × A) → Type 0
LinkedAt {K} {A} cmp k v old new =
    (ps : List (K × A)) × (qs : List (K × A)) × (old ≡ ps ++ qs)
    × (new ≡ ps ++ (k, v) ∷ qs)
    × All (λ p. cmp p.0 k ≡ less) ps
    × All (λ q. cmp k q.0 ≡ less) qs

link_lem :
    {K A : Type 0} (cmp : K → K → Compared) (k : K) (v : A) (t : Tree K A)
    → IsOrder cmp
    → Sorted cmp (to_list t)
    → ((w : A) × (lookup cmp t k ≡ some w) × (link cmp k v t ≡ none))
      ⊎ ((t' : Tree K A) × (lookup cmp t k ≡ none)
          × (link cmp k v t ≡ some t')
          × LinkedAt cmp k v (to_list t) (to_list t'))
unfolding lookup link
link_lem cmp k v leaf order sorted =
    inr (node leaf k v leaf, refl, refl, ([], [], refl, refl, tt, tt))
link_lem cmp k v (node l x w r) order sorted =
    let (before, left, after, right) = Sorted-split cmp (to_list l) (x, w) (to_list r) sorted in
    elim (Compared-cases (cmp k x)) [
      | inr (inl e) ↦ inl (w, rw (lookup, e) refl, rw (link, e) refl)
      | inl e ↦ elim (link_lem cmp k v l order left) [
        | inl (u, found, run) ↦ inl (u, rw (lookup, e) found, rw (link, e, run) refl)
        | inr (l', missing, run, (ps, qs, old, new, low, high)) ↦ inr (
          node l' x w r,
          rw (lookup, e) missing,
          rw (link, e, run) refl,
          (
            ps,
            qs ++ (x, w) ∷ to_list r,
            ap (λ s. s ++ (x, w) ∷ to_list r) old ∙ append_assoc ps qs ((x, w) ∷ to_list r),
            ap (λ s. s ++ (x, w) ∷ to_list r) new
                ∙ append_assoc ps ((k, v) ∷ qs) ((x, w) ∷ to_list r),
            low,
            (All-both (λ q. cmp k q.0 ≡ less) qs ((x, w) ∷ to_list r)).1 high
                (e, below-All cmp k x (to_list r) order e after),
          ),
        )
      ]
      | inr (inr e) ↦ elim (link_lem cmp k v r order right) [
        | inl (u, found, run) ↦ inl (u, rw (lookup, e) found, rw (link, e, run) refl)
        | inr (r', missing, run, (ps, qs, old, new, low, high)) ↦
            let e' = order.flip' k x e in
            inr (
              node l x w r',
              rw (lookup, e) missing,
              rw (link, e, run) refl,
              (
                to_list l ++ (x, w) ∷ ps,
                qs,
                ap (λ s. to_list l ++ (x, w) ∷ s) old
                    ∙ sym (append_assoc (to_list l) ((x, w) ∷ ps) qs),
                ap (λ s. to_list l ++ (x, w) ∷ s) new
                    ∙ sym (append_assoc (to_list l) ((x, w) ∷ ps) ((k, v) ∷ qs)),
                (All-both (λ p. cmp p.0 k ≡ less) (to_list l) ((x, w) ∷ ps)).1
                    (above-All cmp k x (to_list l) order e' before) (e', low),
                high,
              ),
            )
      ]
    ]

-- Sorted lists grow and shrink in the middle.
Sorted-grow :
    {K A : Type 0} (cmp : K → K → Compared) (ps : List (K × A)) (q : K × A) (qs : List (K × A))
    → IsOrder cmp
    → Sorted cmp (ps ++ qs)
    → All (λ p. cmp p.0 q.0 ≡ less) ps
    → All (λ r. cmp q.0 r.0 ≡ less) qs
    → Sorted cmp (ps ++ q ∷ qs)
Sorted-grow cmp [] q qs order sorted low high = (high, sorted)
Sorted-grow cmp (p ∷ ps) q qs order sorted low high =
    let (a, b) = (All-both (λ r. cmp p.0 r.0 ≡ less) ps qs).0 sorted.0 in
    (
      (All-both (λ r. cmp p.0 r.0 ≡ less) ps (q ∷ qs)).1 a (low.0, b),
      Sorted-grow cmp ps q qs order sorted.1 low.1 high,
    )

Sorted-shrink :
    {K A : Type 0} (cmp : K → K → Compared) (ps : List (K × A)) (q : K × A) (qs : List (K × A))
    → Sorted cmp (ps ++ q ∷ qs)
    → Sorted cmp (ps ++ qs)
Sorted-shrink cmp [] q qs sorted = sorted.1
Sorted-shrink cmp (p ∷ ps) q qs sorted =
    let (a, b) = (All-both (λ r. cmp p.0 r.0 ≡ less) ps (q ∷ qs)).0 sorted.0 in
    ((All-both (λ r. cmp p.0 r.0 ≡ less) ps qs).1 a b.1, Sorted-shrink cmp ps q qs sorted.1)

-- What a lookup finds in a list with (k, v) in its place.
find-middle :
    {K A : Type 0} (cmp : K → K → Compared) (ps : List (K × A)) (k : K) (v : A) (qs : List (K × A))
    (j : K)
    → IsOrder cmp
    → All (λ p. cmp p.0 k ≡ less) ps
    → find cmp (ps ++ (k, v) ∷ qs) j ≡ on_equal (cmp j k) (some v) (find cmp (ps ++ qs) j)
find-middle cmp ps k v qs j order low =
    let split = find-append cmp ps ((k, v) ∷ qs) j in
    let split' = find-append cmp ps qs j in
    elim (Compared-cases (cmp j k)) [
      | inl e ↦ rw (split, split', e) refl
      | inr (inl e) ↦
          let same = order.equal_eq j k e in
          let above = find-above cmp ps j order (rw same low) in rw (split, e, above) refl
      | inr (inr e) ↦ rw (split, split', e) refl
    ]

find-removed :
    {K A : Type 0} (cmp : K → K → Compared) (ps : List (K × A)) (k : K) (v : A) (qs : List (K × A))
    (j : K)
    → IsOrder cmp
    → All (λ p. cmp p.0 k ≡ less) ps
    → All (λ q. cmp k q.0 ≡ less) qs
    → find cmp (ps ++ qs) j ≡ on_equal (cmp j k) none (find cmp (ps ++ (k, v) ∷ qs) j)
find-removed cmp ps k v qs j order low high =
    let middle = find-middle cmp ps k v qs j order low in
    let split = find-append cmp ps qs j in
    elim (Compared-cases (cmp j k)) [
      | inl e ↦ rw (e, middle, e) refl
      | inr (inl e) ↦
          let same = order.equal_eq j k e in
          let above = find-above cmp ps j order (rw same low) in
          let below = find-below cmp qs j (rw same high) in rw (e, split, above, below) refl
      | inr (inr e) ↦ rw (e, middle, e) refl
    ]

-- What is found is a node of the tree.
found-at :
    {K A : Type 0} (cmp : K → K → Compared) (t : Tree K A) (k : K) (w : A)
    → IsOrder cmp
    → lookup cmp t k ≡ some w
    → (ps : List (K × A)) × (qs : List (K × A)) × (to_list t ≡ ps ++ (k, w) ∷ qs)
unfolding lookup
found-at cmp leaf k w order h = absurd (cc)
found-at cmp (node l x v r) k w order h = elim (Compared-cases (cmp k x)) [
  | inl e ↦
      let (ps, qs, eq) = found-at cmp l k w order (rw (lookup, e) at h) in
      (
        ps,
        qs ++ (x, v) ∷ to_list r,
        ap (λ s. s ++ (x, v) ∷ to_list r) eq ∙ append_assoc ps ((k, w) ∷ qs) ((x, v) ∷ to_list r),
      )
  | inr (inl e) ↦
      let same = order.equal_eq k x e in
      let value : some v ≡ some w = rw (lookup, e) at h in
      let value' : v ≡ w = cc in (to_list l, to_list r, rw (same, value') refl)
  | inr (inr e) ↦
      let (ps, qs, eq) = found-at cmp r k w order (rw (lookup, e) at h) in
      (
        to_list l ++ (x, v) ∷ ps,
        qs,
        ap (λ s. to_list l ++ (x, v) ∷ s) eq
            ∙ sym (append_assoc (to_list l) ((x, v) ∷ ps) ((k, w) ∷ qs)),
      )
]

-- What the kernel's rbtree code keeps: rebalancing keeps the nodes in order, and erasing unlinks one.
abbrev pub KeepsNodes : {K A : Type 0} → (Tree K A → Tree K A) → Type 0
KeepsNodes {K} {A} rb_insert_color = (t : Tree K A) → to_list (rb_insert_color t) ≡ to_list t

abbrev pub Unlinks : {K A : Type 0} → (K → K → Compared) → (K → Tree K A → Tree K A) → Type 0
Unlinks {K} {A} cmp rb_erase =
    (k : K) (t : Tree K A) (ps : List (K × A)) (w : A) (qs : List (K × A))
    → Sorted cmp (to_list t)
    → to_list t ≡ ps ++ (k, w) ∷ qs
    → to_list (rb_erase k t) ≡ ps ++ qs

-- A tree after an insertion of (k, v), and one after k was removed.
pub record Added {K A : Type 0} (cmp : K → K → Compared) (k : K) (v : A) (t t' : Tree K A)
    : Type 0 where
  pub sorted : Sorted cmp (to_list t')
  pub lookups : (j : K) → lookup cmp t' j ≡ on_equal (cmp j k) (some v) (lookup cmp t j)

pub record Removed {K A : Type 0} (cmp : K → K → Compared) (k : K) (t t' : Tree K A) : Type 0 where
  pub sorted : Sorted cmp (to_list t')
  pub lookups : (j : K) → lookup cmp t' j ≡ on_equal (cmp j k) none (lookup cmp t j)

-- A tree that is sorted by an order: an insertion fails with -EEXIST exactly when there is a node with the key; else
-- the tree stays sorted, the key has the new value and every other key has what it had.
insert-Added :
    {K A : Type 0} (cmp : K → K → Compared) (rb_insert_color : Tree K A → Tree K A) (k : K) (v : A)
    (t : Tree K A)
    → IsOrder cmp
    → KeepsNodes rb_insert_color
    → Sorted cmp (to_list t)
    → ((w : A) × (lookup cmp t k ≡ some w) × (insert cmp rb_insert_color k v t ≡ none))
      ⊎ ((t' : Tree K A) × (lookup cmp t k ≡ none)
          × (insert cmp rb_insert_color k v t ≡ some t')
          × Added cmp k v t t')
unfolding insert
insert-Added cmp rb_insert_color k v t order keeps sorted = elim (link_lem cmp k v t order sorted) [
  | inl (w, found, run) ↦ inl (w, found, rw (insert, run) refl)
  | inr (t', missing, run, (ps, qs, old, new, low, high)) ↦
      let whole = keeps t' ∙ new in
      let grown = Sorted-grow cmp ps (k, v) qs order (rw old at sorted) low high in
      let sorted' : Sorted cmp (to_list (rb_insert_color t')) = rw whole grown in
      inr (
        rb_insert_color t',
        missing,
        rw (insert, run) refl,
        record {
          sorted = sorted';
          lookups = λ j.
              lookup-find cmp (rb_insert_color t') j order sorted'
              ∙ ap (λ s. find cmp s j) whole
              ∙ find-middle cmp ps k v qs j order low
              ∙ ap (λ o. on_equal (cmp j k) (some v) o)
                  (ap (λ s. find cmp s j) (sym old) ∙ sym (lookup-find cmp t j order sorted));
        },
      )
]

-- In a sorted tree of pg mappings an insertion fails with -EEXIST exactly when there is a mapping of
-- the pg; else the tree stays sorted, the pg has the new mapping and every other pg has what it had.
-- `rb_insert_color` keeps the order of the nodes.
pub insert_pg_mapping-Added :
    {A : Type 0} (rb_insert_color : Tree Pg A → Tree Pg A) (pgid : Pg) (new : A) (root : Tree Pg A)
    → KeepsNodes rb_insert_color
    → Sorted pgid_cmp (to_list root)
    → ((w : A) × (lookup_pg_mapping root pgid ≡ some w)
        × (insert_pg_mapping rb_insert_color pgid new root ≡ none))
      ⊎ ((root' : Tree Pg A) × (lookup_pg_mapping root pgid ≡ none)
          × (insert_pg_mapping rb_insert_color pgid new root ≡ some root')
          × Added pgid_cmp pgid new root root')
insert_pg_mapping-Added rb_insert_color pgid new root keeps sorted =
    insert-Added pgid_cmp rb_insert_color pgid new root pgid_cmp-IsOrder keeps sorted

-- In a sorted tree a removal fails with -ENOENT exactly when there is no node with the key; else the
-- tree stays sorted, the key has no node and every other key has what it had.
pub remove-Removed :
    {K A : Type 0} (cmp : K → K → Compared) (rb_erase : K → Tree K A → Tree K A) (k : K)
    (t : Tree K A)
    → IsOrder cmp
    → Unlinks cmp rb_erase
    → Sorted cmp (to_list t)
    → ((lookup cmp t k ≡ none) × (remove cmp rb_erase k t ≡ none))
      ⊎ ((t' : Tree K A) × (w : A) × (lookup cmp t k ≡ some w)
          × (remove cmp rb_erase k t ≡ some t')
          × Removed cmp k t t')
unfolding remove
remove-Removed cmp rb_erase k t order unlinks sorted = elim (Option-cases (lookup cmp t k)) [
  | inl missing ↦ inl (missing, rw (remove, missing) refl)
  | inr (w, found) ↦
      let (ps, qs, old) = found-at cmp t k w order found in
      let parts : Sorted cmp (ps ++ (k, w) ∷ qs) = rw old at sorted in
      let (low, left, high, right) = Sorted-split cmp ps (k, w) qs parts in
      let new = unlinks k t ps w qs sorted old in
      let sorted' : Sorted cmp (to_list (rb_erase k t)) =
        rw new (Sorted-shrink cmp ps (k, w) qs parts) in
      inr (
        rb_erase k t,
        w,
        found,
        rw (remove, found) refl,
        record {
          sorted = sorted';
          lookups = λ j.
              lookup-find cmp (rb_erase k t) j order sorted'
              ∙ ap (λ s. find cmp s j) new
              ∙ find-removed cmp ps k w qs j order low high
              ∙ ap (λ o. on_equal (cmp j k) none o)
                  (ap (λ s. find cmp s j) (sym old) ∙ sym (lookup-find cmp t j order sorted));
        },
      )
]
