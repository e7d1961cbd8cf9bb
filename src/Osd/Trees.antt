-- ===== src/Osd/Trees.antt =====
-- The search trees of net/ceph/osdmap.c: pg mappings, ordered by `pgid_cmp`, and pools, whose ids
-- (s64, as words of 64 bits) are compared signed by an insertion and unsigned by a lookup. The code walks down from the root; what the kernel's rbtree code does after a node is
-- linked or unlinked is a parameter of the functions that call it.
pub mod Views
pub mod Update
pub mod Orders
pub mod Tests
use kmod_ceph.Base.{ℕ, ltb, if◌then◌else◌, Option, none, some, ◌-◌}
use kmod_ceph.Base.Int.{ℤ, pos, negsuc, ltb_ℤ}

-- A negative number, 0, or a positive number.
pub data Compared : Type 0 where
  less equal greater : Compared

-- `node` has a left and a right side.
pub data Tree (K A : Type 0) : Type 0 where
  leaf : Tree K A
  node : Tree K A → K → A → Tree K A → Tree K A

pub record Pg : Type 0 where
  pub pool : ℕ
  pub seed : ℕ

unfoldable pub pgid_cmp : Pg → Pg → Compared
pgid_cmp l r =
    if ltb l.pool r.pool
    then less
    else if ltb r.pool l.pool
    then greater
    else if ltb l.seed r.seed
    then less
    else if ltb r.seed l.seed
    then greater
    else equal

-- The order of the pool ids as `__lookup_pg_pool` compares them: its `id` is u64, so both are.
unfoldable pub id_cmp : ℕ → ℕ → Compared
id_cmp l r = if ltb l r then less else if ltb r l then greater else equal

-- A word as the number of type s64 that it stands for.
abbrev pub as_s64 : ℕ → ℤ
as_s64 n = if ltb n 0x8000000000000000 then pos n else negsuc (0xffffffffffffffff - n)

-- The order as `__insert_pg_pool` compares them: both are the s64 fields of nodes.
unfoldable pub signed_id_cmp : ℕ → ℕ → Compared
signed_id_cmp l r =
    if ltb_ℤ (as_s64 l) (as_s64 r)
    then less
    else if ltb_ℤ (as_s64 r) (as_s64 l)
    then greater
    else equal

-- `__lookup_pg_mapping` and `__lookup_pg_pool`, with the comparison they make.
unfoldable pub lookup : {K A : Type 0} → (K → K → Compared) → Tree K A → K → Option A
lookup cmp leaf k = none
lookup cmp (node l x v r) k = elim (cmp k x) [
  | less ↦ lookup cmp l k
  | greater ↦ lookup cmp r k
  | equal ↦ some v
]

-- `rb_link_node` where `__insert_pg_mapping` and `__insert_pg_pool` end their walk; `none` is -EEXIST.
unfoldable pub link : {K A : Type 0} → (K → K → Compared) → K → A → Tree K A → Option (Tree K A)
link cmp k v leaf = some (node leaf k v leaf)
link cmp k v (node l x w r) = elim (cmp k x) [
  | less ↦ elim (link cmp k v l) [ none ↦ none | some l' ↦ some (node l' x w r) ]
  | greater ↦ elim (link cmp k v r) [ none ↦ none | some r' ↦ some (node l x w r') ]
  | equal ↦ none
]

unfoldable pub insert :
    {K A : Type 0}
    → (K → K → Compared)
    → (Tree K A → Tree K A)
    → K
    → A
    → Tree K A
    → Option (Tree K A)
insert cmp rb_insert_color k v t = elim (link cmp k v t) [
  | none ↦ none
  | some t' ↦ some (rb_insert_color t')
]

-- `__remove_pg_mapping`; `none` is -ENOENT.
unfoldable pub remove :
    {K A : Type 0}
    → (K → K → Compared)
    → (K → Tree K A → Tree K A)
    → K
    → Tree K A
    → Option (Tree K A)
remove cmp rb_erase k t = elim (lookup cmp t k) [ none ↦ none | some v ↦ some (rb_erase k t) ]

-- The functions of the code, for the two kinds of trees.
abbrev pub lookup_pg_mapping : {A : Type 0} → Tree Pg A → Pg → Option A
lookup_pg_mapping root pgid = lookup pgid_cmp root pgid

abbrev pub insert_pg_mapping :
    {A : Type 0} → (Tree Pg A → Tree Pg A) → Pg → A → Tree Pg A → Option (Tree Pg A)
insert_pg_mapping rb_insert_color pgid new root = insert pgid_cmp rb_insert_color pgid new root

abbrev pub remove_pg_mapping :
    {A : Type 0} → (Pg → Tree Pg A → Tree Pg A) → Tree Pg A → Pg → Option (Tree Pg A)
remove_pg_mapping rb_erase root pgid = remove pgid_cmp rb_erase pgid root

abbrev pub lookup_pg_pool : {A : Type 0} → Tree ℕ A → ℕ → Option A
lookup_pg_pool root id = lookup id_cmp root id

abbrev pub insert_pg_pool :
    {A : Type 0} → (Tree ℕ A → Tree ℕ A) → Tree ℕ A → ℕ → A → Option (Tree ℕ A)
insert_pg_pool rb_insert_color root id new = insert signed_id_cmp rb_insert_color id new root
