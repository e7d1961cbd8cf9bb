-- ===== src/Crush/Bucket.antt =====
-- net/ceph/crush/mapper.c: choosing an item of one bucket. `x` and `r` are used as `__u32` only.
-- A bucket of size 0 would divide by 0; `crush_bucket_choose` has a BUG_ON for it.
pub mod Perm
pub mod Cache
pub mod Usable
pub mod Weight
use kmod_ceph.Base.{
  ℕ, zero, suc, ◌+◌, ◌-◌, ◌*◌, ◌/◌, ◌%◌, ◌^◌, ◌≤◌, ◌<◌, ◌≡◌, refl, bit_and, u32, ◌<<<◌, ◌>>>◌, Bool,
  true, false, ◌&&◌, ◌||◌, not, ltb, leb, ◌==◌, if◌then◌else◌, List, [], ◌∷◌, Option, none, some,
  get_elem?, replicate,
}
use kmod_ceph.Base.Int.{ℤ, pos, negsuc}
use kmod_ceph.Crush.Hash.{hash32_2, hash32_3, hash32_4}
use kmod_ceph.Crush.Outcome.{Outcome, ok, fault, stuck, ◌>>=◌, load, store}
use kmod_ceph.Crush.Types.{Alg, uniform, list, tree, straw, other, Bucket}

-- The conversion of an `int` to `__u32`.
abbrev pub to_u32 : ℤ → ℕ
to_u32 (pos n) = n % 2 ^ 32
to_u32 (negsuc n) = 2 ^ 32 - 1 - n % 2 ^ 32

-- `for (; i < bucket->size; i++) bucket->perm[i] = i`, with the rounds left.
pub fill_perm : ℕ → ℕ → List ℕ → Outcome (List ℕ)
fill_perm zero i perm = ok perm
fill_perm (suc left) i perm = do perm' ← store perm i i; fill_perm left (i + 1) perm'

-- The hash that decides on the swap at place `p`.
pub swap_offset : Bucket → ℕ → ℕ → ℕ
swap_offset b x p = hash32_3 b.hash x (to_u32 b.id) p % (b.size - p)

-- One round of the permutation, at place `p`.
pub perm_step : Bucket → ℕ → ℕ → List ℕ → Outcome (List ℕ)
perm_step b x p perm =
    if ltb p (b.size - 1)
    then (let i = swap_offset b x p in
        if i == 0 then ok perm else do
          t ← load perm (p + i)
          u ← load perm p
          perm' ← store perm (p + i) u
          store perm' p t)
    else ok perm

-- `while (bucket->perm_n <= pr)`: the rounds left are pr + 1 - perm_n.
pub perm_loop : Bucket → ℕ → ℕ → ℕ → List ℕ → Outcome (List ℕ)
perm_loop b x zero p perm = ok perm
perm_loop b x (suc left) p perm = do perm' ← perm_step b x p perm; perm_loop b x left (p + 1) perm'

abbrev pub magic : ℕ
magic = 0xffff

-- The part from the `while` loop on.
pub perm_finish : Bucket → ℕ → ℕ → Outcome (ℤ × Bucket)
perm_finish b x pr = do
  perm ← perm_loop b x (pr + 1 - b.perm_n) b.perm_n b.perm
  s ← load perm pr
  item ← load b.items s
  ok (item, record b { perm = perm; perm_n = if leb b.perm_n pr then pr + 1 else b.perm_n })

pub bucket_perm_choose : Bucket → ℕ → ℕ → Outcome (ℤ × Bucket)
bucket_perm_choose b x r =
    if b.size == 0
    then fault
    else (let pr = r % b.size in
        if not (b.perm_x == x) || b.perm_n == 0
        then if pr == 0
          then (do
            let s = hash32_3 b.hash x (to_u32 b.id) 0 % b.size
            perm ← store b.perm 0 s
            item ← load b.items s
            ok (item, record b { perm_x = x; perm = perm; perm_n = magic }))
          else (do
            perm ← fill_perm b.size 0 b.perm
            perm_finish (record b { perm_x = x; perm = perm; perm_n = 0 }) x pr)
        else if b.perm_n == magic
        then (do
          perm ← fill_perm (b.size - 1) 1 b.perm
          s ← load perm 0
          perm' ← store perm s 0
          perm_finish (record b { perm = perm'; perm_n = 1 }) x pr)
        else perm_finish b x pr)

-- `for (i = size - 1; i >= 0; i--)`: the argument is i + 1.
pub list_loop : Bucket → List ℕ → List ℕ → ℕ → ℕ → ℕ → Outcome ℤ
list_loop b item_weights sum_weights x r zero = load b.items 0
list_loop b item_weights sum_weights x r (suc i) = do
  item ← load b.items i
  sum ← load sum_weights i
  weight ← load item_weights i
  let w = bit_and (hash32_4 b.hash x (to_u32 item) r (to_u32 b.id)) 0xffff
  let rest = list_loop b item_weights sum_weights x r i
  if ltb ((w * sum) >>> 16) weight then ok item else rest

pub bucket_list_choose : Bucket → List ℕ → List ℕ → ℕ → ℕ → Outcome ℤ
bucket_list_choose b item_weights sum_weights x r = list_loop b item_weights sum_weights x r b.size

-- The number of trailing zeros; the loop does not end at 0, where the fuel runs out.
pub height : ℕ → ℕ → Outcome ℕ
height zero n = stuck
height (suc fuel) n = elim (n % 2 == 0) [
  | true ↦ do h ← height fuel (n / 2); ok (h + 1)
  | false ↦ ok 0
]

-- A node number is at most 127, so that 8 rounds are enough for every `height`.
abbrev pub node_bits : ℕ
node_bits = 8

pub left_node : ℕ → Outcome ℕ
left_node x = do h ← height node_bits x; ok (x - (1 <<< (h - 1)))

pub right_node : ℕ → Outcome ℕ
right_node x = do h ← height node_bits x; ok (x + (1 <<< (h - 1)))

pub terminal : ℕ → Bool
terminal x = x % 2 == 1

pub tree_loop : ℕ → Bucket → List ℕ → ℕ → ℕ → ℕ → Outcome ℕ
tree_loop zero b node_weights x r n = stuck
tree_loop (suc fuel) b node_weights x r n = elim (terminal n) [
  | true ↦ ok n
  | false ↦ do
    w ← load node_weights n
    l ← left_node n
    wl ← load node_weights l
    m ← right_node n
    let t = (hash32_4 b.hash x n r (to_u32 b.id) * w) >>> 32
    tree_loop fuel b node_weights x r (if ltb t wl then l else m)
]

pub bucket_tree_choose : Bucket → ℕ → List ℕ → ℕ → ℕ → Outcome ℤ
bucket_tree_choose b num_nodes node_weights x r = do
  n ← tree_loop node_bits b node_weights x r (num_nodes >>> 1)
  load b.items (n >>> 1)

-- `for (i = 0; i < size; i++)`, with the rounds left, the best place so far and its draw.
unfoldable pub straw_loop : Bucket → List ℕ → ℕ → ℕ → ℕ → ℕ → ℕ → ℕ → Outcome ℕ
straw_loop b straws x r zero i high high_draw = ok high
straw_loop b straws x r (suc left) i high high_draw = do
  item ← load b.items i
  straw_len ← load straws i
  let draw = bit_and (hash32_3 b.hash x (to_u32 item) r) 0xffff * straw_len
  let better = i == 0 || ltb high_draw draw
  straw_loop b straws x r left (i + 1) (if better then i else high)
      (if better then draw else high_draw)

unfoldable pub bucket_straw_choose : Bucket → List ℕ → ℕ → ℕ → Outcome ℤ
bucket_straw_choose b straws x r = do high ← straw_loop b straws x r b.size 0 0 0; load b.items high

abbrev pub keep : Bucket → Outcome ℤ → Outcome (ℤ × Bucket)
keep b m = m >>= λ item. ok (item, b)

unfoldable pub choose_by : Alg → Bucket → ℕ → ℕ → Outcome (ℤ × Bucket)
choose_by (uniform item_weight) b x r = bucket_perm_choose b x r
choose_by (list item_weights sum_weights) b x r =
    keep b (bucket_list_choose b item_weights sum_weights x r)
choose_by (tree num_nodes node_weights) b x r =
    keep b (bucket_tree_choose b num_nodes node_weights x r)
choose_by (straw item_weights straws) b x r = keep b (bucket_straw_choose b straws x r)
choose_by (other alg) b x r = keep b (load b.items 0)

unfoldable pub bucket_choose : Bucket → ℕ → ℕ → Outcome (ℤ × Bucket)
bucket_choose b x r = if b.size == 0 then fault else choose_by b.alg b x r

-- `map->... is_out`: the test whether a device is marked out. A negative item reads before the
-- array.
unfoldable pub is_out : List ℕ → ℕ → ℤ → ℕ → Outcome Bool
is_out weight weight_max (negsuc n) x = fault
is_out weight weight_max (pos item) x = if leb weight_max item then ok true else do
  w ← load weight item
  ok (
      if leb 0x10000 w
      then false
      else if w == 0
      then true
      else not (ltb (bit_and (hash32_2 0 x (u32 item)) 0xffff) w))
