-- ===== src/Crush/Bucket/Weight.antt =====
-- net/ceph/crush/crush.c: the weight of an item in its bucket, and the nodes of a tree bucket.
use kmod_ceph.Base.{ℕ, ◌+◌, ◌-◌, ◌≡◌, arith, true, leb, if◌then◌else◌, u32, ◌<<<◌, ◌>>>◌}
use kmod_ceph.Crush.Outcome.{Outcome, ok, load}
use kmod_ceph.Crush.Types.{Alg, uniform, list, tree, straw, other, Bucket}
use kmod_ceph.Crush.Bucket.{terminal}

unfoldable pub calc_tree_node : ℕ → ℕ
calc_tree_node i = ((i + 1) <<< 1) - 1

unfoldable pub weight_by : Alg → ℕ → Outcome ℕ
weight_by (uniform item_weight) p = ok item_weight
weight_by (list item_weights sum_weights) p = load item_weights p
weight_by (tree num_nodes node_weights) p = load node_weights (calc_tree_node p)
weight_by (straw item_weights straws) p = load item_weights p
weight_by (other alg) p = ok 0

unfoldable pub get_bucket_item_weight : Bucket → ℕ → Outcome ℕ
get_bucket_item_weight b p = if leb b.size (u32 p) then ok 0 else weight_by b.alg p

-- `crush_calc_tree_node` gives the leaf of an item: a terminal node, from which the halving in
-- `bucket_tree_choose` comes back to the item.
pub calc_tree_node-terminal :
    (i : ℕ) → (terminal (calc_tree_node i) ≡ true) × (calc_tree_node i >>> 1 ≡ i)
unfolding calc_tree_node terminal
calc_tree_node-terminal i = (ground arith, omega arith)
