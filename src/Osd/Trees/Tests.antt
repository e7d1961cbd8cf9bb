-- ===== src/Osd/Trees/Tests.antt =====
-- A tree of pg mappings, and the theorems at it, and a pool that its lookup misses.
use kmod_ceph.Base.{ℕ, ◌≡◌, refl, ap, ◌∙◌, ◌⊎◌, none, some, List, [], ◌∷◌, ◌++◌, All}
use kmod_ceph.Osd.Trees.{
  Compared, less, equal, greater, Tree, leaf, node, Pg, pgid_cmp, lookup, link, insert, remove,
  lookup_pg_mapping, insert_pg_mapping, signed_id_cmp, id_cmp, insert_pg_pool, lookup_pg_pool,
}
use kmod_ceph.Osd.Trees.Views.{to_list, Sorted}
use kmod_ceph.Osd.Trees.Orders.{pgid_cmp-IsOrder}
use kmod_ceph.Osd.Trees.Update.{Unlinks, Added, Removed, insert_pg_mapping-Added, remove-Removed}

abbrev pg_of : ℕ → ℕ → Pg
pg_of pool seed = record { pool = pool; seed = seed }

abbrev two_nodes : Tree Pg ℕ
two_nodes = node (node leaf (pg_of 1 9) 7 leaf) (pg_of 2 3) 8 leaf

abbrev three_nodes : Tree Pg ℕ
three_nodes = node (node leaf (pg_of 1 9) 7 leaf) (pg_of 2 3) 8 (node leaf (pg_of 2 5) 6 leaf)

two_nodes-Sorted : Sorted pgid_cmp (to_list two_nodes)
unfolding pgid_cmp
two_nodes-Sorted = ((refl, tt), (tt, tt))

-- A tree that does not balance.
abbrev as_it_is : Tree Pg ℕ → Tree Pg ℕ
as_it_is t = t

third_node : insert pgid_cmp as_it_is (pg_of 2 5) 6 two_nodes ≡ some three_nodes
unfolding insert link pgid_cmp
third_node = refl

insert_pg_mapping-Added_example :
    ((w : ℕ) × (lookup_pg_mapping two_nodes (pg_of 2 5) ≡ some w)
      × (insert_pg_mapping as_it_is (pg_of 2 5) 6 two_nodes ≡ none))
    ⊎ ((root' : Tree Pg ℕ) × (lookup_pg_mapping two_nodes (pg_of 2 5) ≡ none)
        × (insert_pg_mapping as_it_is (pg_of 2 5) 6 two_nodes ≡ some root')
        × Added pgid_cmp (pg_of 2 5) 6 two_nodes root')
insert_pg_mapping-Added_example =
    insert_pg_mapping-Added as_it_is (pg_of 2 5) 6 two_nodes (λ t. refl) two_nodes-Sorted

-- A pool with the sign bit in its id goes to the left of pool 5, and a lookup seeks it on the right.
abbrev any_tree : Tree ℕ ℕ → Tree ℕ ℕ
any_tree t = t

abbrev two_pools : Tree ℕ ℕ
two_pools = node (node leaf 0x8000000000000000 8 leaf) 5 7 leaf

pool_inserted : insert_pg_pool any_tree (node leaf 5 7 leaf) 0x8000000000000000 8 ≡ some two_pools
unfolding insert link signed_id_cmp
pool_inserted = refl

pool_lost : lookup_pg_pool two_pools 0x8000000000000000 ≡ none
unfolding lookup id_cmp
pool_lost = refl

-- An erasure that builds the tree anew from the list of its nodes.
abbrev of_list : List (Pg × ℕ) → Tree Pg ℕ
of_list [] = leaf
of_list (p ∷ ps) = node leaf p.0 p.1 (of_list ps)

to_list-of_list : (ps : List (Pg × ℕ)) → to_list (of_list ps) ≡ ps
to_list-of_list [] = refl
to_list-of_list (p ∷ ps) = ap (λ (t : List (Pg × ℕ)). p ∷ t) (to_list-of_list ps)

abbrev keep_unless : Compared → Pg × ℕ → List (Pg × ℕ) → List (Pg × ℕ)
keep_unless equal p ps = ps
keep_unless less p ps = p ∷ ps
keep_unless greater p ps = p ∷ ps

abbrev without : Pg → List (Pg × ℕ) → List (Pg × ℕ)
without k [] = []
without k (p ∷ ps) = keep_unless (pgid_cmp k p.0) p (without k ps)

abbrev rebuild : Pg → Tree Pg ℕ → Tree Pg ℕ
rebuild k t = of_list (without k (to_list t))

without-below :
    (k : Pg) (qs : List (Pg × ℕ)) → All (λ q. pgid_cmp k q.0 ≡ less) qs → without k qs ≡ qs
without-below k [] h = refl
without-below k (q ∷ qs) h = rw (h.0, without-below k qs h.1) refl

without-middle :
    (k : Pg) (ps : List (Pg × ℕ)) (w : ℕ) (qs : List (Pg × ℕ))
    → Sorted pgid_cmp (ps ++ (k, w) ∷ qs)
    → without k (ps ++ (k, w) ∷ qs) ≡ ps ++ qs
without-middle k [] w qs sorted = rw (pgid_cmp-IsOrder.self k, without-below k qs sorted.0) refl
without-middle k (p ∷ ps) w qs sorted =
    let first = head_of k w p ps qs sorted.0 in
    rw (pgid_cmp-IsOrder.flip p.0 k first, without-middle k ps w qs sorted.1) refl
  where
    head_of :
        (k : Pg) (w : ℕ) (p : Pg × ℕ) (ps qs : List (Pg × ℕ))
        → All (λ q. pgid_cmp p.0 q.0 ≡ less) (ps ++ (k, w) ∷ qs)
        → pgid_cmp p.0 k ≡ less
    head_of k w p [] qs h = h.0
    head_of k w p (x ∷ ps) qs h = head_of k w p ps qs h.1

rebuild-Unlinks : Unlinks pgid_cmp rebuild
rebuild-Unlinks k t ps w qs sorted e =
    to_list-of_list (without k (to_list t))
    ∙ ap (λ s. without k s) e
    ∙ without-middle k ps w qs (rw e at sorted)

remove-Removed_example :
    ((lookup pgid_cmp two_nodes (pg_of 2 3) ≡ none)
      × (remove pgid_cmp rebuild (pg_of 2 3) two_nodes ≡ none))
    ⊎ ((t' : Tree Pg ℕ) × (w : ℕ) × (lookup pgid_cmp two_nodes (pg_of 2 3) ≡ some w)
        × (remove pgid_cmp rebuild (pg_of 2 3) two_nodes ≡ some t')
        × Removed pgid_cmp (pg_of 2 3) two_nodes t')
remove-Removed_example =
    remove-Removed pgid_cmp rebuild (pg_of 2 3) two_nodes pgid_cmp-IsOrder rebuild-Unlinks
      two_nodes-Sorted
