-- ===== src/Osd/Trees/Orders.antt =====
-- The comparison of pgs in osdmap.c is an order.
use kmod_ceph.Base.{ℕ, ◌≡◌, ap, ◌∙◌, arith}
use kmod_ceph.Osd.Trees.{Pg, pgid_cmp}
use kmod_ceph.Osd.Trees.Views.{IsOrder}

pg-eq : (a b : Pg) → a.pool ≡ b.pool → a.seed ≡ b.seed → a ≡ b
pg-eq a b e e' =
    ap (λ (n : ℕ). record { pool = n; seed = a.seed }) e
    ∙ ap (λ (n : ℕ). record { pool = b.pool; seed = n }) e'

pub pgid_cmp-IsOrder : IsOrder pgid_cmp
unfolding pgid_cmp
pgid_cmp-IsOrder = record {
  equal_eq = λ a b h. pg-eq a b (ground arith) (ground arith);
  self = λ a. ground arith;
  flip = λ a b h. ground arith;
  flip' = λ a b h. ground arith;
  trans = λ a b c h h'. ground arith;
}
