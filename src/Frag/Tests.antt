-- ===== src/Frag/Tests.antt =====
-- Runs of the frag helpers, and the theorems at concrete frags.
use kmod_ceph.Base.{ℕ, ◌≡◌, ◌↔◌, ◌⊎◌, ◌+◌, refl, arith, true, false}
use kmod_ceph.Base.Int.{pos}
use kmod_ceph.Frag.{
  IsFrag, frag_sibling, frag_make, frag_bits, frag_value, frag_contains_value, frag_contains_frag,
  frag_parent, frag_is_right_child, frag_left_child, frag_right_child, frag_make_child, frag_next,
  frag_compare,
}
use kmod_ceph.Frag.Containment.{
  frag_make-fields, frag_contains_value_iff, frag_contains_frag_iff, InRange,
}
use kmod_ceph.Frag.Tree.{
  children-IsFrag, frag_children_partition, frag_is_right_child-false, frag_next-IsFrag,
  frag_make_child-IsFrag,
}
use kmod_ceph.Frag.Order.{frag_compare-order}

-- The second quarter of the space.
abbrev quarter : ℕ
quarter = 0x2400000

quarter-IsFrag : IsFrag quarter 2 1
quarter-IsFrag = record { depth = omega arith; fits = omega arith; word = refl }

-- Its right half.
abbrev eighth : ℕ
eighth = 0x3600000

eighth-IsFrag : IsFrag eighth (2 + 1) 3
eighth-IsFrag = record { depth = omega arith; fits = omega arith; word = refl }

right_child_runs : frag_right_child quarter ≡ eighth
unfolding frag_right_child frag_make frag_bits frag_value
right_child_runs = refl

right_child_unseen : frag_is_right_child eighth ≡ false
unfolding frag_is_right_child frag_bits frag_value
right_child_unseen = refl

frag_make-fields_example : frag_value (frag_make 2 0x567890) ≡ 0x400000
frag_make-fields_example = (frag_make-fields 2 0x567890 (omega arith)).2

frag_contains_value_iff_example :
    (frag_contains_value quarter 0x567890 ≡ true) ↔ InRange 2 1 0x567890
frag_contains_value_iff_example = frag_contains_value_iff quarter 2 1 0x567890 quarter-IsFrag

frag_contains_frag_iff_example :
    (frag_contains_frag quarter eighth ≡ true)
    ↔ ((v : ℕ) → frag_contains_value eighth v ≡ true → frag_contains_value quarter v ≡ true)
frag_contains_frag_iff_example =
    frag_contains_frag_iff quarter eighth 2 1 3 3 quarter-IsFrag eighth-IsFrag

children-IsFrag_example :
    (frag_parent (frag_left_child quarter) ≡ quarter)
    × (frag_parent (frag_right_child quarter) ≡ quarter)
    × (frag_sibling (frag_left_child quarter) ≡ frag_right_child quarter)
    × (frag_sibling (frag_right_child quarter) ≡ frag_left_child quarter)
    × IsFrag (frag_left_child quarter) 3 2
    × IsFrag (frag_right_child quarter) 3 3
children-IsFrag_example = children-IsFrag quarter 2 1 quarter-IsFrag (omega arith)

frag_children_partition_example : (frag_contains_value quarter 0x567890 ≡ true) ↔ (
    (frag_contains_value (frag_left_child quarter) 0x567890 ≡ true)
    ⊎ (frag_contains_value (frag_right_child quarter) 0x567890 ≡ true))
frag_children_partition_example =
    (frag_children_partition quarter 2 1 0x567890 quarter-IsFrag (omega arith)).0

frag_is_right_child-false_example : frag_is_right_child eighth ≡ false
frag_is_right_child-false_example = frag_is_right_child-false eighth 2 3 eighth-IsFrag (omega arith)

frag_next-IsFrag_example : IsFrag (frag_next quarter) 2 2
frag_next-IsFrag_example = frag_next-IsFrag quarter 2 1 quarter-IsFrag (omega arith)

frag_make_child-IsFrag_example : IsFrag (frag_make_child quarter 3 5) 5 13
frag_make_child-IsFrag_example =
    frag_make_child-IsFrag quarter 2 1 3 5 quarter-IsFrag (omega arith) (omega arith)

frag_compare-order_example : (frag_compare quarter eighth ≡ pos 0) ↔ (◌≡◌ {A = ℕ} quarter eighth)
frag_compare-order_example = (frag_compare-order quarter eighth).0
