-- ===== src/Osd/Tests.antt =====
-- Runs of the arithmetic of the osd map, and the theorems at them.
use kmod_ceph.Base.{◌≡◌, ◌<◌, ◌⊎◌, refl, arith, ℕ, List, [], ◌∷◌, false, true, some, none}
use kmod_ceph.Osd.Striping.{
  FileLayout, Extent, is_invalid, calc_file_object_mapping, extent_of, IsExtent, IsRefused,
  IsAccepted, calc_file_object_mapping-IsExtent,
}
use kmod_ceph.Osd.Layout.{file_layout_is_valid, is_invalid-file_layout_is_valid}
use kmod_ceph.Osd.StrHash.{str_hash, str_hash-width}
use kmod_ceph.Osd.Bins.{stable_mod, pg_mask, calc_bits_of, bits_loop, stable_mod-stable}

abbrev two_stripes : FileLayout
two_stripes = record { stripe_unit = 65536; stripe_count = 2; object_size = 131072 }

two_stripes_valid : file_layout_is_valid two_stripes ≡ true
unfolding file_layout_is_valid
two_stripes_valid = refl

-- Block 5 of the file is the second block of object 1 in the second set.
block_five :
    calc_file_object_mapping 12 two_stripes 330000 100000
    ≡ some (record { ono = 3; oxoff = 2320; oxlen = 63216 })
unfolding calc_file_object_mapping extent_of
block_five = refl

calc_file_object_mapping-IsExtent_example :
    IsRefused 12 two_stripes × (calc_file_object_mapping 12 two_stripes 330000 100000 ≡ none)
    ⊎ IsAccepted 12 two_stripes
      × ((e : Extent) × (calc_file_object_mapping 12 two_stripes 330000 100000 ≡ some e)
          × IsExtent two_stripes 330000 100000 e)
calc_file_object_mapping-IsExtent_example =
    calc_file_object_mapping-IsExtent 12 two_stripes 330000 100000 (omega arith) (omega arith)

twelve_bins : stable_mod 29 12 (pg_mask 12) ≡ 5
unfolding stable_mod pg_mask calc_bits_of bits_loop
twelve_bins = refl

stable_mod-stable_example :
    (stable_mod 29 12 (pg_mask 12) < 12)
    × ((stable_mod 29 13 (pg_mask 13) ≡ stable_mod 29 12 (pg_mask 12))
        ⊎ (stable_mod 29 13 (pg_mask 13) ≡ 12))
stable_mod-stable_example = stable_mod-stable 29 12 (omega arith) (omega arith)

is_invalid-file_layout_is_valid_example : is_invalid 12 two_stripes ≡ false
is_invalid-file_layout_is_valid_example =
    is_invalid-file_layout_is_valid 12 two_stripes (omega arith) two_stripes_valid

-- "rbd_id"
abbrev rbd_id : List ℕ
rbd_id = 114 ∷ 98 ∷ 100 ∷ 95 ∷ 105 ∷ 100 ∷ []

str_hash-width_example : str_hash 64 1 rbd_id ≡ str_hash 32 1 rbd_id
str_hash-width_example = str_hash-width 1 rbd_id
