-- ===== src/Armor/Size.antt =====
-- How much `ceph_armor` writes.
use kmod_ceph.Base.{
  ℕ, ◌+◌, ◌*◌, ◌/◌, ◌<◌, ◌≡◌, refl, arith, ◌==◌, if◌then◌else◌, List, [], ◌∷◌, length,
  length-append,
}
use kmod_ceph.Armor.{
  Output, armor, armor_loop, end_quad, next_line, nothing, quad_of, last_of_one, last_of_two,
}

-- The characters of `quads` groups, with k groups on the current line so far.
abbrev pub written : ℕ → ℕ → ℕ
written quads k = 4 * quads + (k + quads) / 16

end_quad-size :
    (quad : List ℕ) (k : ℕ) (rest : Output)
    → length quad ≡ 4
    → ((end_quad quad (4 * k) rest).olen ≡ (if k == 15 then 5 else 4) + rest.olen)
      × (length (end_quad quad (4 * k) rest).dst ≡ (if k == 15 then 5 else 4) + length rest.dst)
unfolding end_quad
end_quad-size quad k rest h =
    (ground arith, ground (arith, length-append quad (10 ∷ rest.dst), length-append quad rest.dst))

armor_loop-size :
    (src : List ℕ) (k : ℕ)
    → k < 16
    → ((armor_loop src (4 * k)).olen ≡ written ((length src + 2) / 3) k)
      × (length (armor_loop src (4 * k)).dst ≡ (armor_loop src (4 * k)).olen)
unfolding armor_loop
armor_loop-size [] k h = (omega arith, refl)
armor_loop-size (a ∷ []) k h = ground (arith, end_quad-size (last_of_one a) k nothing refl)
armor_loop-size (a ∷ b ∷ []) k h = ground (arith, end_quad-size (last_of_two a b) k nothing refl)
armor_loop-size (a ∷ b ∷ c ∷ src) k h =
    let e : next_line (4 * k) ≡ 4 * (if k == 15 then 0 else k + 1) = ground arith in
    rw e (
      ground (
        arith,
        end_quad-size (quad_of a b c) k (armor_loop src (4 * (if k == 15 then 0 else k + 1))) refl,
        armor_loop-size src (if k == 15 then 0 else k + 1),
      ))

-- `ceph_armor` of n bytes returns the number of characters that it wrote: four for each three
-- bytes, the last group rounded up, and one line break after each sixteen groups.
pub armor-size :
    (src : List ℕ)
    → let quads = (length src + 2) / 3 in
      ((armor src).olen ≡ 4 * quads + quads / 16) × (length (armor src).dst ≡ (armor src).olen)
unfolding armor
armor-size src = ground (arith, armor_loop-size src 0)
