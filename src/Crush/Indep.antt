-- ===== src/Crush/Indep.antt =====
-- `crush_choose_indep` of net/ceph/crush/mapper.c; `r` is a word of 32 bits. `numrep` is positive and
-- the counter of failures, which stays below the tries, does not wrap.
use kmod_ceph.Base.{
  ℕ, zero, suc, ◌+◌, ◌-◌, ◌*◌, ◌%◌, Option, none, some, leb, ◌==◌, if◌then◌else◌, Bool, true, false,
  ◌&&◌, not, u32,
}
use kmod_ceph.Base.Int.{ℤ, pos, negsuc}
use kmod_ceph.Crush.Types.{Alg, uniform, list, tree, straw, other, Bucket}
use kmod_ceph.Crush.Bucket.{is_out}
use kmod_ceph.Crush.Firstn.{Config, at_least}
use kmod_ceph.Crush.State.{
  M, pure, lift, failed, out_of_fuel, ◌>>=◌, ◌>>◌, bucket_at, choose_in, read, write, type_of,
  int_eq, collides,
}

abbrev pub item_undef : ℤ
item_undef = pos 0x7ffffffe

abbrev pub item_none : ℤ
item_none = pos 0x7fffffff

-- `left` of the call is the number of its places; a null `out2` is `none`.
pub record IndepArgs : Type 0 where
  pub bucket : ℕ
  pub left : ℕ
  pub numrep : ℕ
  pub type : ℤ
  pub out : ℕ
  pub outpos : ℕ
  pub tries : ℕ
  pub recurse_tries : ℕ
  pub recurse_to_leaf : Bool
  pub out2 : Option ℕ
  pub parent_r : ℕ

-- A write to `out2`, if there is one.
pub write_out2 : Option ℕ → ℕ → ℤ → M (Unit {0})
write_out2 none rep v = pure tt
write_out2 (some out2) rep v = write (out2 + rep) v

-- `for (rep = outpos; rep < endpos; rep++)` that makes the places undefined.
pub undefine : IndepArgs → ℕ → ℕ → M (Unit {0})
undefine a zero rep = pure tt
undefine a (suc left) rep = do
  write (a.out + rep) item_undef
  write_out2 a.out2 rep item_undef
  undefine a left (rep + 1)

abbrev is_uniform : Alg → Bool
is_uniform (uniform w) = true
is_uniform (list w s) = false
is_uniform (tree n w) = false
is_uniform (straw w s) = false
is_uniform (other n) = false

pub indep_r : IndepArgs → Bucket → ℕ → ℕ → ℕ
indep_r a b rep ftotal = u32 (
    rep
    + a.parent_r
    + (if is_uniform b.alg && (b.size % a.numrep == 0)
        then (a.numrep + 1) * ftotal
        else a.numrep * ftotal))

-- The place gets no item: `left` falls by one.
pub give_up : IndepArgs → ℕ → M Bool
give_up a rep = do write (a.out + rep) item_none; write_out2 a.out2 rep item_none; pure true

abbrev pub indep_leaf_args : IndepArgs → ℕ → ℕ → ℕ → ℕ → IndepArgs
indep_leaf_args a out2 n rep r = record {
  bucket = n;
  left = 1;
  numrep = a.numrep;
  type = pos 0;
  out = out2;
  outpos = rep;
  tries = a.recurse_tries;
  recurse_tries = 0;
  recurse_to_leaf = false;
  out2 = none;
  parent_r = r;
}

-- The leaf under the item: whether there is one, in `out2`.
pub indep_leaf : (IndepArgs → M (Unit {0})) → IndepArgs → Option ℕ → ℕ → ℕ → ℤ → M Bool
indep_leaf sub a none rep r item = failed
indep_leaf sub a (some out2) rep r (negsuc n) = do
  sub (indep_leaf_args a out2 n rep r)
  v ← read (out2 + rep)
  pure (not (int_eq v item_none))
indep_leaf sub a (some out2) rep r (pos n) = do write (out2 + rep) (pos n); pure true

pub indep_out : Config → ℕ → ℤ → M Bool
indep_out c itemtype item =
    if itemtype == 0 then lift (is_out c.weight c.weight_max item c.x) else pure false

-- The tests for an item of the wanted type; true if it was placed, and `left` falls by one.
pub settle : (IndepArgs → M (Unit {0})) → Config → IndepArgs → ℕ → ℕ → ℤ → ℕ → M Bool
settle sub c a rep r item itemtype = do
  collide ← collides a.left (a.out + a.outpos) item
  if collide then pure false else (do
    leaf ← (if a.recurse_to_leaf then indep_leaf sub a a.out2 rep r item else pure true)
    if not leaf then pure false else (do
      out ← indep_out c itemtype item
      if out then pure false else (do write (a.out + rep) item; pure true)))

-- An item of another type: `again` goes on in its bucket, if it is one of the map.
pub indep_deeper : Config → IndepArgs → (ℕ → M Bool) → ℕ → ℤ → M Bool
indep_deeper c a again rep (pos n) = give_up a rep
indep_deeper c a again rep (negsuc n) = if leb c.max_buckets n then give_up a rep else again n

pub indep_visit :
    (IndepArgs → M (Unit {0})) → Config → IndepArgs → (ℕ → M Bool) → ℕ → ℕ → ℤ → M Bool
indep_visit sub c a again rep r item = if at_least item c.max_devices then give_up a rep else do
  itemtype ← type_of item
  if int_eq (pos itemtype) a.type
      then settle sub c a rep r item itemtype
      else indep_deeper c a again rep item

-- `for (;;)`: the descent for one place, with fuel; whether `left` falls.
pub indep_descend : (IndepArgs → M (Unit {0})) → Config → IndepArgs → ℕ → ℕ → ℕ → ℕ → M Bool
indep_descend sub c a rep ftotal zero cur = out_of_fuel
indep_descend sub c a rep ftotal (suc fuel) cur = do
  b ← bucket_at cur
  if b.size == 0 then pure false else (do
    item ← choose_in cur c.x (indep_r a b rep ftotal)
    indep_visit sub c a (indep_descend sub c a rep ftotal fuel) rep (indep_r a b rep ftotal) item)

-- One pass over the places, with the rounds left; it gives the new `left`.
pub indep_pass : (IndepArgs → M (Unit {0})) → Config → IndepArgs → ℕ → ℕ → ℕ → ℕ → ℕ → M ℕ
indep_pass sub c a fuel ftotal zero rep left = pure left
indep_pass sub c a fuel ftotal (suc rounds) rep left = do
  v ← read (a.out + rep)
  done ←
      (if int_eq v item_undef then indep_descend sub c a rep ftotal fuel a.bucket else pure false)
  indep_pass sub c a fuel ftotal rounds (rep + 1) (if done then left - 1 else left)

-- `for (ftotal = 0; left > 0 && ftotal < tries; ftotal++)`, with the rounds left.
pub indep_tries : (IndepArgs → M (Unit {0})) → Config → IndepArgs → ℕ → ℕ → ℕ → ℕ → M (Unit {0})
indep_tries sub c a fuel zero ftotal left = pure tt
indep_tries sub c a fuel (suc rounds) ftotal zero = pure tt
indep_tries sub c a fuel (suc rounds) ftotal (suc left) = do
  left' ← indep_pass sub c a fuel ftotal a.left a.outpos (suc left)
  indep_tries sub c a fuel rounds (ftotal + 1) left'

pub none_if_undef : ℕ → M (Unit {0})
none_if_undef i = do v ← read i; if int_eq v item_undef then write i item_none else pure tt

pub finish_out2 : Option ℕ → ℕ → M (Unit {0})
finish_out2 none rep = pure tt
finish_out2 (some out2) rep = none_if_undef (out2 + rep)

-- The last loop: what is still undefined becomes none.
pub define_rest : IndepArgs → ℕ → ℕ → M (Unit {0})
define_rest a zero rep = pure tt
define_rest a (suc left) rep = do
  none_if_undef (a.out + rep)
  finish_out2 a.out2 rep
  define_rest a left (rep + 1)

-- The recursion is one level deep: the inner call has `recurse_to_leaf` 0. The first argument
-- bounds its depth.
pub choose_indep : ℕ → Config → ℕ → IndepArgs → M (Unit {0})
choose_indep zero c fuel a = out_of_fuel
choose_indep (suc depth) c fuel a = do
  undefine a a.left a.outpos
  indep_tries (choose_indep depth c fuel) c a fuel a.tries 0 a.left
  define_rest a a.left a.outpos
