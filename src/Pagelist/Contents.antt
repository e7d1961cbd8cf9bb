-- ===== src/Pagelist/Contents.antt =====
-- What `ceph_pagelist_append` does to the bytes of the list.
use kmod_ceph.Base.{
  ℕ, zero, suc, ◌+◌, ◌-◌, ◌*◌, ◌^◌, ◌≤◌, ◌<◌, min, bit_and, ◌≡◌, refl, sym, subst, ap, ◌∙◌, ◌⊎◌,
  inl, inr, Bool, true, false, Option, some, List, [], ◌∷◌, ◌++◌, arith, ltb, ◌==◌, Bool-cases,
  length, set, take, drop, All, length-append, length-set, length-take, length-drop,
  take-append-drop, mod_unique, take-append, take-suc-set, take-length, ltb→lt,
}
use mathlib.Core.List.{append_assoc, append-nil}
use kmod_ceph.Base.Bits.{bit_and_low, pow-pos}
use kmod_ceph.Crush.Outcome.{Outcome, ok, ◌>>=◌}
use kmod_ceph.Crush.Bucket.Perm.{store-ok}
use kmod_ceph.Pagelist.{
  Page, Status, done, no_memory, PageList, copy, write_tail, append_bytes, from_supply, from_free,
  next_page, link_page, addpage, go_on, append_loop, pagelist_append,
}

-- All bytes of the pages, oldest first.
abbrev pub flat : List Page → List ℕ
flat [] = []
flat (p ∷ ps) = flat ps ++ p

-- The bytes that the list stands for.
abbrev pub contents : PageList → List ℕ
contents pl = take pl.length (flat pl.head)

abbrev pub Sized : ℕ → List Page → Type 0
Sized shift ps = All (λ p. length p ≡ 2 ^ shift) ps

-- The counts fit the pages.
pub record IsValid (shift : ℕ) (pl : PageList) : Type 0 where
  pub sizes : Sized shift pl.head
  pub fill : pl.length + pl.room ≡ length pl.head * 2 ^ shift
  pub room_le : pl.room ≤ 2 ^ shift
  pub tail : (pl.head ≡ []) ⊎ (pl.mapped ≡ true)
  pub spare : length pl.free_list ≡ pl.num_pages_free
  pub spare_sizes : Sized shift pl.free_list
  pub supply_sizes : Sized shift pl.supply

copy_lem :
    (p : Page) (off : ℕ) (buf : List ℕ)
    → off + length buf ≤ length p
    → (p' : Page) × (copy p off buf ≡ ok p')
      × (length p' ≡ length p)
      × (take (off + length buf) p' ≡ take off p ++ buf)
unfolding copy
copy_lem p off [] h =
    let e : off + 0 ≡ off = omega arith in (p, refl, refl, rw (e, append-nil) refl)
copy_lem p off (b ∷ buf) h =
    let s = length-set p off b in
    let (p', run, len, bytes) = copy_lem (set p off b) (off + 1) buf (omega arith) in
    let e : off + suc (length buf) ≡ off + 1 + length buf = omega arith in
    let e' : off + 1 ≡ suc off = omega arith in
    let step : take (off + 1) (set p off b) ≡ take off p ++ b ∷ [] =
      rw e' (take-suc-set p off b (omega arith)) in
    (
      p',
      rw (store-ok p off b (omega arith)) run,
      len ∙ s,
      rw e bytes ∙ ap (λ t. t ++ buf) step ∙ append_assoc (take off p) (b ∷ []) buf,
    )

length-flat :
    (shift : ℕ) (ps : List Page) → Sized shift ps → length (flat ps) ≡ length ps * 2 ^ shift
length-flat shift [] h = omega arith
length-flat shift (p ∷ ps) h = omega (arith, length-append (flat ps) p, length-flat shift ps h.1)

-- A copy to the newest page, which has `u` bytes so far.
write_tail_lem :
    (shift : ℕ) (mapped : Bool) (p : Page) (ps : List Page) (u : ℕ) (buf : List ℕ)
    → Sized shift (p ∷ ps)
    → mapped ≡ true
    → u + length buf ≤ 2 ^ shift
    → (head : List Page) × (write_tail mapped (p ∷ ps) u buf ≡ ok head)
      × (length head ≡ length (p ∷ ps))
      × Sized shift head
      × (take (length ps * 2 ^ shift + (u + length buf)) (flat head)
          ≡ take (length ps * 2 ^ shift + u) (flat (p ∷ ps)) ++ buf)
unfolding write_tail
write_tail_lem shift mapped p ps u [] sized m h =
    let e : u + 0 ≡ u = omega arith in (p ∷ ps, refl, refl, sized, rw (e, append-nil) refl)
write_tail_lem shift true p ps u (b ∷ buf) sized m h =
    let (p', run, len, bytes) = copy_lem p u (b ∷ buf) (omega (arith, sized.0)) in
    let n : length ps * 2 ^ shift ≡ length (flat ps) = sym (length-flat shift ps sized.1) in
    (
      p' ∷ ps,
      rw run refl,
      refl,
      (len ∙ sized.0, sized.1),
      rw n (
          take-append (flat ps) p' (u + length (b ∷ buf))
          ∙ ap (λ t. flat ps ++ t) bytes
          ∙ sym (append_assoc (flat ps) (take u p) (b ∷ buf))
          ∙ ap (λ t. t ++ b ∷ buf) (sym (take-append (flat ps) p u))),
    )
write_tail_lem shift false p ps u (b ∷ buf) sized m h = cc

-- A copy at the place that the length of the list names.
write_at_length :
    (shift : ℕ) (mapped : Bool) (head : List Page) (len room : ℕ) (buf : List ℕ)
    → Sized shift head
    → len + room ≡ length head * 2 ^ shift
    → room ≤ 2 ^ shift
    → (head ≡ []) ⊎ (mapped ≡ true)
    → length buf ≤ room
    → (head' : List Page) × (write_tail mapped head (bit_and len (2 ^ shift - 1)) buf ≡ ok head')
      × (length head' ≡ length head)
      × Sized shift head'
      × ((head' ≡ []) ⊎ (mapped ≡ true))
      × (take (len + length buf) (flat head') ≡ take len (flat head) ++ buf)
unfolding write_tail
write_at_length shift mapped head len room [] sized fill le tail h =
    let e : len + 0 ≡ len = omega arith in (head, refl, refl, sized, tail, rw (e, append-nil) refl)
write_at_length shift mapped [] len room (b ∷ buf) sized fill le tail h = absurd (omega arith)
write_at_length shift mapped (p ∷ ps) len room (b ∷ buf) sized fill le (inl tail) h = cc
write_at_length shift mapped (p ∷ ps) len room (b ∷ buf) sized fill le (inr tail) h =
    let u : ℕ = 2 ^ shift - room in
    let at : len ≡ length ps * 2 ^ shift + u = omega arith in
    let place : bit_and len (2 ^ shift - 1) ≡ u =
      bit_and_low shift len ∙ mod_unique len (2 ^ shift) (length ps) u at (omega arith) in
    let (head, run, n, sized', bytes) =
      write_tail_lem shift mapped p ps u (b ∷ buf) sized tail (omega arith) in
    let e : len + length (b ∷ buf) ≡ length ps * 2 ^ shift + (u + length (b ∷ buf)) = omega arith in
    (
      head,
      ap (λ (k : ℕ). write_tail mapped (p ∷ ps) k (b ∷ buf)) place ∙ run,
      n,
      sized',
      inr tail,
      rw e bytes ∙ ap (λ (k : ℕ). take k (flat (p ∷ ps)) ++ b ∷ buf) (sym at),
    )

-- What one copy gives: the bytes are added, and no page is used.
pub record Copied (shift : ℕ) (pl : PageList) (buf : List ℕ) (pl' : PageList) : Type 0 where
  pub valid : IsValid shift pl'
  pub bytes : contents pl' ≡ contents pl ++ buf
  pub room_eq : pl'.room ≡ pl.room - length buf
  pub free_eq : pl'.num_pages_free ≡ pl.num_pages_free
  pub supply_eq : pl'.supply ≡ pl.supply

append_bytes-Copied :
    (shift : ℕ) (pl : PageList) (buf : List ℕ)
    → IsValid shift pl
    → length buf ≤ pl.room
    → (pl' : PageList) × (append_bytes shift pl buf ≡ ok pl') × Copied shift pl buf pl'
unfolding append_bytes
append_bytes-Copied shift pl buf v h =
    let (head, run, n, sized, tail, bytes) =
      write_at_length shift pl.mapped pl.head pl.length pl.room buf v.sizes v.fill v.room_le v.tail
        h in
    (
      record pl { head = head; length = pl.length + length buf; room = pl.room - length buf },
      rw run refl,
      record {
        valid = record {
          sizes = sized;
          fill = omega (arith, v.fill, ap (λ (k : ℕ). k * 2 ^ shift) n);
          room_le = omega (arith, v.room_le);
          tail = tail;
          spare = v.spare;
          spare_sizes = v.spare_sizes;
          supply_sizes = v.supply_sizes;
        };
        bytes = bytes;
        room_eq = refl;
        free_eq = refl;
        supply_eq = refl;
      },
    )

-- What a new page gives: room for its bytes, and the contents as they were; a spare page is taken
-- first, and only the lack of any page is an error.
pub record Added (shift : ℕ) (pl : PageList) (r : Status × PageList) : Type 0 where
  pub valid : IsValid shift r.1
  pub bytes : contents r.1 ≡ contents pl
  pub room_eq : r.0 ≡ done → r.1.room ≡ 2 ^ shift
  pub spare_first :
      0 < pl.num_pages_free
      → (r.0 ≡ done) × (r.1.supply ≡ pl.supply) × (r.1.num_pages_free + 1 ≡ pl.num_pages_free)
  pub failed :
      r.0 ≡ no_memory → (pl.num_pages_free ≡ 0) × (r.1.num_pages_free ≡ 0) × (r.1.supply ≡ [])

-- A page after the last byte changes no byte.
take-flat :
    (shift : ℕ) (p : Page) (ps : List Page) (n : ℕ)
    → Sized shift ps
    → n ≡ length ps * 2 ^ shift
    → take n (flat ps ++ p) ≡ take n (flat ps)
take-flat shift p ps n sized e =
    let l : n ≡ length (flat ps) = e ∙ sym (length-flat shift ps sized) in
    let z : length (flat ps) ≡ length (flat ps) + 0 = omega arith in
    let whole : take (length (flat ps)) (flat ps ++ p) ≡ flat ps =
      ap (λ (k : ℕ). take k (flat ps ++ p)) z ∙ take-append (flat ps) p 0 ∙ append-nil (flat ps) in
    rw l (whole ∙ sym (take-length (flat ps)))

module _ (shift : ℕ) (pl : PageList) (v : IsValid shift pl) (full : pl.room ≡ 0) where
  from_supply-Added :
      (s : List Page)
      → pl.supply ≡ s
      → pl.num_pages_free ≡ 0
      → Added shift pl (link_page shift (from_supply pl s).0 (from_supply pl s).1)
  unfolding link_page from_supply
  from_supply-Added [] e none_free = record {
    valid = v;
    bytes = refl;
    room_eq = λ h. cc;
    spare_first = λ h. absurd (omega arith);
    failed = λ h. (none_free, none_free, e);
  }
  from_supply-Added (p ∷ s) e none_free =
      let sized : Sized shift (p ∷ s) = subst (λ t. Sized shift t) e v.supply_sizes in
      record {
        valid = record {
          sizes = (sized.0, v.sizes);
          fill = omega (arith, v.fill);
          room_le = omega arith;
          tail = inr refl;
          spare = v.spare;
          spare_sizes = v.spare_sizes;
          supply_sizes = sized.1;
        };
        bytes = take-flat shift p pl.head pl.length v.sizes (omega (arith, v.fill));
        room_eq = λ h. omega arith;
        spare_first = λ h. absurd (omega arith);
        failed = λ h. cc;
      }

  from_free-Added :
      (f : List Page)
      → pl.free_list ≡ f
      → 0 < pl.num_pages_free
      → (r : Option Page × PageList) × (from_free pl f ≡ ok r)
        × Added shift pl (link_page shift r.0 r.1)
  unfolding link_page from_free
  from_free-Added [] e some_free = absurd (omega (arith, v.spare, ap length e))
  from_free-Added (p ∷ f) e some_free =
      let sized : Sized shift (p ∷ f) = subst (λ t. Sized shift t) e v.spare_sizes in
      (
        (some p, record pl { free_list = f; num_pages_free = pl.num_pages_free - 1 }),
        refl,
        record {
          valid = record {
            sizes = (sized.0, v.sizes);
            fill = omega (arith, v.fill);
            room_le = omega arith;
            tail = inr refl;
            spare = omega (arith, v.spare, ap length e);
            spare_sizes = sized.1;
            supply_sizes = v.supply_sizes;
          };
          bytes = take-flat shift p pl.head pl.length v.sizes (omega (arith, v.fill));
          room_eq = λ h. omega arith;
          spare_first = λ h. (refl, refl, omega arith);
          failed = λ h. cc;
        },
      )

  addpage-Added : (r : Status × PageList) × (addpage shift pl ≡ ok r) × Added shift pl r
  unfolding addpage next_page
  addpage-Added = elim (Bool-cases (pl.num_pages_free == 0)) [
    | inl empty ↦ (
      link_page shift (from_supply pl pl.supply).0 (from_supply pl pl.supply).1,
      rw (empty, ◌>>=◌) refl,
      from_supply-Added pl.supply refl (ground arith),
    )
    | inr spare ↦
        let (r, e, added) = from_free-Added pl.free_list refl (ground arith) in
        (link_page shift r.0 r.1, rw (spare, e) refl, added)
  ]

take-add :
    (n k : ℕ) (xs : List ℕ) → n ≤ length xs → take (n + k) xs ≡ take n xs ++ take k (drop n xs)
take-add zero k xs h = let e : 0 + k ≡ k = omega arith in rw e refl
take-add (suc n) k [] h = absurd (omega arith)
take-add (suc n) k (x ∷ xs) h =
    let e : suc n + k ≡ suc (n + k) = omega arith in
    rw e (ap (λ t. x ∷ t) (take-add n k xs (omega arith)))

-- What `ceph_pagelist_append` gives: all bytes are added, or a part of them when the pages run out;
-- pages that were set aside for the bytes are enough.
pub record Appended (shift : ℕ) (pl : PageList) (buf : List ℕ) (r : Status × PageList)
    : Type 0 where
  pub valid : IsValid shift r.1
  pub all_bytes : r.0 ≡ done → contents r.1 ≡ contents pl ++ buf
  pub failed :
      r.0 ≡ no_memory
      → (k : ℕ) × (contents r.1 ≡ contents pl ++ take k buf)
        × (r.1.num_pages_free ≡ 0)
        × (r.1.supply ≡ [])
  pub reserved :
      length buf ≤ pl.room + pl.num_pages_free * 2 ^ shift → (r.0 ≡ done) × (r.1.supply ≡ pl.supply)

spare_needed : (len room n page : ℕ) → room < len → len ≤ room + n * page → 0 < n
spare_needed len room zero page lt h = absurd (omega arith)
spare_needed len room (suc n) page lt h = omega arith

module _ (shift : ℕ) where
  abbrev Loops : (PageList → List ℕ → Outcome (Status × PageList)) → PageList → List ℕ → Type 0
  Loops again pl buf = (r : Status × PageList) × (again pl buf ≡ ok r) × Appended shift pl buf r

  -- A round that fills the newest page, and what comes after it.
  go_on-Appended :
      (again : PageList → List ℕ → Outcome (Status × PageList)) (pl pl1 : PageList) (buf : List ℕ)
      → pl.room < length buf
      → Copied shift pl (take pl.room buf) pl1
      → (r : Status × PageList) → Added shift pl1 r
      → ((pl2 : PageList)
          → IsValid shift pl2
          → pl2.room ≡ 2 ^ shift
          → Loops again pl2 (drop pl.room buf))
      → (r' : Status × PageList) × (go_on again (drop pl.room buf) r ≡ ok r')
        × Appended shift pl buf r'
  unfolding go_on
  go_on-Appended again pl pl1 buf lt c (no_memory, pl2) a ih = (
    (no_memory, pl2),
    refl,
    record {
      valid = a.valid;
      all_bytes = λ h. cc;
      failed = λ h. (pl.room, a.bytes ∙ c.bytes, (a.failed h).1, (a.failed h).2);
      reserved = λ h. absurd (
          omega (
            arith,
            spare_needed (length buf) pl.room pl.num_pages_free (2 ^ shift) lt h,
            c.free_eq,
            (a.failed refl).0,
          ));
    },
  )
  go_on-Appended again pl pl1 buf lt c (done, pl2) a ih =
      let (r, e, x) = ih pl2 a.valid (a.room_eq refl) in
      let start : contents pl2 ≡ contents pl ++ take pl.room buf = a.bytes ∙ c.bytes in
      (
        r,
        e,
        record {
          valid = x.valid;
          all_bytes = λ h.
              x.all_bytes h
              ∙ ap (λ t. t ++ drop pl.room buf) start
              ∙ append_assoc (contents pl) (take pl.room buf) (drop pl.room buf)
              ∙ ap (λ t. contents pl ++ t) (take-append-drop pl.room buf);
          failed = λ h.
              let (k, bytes, nf, ns) = x.failed h in
              (
                pl.room + k,
                bytes
                    ∙ ap (λ t. t ++ take k (drop pl.room buf)) start
                    ∙ append_assoc (contents pl) (take pl.room buf) (take k (drop pl.room buf))
                    ∙ ap (λ t. contents pl ++ t) (sym (take-add pl.room k buf (omega arith))),
                nf,
                ns,
              );
          reserved = λ h.
              let some_spare =
                spare_needed (length buf) pl.room pl.num_pages_free (2 ^ shift) lt h in
              let (d, same, one) = a.spare_first (omega (arith, c.free_eq, some_spare)) in
              let l = length-drop pl.room buf in
              let count : pl.num_pages_free ≡ pl2.num_pages_free + 1 =
                omega (arith, one, c.free_eq) in
              let q = ap (λ (k : ℕ). k * 2 ^ shift) count in
              let (d', same') = x.reserved (omega (arith, a.room_eq refl)) in
              (d', same' ∙ same ∙ c.supply_eq);
        },
      )

  append_loop-Appended :
      (fuel : ℕ) (pl : PageList) (buf : List ℕ)
      → IsValid shift pl
      → length buf + 2 ≤ fuel + min pl.room 1
      → Loops (append_loop shift fuel) pl buf
  unfolding append_loop
  append_loop-Appended zero pl buf v h = absurd (omega arith)
  append_loop-Appended (suc fuel) pl buf v h = elim (Bool-cases (ltb pl.room (length buf))) [
    | inl more ↦
        let lt : pl.room < length buf = ltb→lt pl.room (length buf) more in
        let l = length-take pl.room buf in
        let l' = length-drop pl.room buf in
        let (pl1, e1, c) = append_bytes-Copied shift pl (take pl.room buf) v (omega arith) in
        let (r, e2, a) = addpage-Added shift pl1 c.valid (omega (arith, c.room_eq)) in
        let p = pow-pos shift in
        let (r', e3, x) =
          go_on-Appended (append_loop shift fuel) pl pl1 buf lt c r a
            (λ pl2 v2 full. append_loop-Appended fuel pl2 (drop pl.room buf) v2 (omega arith)) in
        (r', rw (more, e1, e2) e3, x)
    | inr last ↦
        let le : length buf ≤ pl.room = ground arith in
        let (pl1, e1, c) = append_bytes-Copied shift pl buf v le in
        (
          (done, pl1),
          rw (last, e1) refl,
          record {
            valid = c.valid;
            all_bytes = λ q. c.bytes;
            failed = λ q. cc;
            reserved = λ q. (refl, c.supply_eq);
          },
        )
  ]

  -- `ceph_pagelist_append` on a list whose counts fit its pages ends, without a copy outside a page,
  -- and the counts fit again. When it succeeds, the bytes of the list are those before and then the
  -- buffer; when it gives -ENOMEM, a part of the buffer has been added, and no page is left, spare or
  -- new. Room and spare pages for the whole buffer make it succeed without a new page.
  pub pagelist_append-Appended :
      (pl : PageList) (buf : List ℕ)
      → IsValid shift pl
      → (r : Status × PageList) × (pagelist_append shift pl buf ≡ ok r) × Appended shift pl buf r
  unfolding pagelist_append
  pagelist_append-Appended pl buf v = append_loop-Appended (length buf + 2) pl buf v (omega arith)
