-- ===== src/Base/Bits.antt =====
-- `&`, `|` and `^` at variables, from the recursion on binary digits that the native operations mean.
use native.Mathlib.Nat.{pow-succ'}
use Prim.Native.Nat.{digits, bitwise, differ, bit_and-bitwise, bit_or-bitwise, bit_xor-bitwise}
use Prim.Native.Nat.{ℕ, zero, suc, ◌+◌, ◌-◌, ◌*◌, ◌/◌, ◌%◌, ◌^◌, ◌≤◌, ◌<◌, min, max}
use Prim.Native.Nat.{bit_and, bit_or, bit_xor}
use mathlib.Core.Path.{◌≡◌, refl, sym, ap, ◌∙◌}
use native.Mathlib.Nat.{pow-suc, one-le-pow}
use native.Mathlib.Omega.{arith}

module _ (end : ℕ → ℕ) (on_digits : ℕ → ℕ → ℕ) where
  abbrev run : ℕ → ℕ → ℕ → ℕ
  run fuel x y = digits end on_digits fuel x y

  -- One more unit of fuel than the first number changes nothing.
  one_spare : (fuel x y : ℕ) → x ≤ fuel → run (suc fuel) x y ≡ run fuel x y
  one_spare zero (suc x) y enough = absurd (omega arith)
  one_spare zero zero y enough = refl
  one_spare (suc fuel) zero y enough = refl
  one_spare (suc fuel) (suc x) y enough =
      omega (arith, one_spare fuel (suc x / 2) (y / 2) (omega arith))

  -- Nor does any other amount.
  spare : (extra fuel x y : ℕ) → x ≤ fuel → run (fuel + extra) x y ≡ run fuel x y
  spare zero fuel x y enough = let e : fuel + 0 ≡ fuel = omega arith in rw e refl
  spare (suc extra) fuel x y enough =
      let e : fuel + suc extra ≡ suc (fuel + extra) = omega arith in
      rw e (one_spare (fuel + extra) x y (omega arith) ∙ spare extra fuel x y enough)

  lowest_digit :
      (x y : ℕ)
      → bitwise end on_digits (suc x) y
        ≡ bitwise end on_digits (suc x / 2) (y / 2) * 2 + on_digits (suc x % 2) (y % 2)
  lowest_digit x y =
      let half : ℕ = suc x / 2 in
      let e : suc x / 2 + (x - suc x / 2) ≡ x = omega arith in
      let drop : run x half (y / 2) ≡ run half half (y / 2) =
        ap (λ (t : ℕ). run t half (y / 2)) (sym e)
        ∙ spare (x - suc x / 2) half half (y / 2) (omega arith) in
      ap (λ (t : ℕ). t * 2 + on_digits (suc x % 2) (y % 2)) drop

pub bit_and_digit : (a b : ℕ) → bit_and a b ≡ bit_and (a / 2) (b / 2) * 2 + min (a % 2) (b % 2)
bit_and_digit zero b = simp bit_and-bitwise (omega arith)
bit_and_digit (suc a) b = simp bit_and-bitwise (lowest_digit (λ y. 0) min a b)

pub bit_or_digit : (a b : ℕ) → bit_or a b ≡ bit_or (a / 2) (b / 2) * 2 + max (a % 2) (b % 2)
bit_or_digit zero b = simp bit_or-bitwise (omega arith)
bit_or_digit (suc a) b = simp bit_or-bitwise (lowest_digit (λ y. y) max a b)

differ-zero : (b : ℕ) → b < 2 → differ 0 b ≡ b
differ-zero zero h = refl
differ-zero (suc zero) h = refl
differ-zero (suc (suc b)) h = absurd (omega arith)

pub bit_xor_digit : (a b : ℕ) → bit_xor a b ≡ bit_xor (a / 2) (b / 2) * 2 + differ (a % 2) (b % 2)
bit_xor_digit zero b = simp bit_xor-bitwise (omega (arith, differ-zero (b % 2) (omega arith)))
bit_xor_digit (suc a) b = simp bit_xor-bitwise (lowest_digit (λ y. y) differ a b)

double-pow : (q k : ℕ) → q * 2 ^ suc k ≡ 2 * (q * 2 ^ k)
double-pow q k = omega (arith, ap (λ (t : ℕ). q * t) (pow-suc 2 k))

-- An operation on digits acts on the digits above and below any place apart.
module _ (op f : ℕ → ℕ → ℕ)
    (digit : (a b : ℕ) → op a b ≡ op (a / 2) (b / 2) * 2 + f (a % 2) (b % 2))
    (none_set : op 0 0 ≡ 0) where
  split_at :
      (k q r m s : ℕ)
      → r < 2 ^ k
      → s < 2 ^ k
      → op (q * 2 ^ k + r) (m * 2 ^ k + s) ≡ op q m * 2 ^ k + op r s
  split_at zero q r m s hr hs =
      let r0 : r ≡ 0 = omega arith in
      let s0 : s ≡ 0 = omega arith in
      let eq : q * 2 ^ 0 + 0 ≡ q = omega arith in
      let em : m * 2 ^ 0 + 0 ≡ m = omega arith in rw (r0, s0, eq, em, none_set) (omega arith)
  split_at (suc k) q r m s hr hs =
      let p : 2 ^ suc k ≡ 2 * 2 ^ k = omega (arith, pow-suc 2 k) in
      let hq : (q * 2 ^ suc k + r) / 2 ≡ q * 2 ^ k + r / 2 = omega (arith, double-pow q k) in
      let hm : (m * 2 ^ suc k + s) / 2 ≡ m * 2 ^ k + s / 2 = omega (arith, double-pow m k) in
      let dq : (q * 2 ^ suc k + r) % 2 ≡ r % 2 = omega (arith, double-pow q k) in
      let dm : (m * 2 ^ suc k + s) % 2 ≡ s % 2 = omega (arith, double-pow m k) in
      let ih = split_at k q (r / 2) m (s / 2) (omega arith) (omega arith) in
      rw (digit (q * 2 ^ suc k + r) (m * 2 ^ suc k + s), hq, hm, dq, dm, ih)
        (omega (arith, digit r s, double-pow (op q m) k))

pub bit_and_split :
    (k q r m s : ℕ)
    → r < 2 ^ k
    → s < 2 ^ k
    → bit_and (q * 2 ^ k + r) (m * 2 ^ k + s) ≡ bit_and q m * 2 ^ k + bit_and r s
bit_and_split = split_at bit_and min bit_and_digit refl

pub bit_or_split :
    (k q r m s : ℕ)
    → r < 2 ^ k
    → s < 2 ^ k
    → bit_or (q * 2 ^ k + r) (m * 2 ^ k + s) ≡ bit_or q m * 2 ^ k + bit_or r s
bit_or_split = split_at bit_or max bit_or_digit refl

pub bit_xor_split :
    (k q r m s : ℕ)
    → r < 2 ^ k
    → s < 2 ^ k
    → bit_xor (q * 2 ^ k + r) (m * 2 ^ k + s) ≡ bit_xor q m * 2 ^ k + bit_xor r s
bit_xor_split = split_at bit_xor differ bit_xor_digit refl

and-zero_within : (n a : ℕ) → a ≤ n → bit_and a 0 ≡ 0
and-zero_within n zero h = refl
and-zero_within zero (suc a) h = absurd (omega arith)
and-zero_within (suc n) (suc a) h =
    omega (arith, bit_and_digit (suc a) 0, and-zero_within n (suc a / 2) (omega arith))

pub bit_and-zero : (a : ℕ) → bit_and a 0 ≡ 0
bit_and-zero a = and-zero_within a a (omega arith)

or-zero_within : (n a : ℕ) → a ≤ n → bit_or a 0 ≡ a
or-zero_within n zero h = refl
or-zero_within zero (suc a) h = absurd (omega arith)
or-zero_within (suc n) (suc a) h =
    omega (arith, bit_or_digit (suc a) 0, or-zero_within n (suc a / 2) (omega arith))

pub bit_or-zero : (a : ℕ) → bit_or a 0 ≡ a
bit_or-zero a = or-zero_within a a (omega arith)

pub zero-bit_or : (a : ℕ) → bit_or 0 a ≡ a
zero-bit_or a = bit_or-bitwise 0 a

pub differ_one : (a : ℕ) → a < 2 → differ a 1 ≡ 1 - a
differ_one zero h = refl
differ_one (suc zero) h = refl
differ_one (suc (suc b)) h = absurd (omega arith)

differ-zero_right : (a : ℕ) → a < 2 → differ a 0 ≡ a
differ-zero_right zero h = refl
differ-zero_right (suc zero) h = refl
differ-zero_right (suc (suc b)) h = absurd (omega arith)

xor-zero_within : (n a : ℕ) → a ≤ n → bit_xor a 0 ≡ a
xor-zero_within n zero h = refl
xor-zero_within zero (suc a) h = absurd (omega arith)
xor-zero_within (suc n) (suc a) h = omega (
  arith,
  bit_xor_digit (suc a) 0,
  xor-zero_within n (suc a / 2) (omega arith),
  differ-zero_right (suc a % 2) (omega arith),
)

pub bit_xor-zero : (a : ℕ) → bit_xor a 0 ≡ a
bit_xor-zero a = xor-zero_within a a (omega arith)

-- `(q << k) | r` is a sum when `r` fits below.
pub bit_or_sum : (k q r : ℕ) → r < 2 ^ k → bit_or (q * 2 ^ k) r ≡ q * 2 ^ k + r
bit_or_sum k q r h =
    let e : q * 2 ^ k ≡ q * 2 ^ k + 0 = omega arith in
    let z : r ≡ 0 * 2 ^ k + r = omega arith in
    omega (
      arith,
      ap (λ (t : ℕ). bit_or t r) e,
      ap (λ (t : ℕ). bit_or (q * 2 ^ k + 0) t) z,
      bit_or_split k q 0 0 r (omega (arith, one-le-pow k 2)) h,
      ap (λ (t : ℕ). t * 2 ^ k) (bit_or-zero q),
      zero-bit_or r,
    )

and-ones : (k r : ℕ) → r < 2 ^ k → bit_and r (2 ^ k - 1) ≡ r
and-ones zero r h = let e : r ≡ 0 = omega arith in rw e refl
and-ones (suc k) r h =
    let half : (2 ^ suc k - 1) / 2 ≡ 2 ^ k - 1 = omega (arith, pow-suc 2 k, one-le-pow k 2) in
    let odd : (2 ^ suc k - 1) % 2 ≡ 1 = omega (arith, pow-suc 2 k, one-le-pow k 2) in
    let ih = and-ones k (r / 2) (omega (arith, pow-suc 2 k)) in
    rw (bit_and_digit r (2 ^ suc k - 1), half, odd, ih) (omega arith)

and_apart :
    (k q r m s a b : ℕ)
    → a ≡ q * 2 ^ k + r
    → b ≡ m * 2 ^ k + s
    → r < 2 ^ k
    → s < 2 ^ k
    → bit_and a b ≡ bit_and q m * 2 ^ k + bit_and r s
and_apart k q r m s a b ea eb hr hs = rw (ea, eb) (bit_and_split k q r m s hr hs)

-- A mask of `k` ones is the remainder by `2 ^ k`.
pub bit_and_low : (k a : ℕ) → bit_and a (2 ^ k - 1) ≡ a % 2 ^ k
bit_and_low k a =
    let p : 1 ≤ 2 ^ k = one-le-pow k 2 (omega arith) in
    let e : a ≡ a / 2 ^ k * 2 ^ k + a % 2 ^ k = grind arith in
    let lt : a % 2 ^ k < 2 ^ k = grind arith in
    omega (
      arith,
      and_apart k (a / 2 ^ k) (a % 2 ^ k) 0 (2 ^ k - 1) a (2 ^ k - 1) e (omega arith) lt
          (omega arith),
      ap (λ (t : ℕ). t * 2 ^ k) (bit_and-zero (a / 2 ^ k)),
      and-ones k (a % 2 ^ k) lt,
    )

-- A mask that ends in `k` zeros clears the `k` lowest digits.
pub bit_and_high : (k a m : ℕ) → bit_and a (m * 2 ^ k) ≡ bit_and (a / 2 ^ k) m * 2 ^ k
bit_and_high k a m =
    let p : 1 ≤ 2 ^ k = one-le-pow k 2 (omega arith) in
    let e : a ≡ a / 2 ^ k * 2 ^ k + a % 2 ^ k = grind arith in
    let lt : a % 2 ^ k < 2 ^ k = grind arith in
    omega (
      arith,
      and_apart k (a / 2 ^ k) (a % 2 ^ k) m 0 a (m * 2 ^ k) e (omega arith) lt p,
      bit_and-zero (a % 2 ^ k),
    )

pub pow-pos : (n : ℕ) → 0 < 2 ^ n
pow-pos zero = omega arith
pow-pos (suc n) = let p = pow-pos n in let q = pow-succ' 2 n in omega arith
