-- ===== src/Base/Bits.antt =====
-- The bitwise operations on words split at any bit position. Each is a digit recursion; the
-- section proves the split once for an operation that is one on digits.
mod Step
use Step.{IsDigitwise, bit_or-IsDigitwise, bit_and-IsDigitwise, bit_xor-IsDigitwise, differ-le-one}
use native.Mathlib.Nat.{pow-suc, one-le-pow, mul_assoc}
use Prim.Native.Nat.{
  ℕ, zero, suc, ◌+◌, ◌-◌, ◌*◌, ◌/◌, ◌%◌, ◌^◌, ◌≤◌, ◌<◌, min, max, bit_and, bit_or, bit_xor, differ,
}
use mathlib.Core.Path.{◌≡◌, refl, ap, ◌∙◌}
use native.Mathlib.Omega.{arith}

-- One more bit of position.
scale_up : (x pos : ℕ) → x * 2 ^ suc pos ≡ x * 2 ^ pos * 2
scale_up x pos = ap (λ (p : ℕ). x * p) (pow-suc 2 pos) ∙ omega (arith, mul_assoc x (2 ^ pos) 2)

module _ (f g : ℕ → ℕ → ℕ) (step : IsDigitwise f g) where
  op_split :
      (k q r s t : ℕ)
      → f 0 0 ≡ 0
      → r < 2 ^ k
      → t < 2 ^ k
      → f (q * 2 ^ k + r) (s * 2 ^ k + t) ≡ f q s * 2 ^ k + f r t
  op_split zero q r s t start hr ht = ground arith
  op_split (suc k) q r s t start hr ht = ground (
    arith,
    step (q * 2 ^ suc k + r) (s * 2 ^ suc k + t),
    step r t,
    scale_up q k,
    scale_up s k,
    scale_up (f q s) k,
    pow-suc 2 k,
    op_split k q (r / 2) s (t / 2) start (omega (arith, pow-suc 2 k)) (omega (arith, pow-suc 2 k)),
  )

  op-lt :
      ((a b : ℕ) → a ≤ 1 → b ≤ 1 → g a b ≤ 1)
      → (k r t : ℕ) → f 0 0 ≡ 0
      → r < 2 ^ k
      → t < 2 ^ k
      → f r t < 2 ^ k
  op-lt digit zero r t start hr ht = ground arith
  op-lt digit (suc k) r t start hr ht = ground (
    arith,
    step r t,
    digit (r % 2) (t % 2) (omega arith) (omega arith),
    pow-suc 2 k,
    op-lt digit k (r / 2) (t / 2) start (omega (arith, pow-suc 2 k)) (omega (arith, pow-suc 2 k)),
  )

module _ (k q r s t : ℕ) (hr : r < 2 ^ k) (ht : t < 2 ^ k) where
  pub bit_or_split : bit_or (q * 2 ^ k + r) (s * 2 ^ k + t) ≡ bit_or q s * 2 ^ k + bit_or r t
  bit_or_split = op_split bit_or max bit_or-IsDigitwise k q r s t refl hr ht

  pub bit_and_split : bit_and (q * 2 ^ k + r) (s * 2 ^ k + t) ≡ bit_and q s * 2 ^ k + bit_and r t
  bit_and_split = op_split bit_and min bit_and-IsDigitwise k q r s t refl hr ht

  pub bit_xor_split : bit_xor (q * 2 ^ k + r) (s * 2 ^ k + t) ≡ bit_xor q s * 2 ^ k + bit_xor r t
  bit_xor_split = op_split bit_xor differ bit_xor-IsDigitwise k q r s t refl hr ht

pub bit_or-lt : (k r t : ℕ) → r < 2 ^ k → t < 2 ^ k → bit_or r t < 2 ^ k
bit_or-lt k r t = op-lt bit_or max bit_or-IsDigitwise (λ a b p q. omega arith) k r t refl

pub bit_and-lt : (k r t : ℕ) → r < 2 ^ k → t < 2 ^ k → bit_and r t < 2 ^ k
bit_and-lt k r t = op-lt bit_and min bit_and-IsDigitwise (λ a b p q. omega arith) k r t refl

pub bit_xor-lt : (k r t : ℕ) → r < 2 ^ k → t < 2 ^ k → bit_xor r t < 2 ^ k
bit_xor-lt k r t = op-lt bit_xor differ bit_xor-IsDigitwise differ-le-one k r t refl

-- Zero on either side, by induction on a bound.
bit_or-zero_below : (n a : ℕ) → a ≤ n → (bit_or a 0 ≡ a) × (bit_or 0 a ≡ a)
bit_or-zero_below zero a h = let e : a ≡ 0 = omega arith in rw e (refl, refl)
bit_or-zero_below (suc n) zero h = (refl, refl)
bit_or-zero_below (suc n) (suc a) h = omega (
  arith,
  bit_or-IsDigitwise (suc a) 0,
  bit_or-IsDigitwise 0 (suc a),
  bit_or-zero_below n (suc a / 2) (omega arith),
)

pub bit_or-zero : (a : ℕ) → bit_or a 0 ≡ a
bit_or-zero a = (bit_or-zero_below a a (omega arith)).0

pub zero-bit_or : (a : ℕ) → bit_or 0 a ≡ a
zero-bit_or a = (bit_or-zero_below a a (omega arith)).1

bit_and-zero_below : (n a : ℕ) → a ≤ n → (bit_and a 0 ≡ 0) × (bit_and 0 a ≡ 0)
bit_and-zero_below zero a h = let e : a ≡ 0 = omega arith in rw e (refl, refl)
bit_and-zero_below (suc n) zero h = (refl, refl)
bit_and-zero_below (suc n) (suc a) h = omega (
  arith,
  bit_and-IsDigitwise (suc a) 0,
  bit_and-IsDigitwise 0 (suc a),
  bit_and-zero_below n (suc a / 2) (omega arith),
)

pub bit_and-zero : (a : ℕ) → bit_and a 0 ≡ 0
bit_and-zero a = (bit_and-zero_below a a (omega arith)).0

-- Disjoint fields under `|` add up, in either order.
pub bit_or_fields : (k q r : ℕ) → r < 2 ^ k → bit_or (q * 2 ^ k) r ≡ q * 2 ^ k + r
bit_or_fields k q r h =
    ground
      (arith, bit_or_split k q 0 0 r (one-le-pow k 2 (omega arith)) h, bit_or-zero q, zero-bit_or r)

pub bit_or_fields_rev : (k q r : ℕ) → r < 2 ^ k → bit_or r (q * 2 ^ k) ≡ q * 2 ^ k + r
bit_or_fields_rev k q r h =
    ground
      (arith, bit_or_split k 0 r q 0 h (one-le-pow k 2 (omega arith)), bit_or-zero r, zero-bit_or q)

-- All ones keep a number that fits.
pub bit_and_ones : (k r : ℕ) → r < 2 ^ k → bit_and r (2 ^ k - 1) ≡ r
bit_and_ones zero r h = let e : r ≡ 0 = omega arith in rw e refl
bit_and_ones (suc k) r h = omega (
  arith,
  bit_and-IsDigitwise r (2 ^ suc k - 1),
  pow-suc 2 k,
  one-le-pow k 2,
  ap (λ (t : ℕ). bit_and (r / 2) t) halved,
  bit_and_ones k (r / 2) (omega (arith, pow-suc 2 k)),
)
  where
    halved : (2 ^ suc k - 1) / 2 ≡ 2 ^ k - 1
    halved = omega (arith, pow-suc 2 k, one-le-pow k 2)

-- A mask of `k` low bits is the remainder by `2 ^ k`.
pub bit_and_mask : (k a : ℕ) → bit_and a (2 ^ k - 1) ≡ a % 2 ^ k
bit_and_mask k a = ground (
  arith,
  one-le-pow k 2,
  bit_and_split k (a / 2 ^ k) (a % 2 ^ k) 0 (2 ^ k - 1),
  bit_and_ones k (a % 2 ^ k),
  bit_and-zero (a / 2 ^ k),
)

differ-zero : (a : ℕ) → differ a 0 ≡ a
differ-zero zero = refl
differ-zero (suc a) = refl

bit_xor-zero_below : (n a : ℕ) → a ≤ n → bit_xor a 0 ≡ a
bit_xor-zero_below zero a h = let e : a ≡ 0 = omega arith in rw e refl
bit_xor-zero_below (suc n) zero h = refl
bit_xor-zero_below (suc n) (suc a) h = omega (
  arith,
  bit_xor-IsDigitwise (suc a) 0,
  differ-zero (suc a % 2),
  bit_xor-zero_below n (suc a / 2) (omega arith),
)

pub bit_xor-zero : (a : ℕ) → bit_xor a 0 ≡ a
bit_xor-zero a = bit_xor-zero_below a a (omega arith)

-- Flipping bit `k` of a number of `k + 1` bits.
pub bit_xor-set : (k r : ℕ) → r < 2 ^ k → bit_xor r (2 ^ k) ≡ 2 ^ k + r
bit_xor-set k r h =
    ground (arith, bit_xor_split k 0 r 1 0 h (one-le-pow k 2 (omega arith)), bit_xor-zero r)

pub bit_xor-clear : (k r : ℕ) → r < 2 ^ k → bit_xor (2 ^ k + r) (2 ^ k) ≡ r
bit_xor-clear k r h =
    ground (arith, bit_xor_split k 1 r 1 0 h (one-le-pow k 2 (omega arith)), bit_xor-zero r)
