-- ===== src/Base/Int64.antt =====
-- Rust's `i64` on integers in its range: the casts to and from `u64`, the truncating division,
-- the bit operations and the shifts.
use mathlib.Core.Path.{ap₂}
use tsuki.Base.Bits.{bit_xor_split, bit_xor-lt}
use tsuki.Base.Int.{ℤ, pos, negsuc, ltb_ℤ, ◌≤ℤ◌}
use tsuki.Base.{
  ℕ, zero, suc, ◌+◌, ◌-◌, ◌*◌, ◌/◌, ◌%◌, ◌^◌, ◌<◌, bit_xor, ◌≡◌, ◌∙◌, Bool, true, false, arith, ltb,
  if◌then◌else◌,
}

abbrev pub i64_min : ℤ
i64_min = negsuc (2 ^ 63 - 1)

abbrev pub i64_max : ℤ
i64_max = pos (2 ^ 63 - 1)

abbrev pub IsI64 : ℤ → Type 0
IsI64 a = (i64_min ≤ℤ a) × (a ≤ℤ i64_max)

-- `a as u64`
abbrev pub to_u64 : ℤ → ℕ
to_u64 (pos n) = n % 2 ^ 64
to_u64 (negsuc n) = 2 ^ 64 - 1 - n % 2 ^ 64

-- `w as i64`
abbrev pub of_u64 : ℕ → ℤ
of_u64 w = if ltb w (2 ^ 63) then pos w else negsuc (2 ^ 64 - 1 - w)

pub of_u64-to_u64 : (a : ℤ) → IsI64 a → of_u64 (to_u64 a) ≡ a
of_u64-to_u64 (pos n) h = ground arith
of_u64-to_u64 (negsuc n) h = ground arith

pub to_u64-of_u64 : (w : ℕ) → w < 2 ^ 64 → to_u64 (of_u64 w) ≡ w
to_u64-of_u64 w h = ground arith

pub of_u64-IsI64 : (w : ℕ) → w < 2 ^ 64 → IsI64 (of_u64 w)
of_u64-IsI64 w h = ground arith

abbrev pub neg_ℕ : ℕ → ℤ
neg_ℕ zero = pos 0
neg_ℕ (suc n) = negsuc n

-- Rust's `a / b` and `a % b`: the quotient is cut towards zero, the remainder has the sign of `a`.
abbrev pub tdiv : ℤ → ℤ → ℤ
tdiv (pos a) (pos b) = pos (a / b)
tdiv (pos a) (negsuc b) = neg_ℕ (a / suc b)
tdiv (negsuc a) (pos b) = neg_ℕ (suc a / b)
tdiv (negsuc a) (negsuc b) = pos (suc a / suc b)

abbrev pub trem : ℤ → ℤ → ℤ
trem (pos a) (pos b) = pos (a % b)
trem (pos a) (negsuc b) = pos (a % suc b)
trem (negsuc a) (pos b) = neg_ℕ (suc a % b)
trem (negsuc a) (negsuc b) = neg_ℕ (suc a % suc b)

-- `a ^ b` on `i64`
unfoldable pub xor64 : ℤ → ℤ → ℤ
xor64 a b = of_u64 (bit_xor (to_u64 a) (to_u64 b))

abbrev pub is_neg : ℤ → Bool
is_neg (pos n) = false
is_neg (negsuc n) = true

sign_bit : ℤ → ℕ
sign_bit (pos n) = 0
sign_bit (negsuc n) = 1

sign_bit_lem : (a : ℤ) → IsI64 a → (to_u64 a / 2 ^ 63 ≡ sign_bit a) × (to_u64 a < 2 ^ 64)
unfolding sign_bit
sign_bit_lem (pos n) h = omega arith
sign_bit_lem (negsuc n) h = omega arith

xor_top : (u v : ℕ) → bit_xor u v / 2 ^ 63 ≡ bit_xor (u / 2 ^ 63) (v / 2 ^ 63)
xor_top u v = omega (
  arith,
  ap₂ bit_xor (split u) (split v),
  bit_xor_split 63 (u / 2 ^ 63) (u % 2 ^ 63) (v / 2 ^ 63) (v % 2 ^ 63) (omega arith) (omega arith),
  bit_xor-lt 63 (u % 2 ^ 63) (v % 2 ^ 63) (omega arith) (omega arith),
)
  where
    split : (w : ℕ) → w ≡ w / 2 ^ 63 * 2 ^ 63 + w % 2 ^ 63
    split w = omega arith

xor_sign :
    (a b : ℤ)
    → IsI64 a
    → IsI64 b
    → bit_xor (to_u64 a) (to_u64 b) / 2 ^ 63 ≡ bit_xor (sign_bit a) (sign_bit b)
xor_sign a b ha hb =
    xor_top (to_u64 a) (to_u64 b) ∙ ap₂ bit_xor (sign_bit_lem a ha).0 (sign_bit_lem b hb).0

-- The sign of `a ^ b` says whether the signs differ.
pub is_neg-xor64 :
    (a b : ℤ)
    → IsI64 a
    → IsI64 b
    → ltb_ℤ (xor64 a b) (pos 0)
      ≡ (if is_neg a then (if is_neg b then false else true) else is_neg b)
unfolding xor64 sign_bit
is_neg-xor64 (pos m) (pos n) ha hb = ground (arith, xor_sign (pos m) (pos n) ha hb)
is_neg-xor64 (pos m) (negsuc n) ha hb = ground (arith, xor_sign (pos m) (negsuc n) ha hb)
is_neg-xor64 (negsuc m) (pos n) ha hb = ground (arith, xor_sign (negsuc m) (pos n) ha hb)
is_neg-xor64 (negsuc m) (negsuc n) ha hb = ground (arith, xor_sign (negsuc m) (negsuc n) ha hb)
