-- ===== src/Base/Bits/Step.antt =====
-- Operations that act on binary digits one by one. The native ones are recursions on fuel; one more
-- unit than the first argument changes nothing, so the fuel can be forgotten.
use Prim.Native.Nat.{digits, bitwise, differ, bit_and-bitwise, bit_or-bitwise, bit_xor-bitwise}
use Prim.Native.Nat.{ℕ, zero, suc, ◌+◌, ◌*◌, ◌/◌, ◌%◌, ◌≤◌, min, max, bit_and, bit_or, bit_xor}
use mathlib.Core.Path.{◌≡◌, refl, ap, ◌∙◌}
use native.Mathlib.Decide.{ℕ_discrete}
use native.Mathlib.Omega.{arith}

-- `f` does to the lowest digits what `g` says, and acts alike on the halves.
abbrev pub IsDigitwise : (ℕ → ℕ → ℕ) → (ℕ → ℕ → ℕ) → Type 0
IsDigitwise f g = (a b : ℕ) → f a b ≡ f (a / 2) (b / 2) * 2 + g (a % 2) (b % 2)

spare_fuel :
    (z : ℕ → ℕ) (f : ℕ → ℕ → ℕ) (n a b : ℕ) → a ≤ n → digits z f (suc n) a b ≡ digits z f n a b
spare_fuel z f zero zero b le = refl
spare_fuel z f zero (suc a) b le = absurd (omega arith)
spare_fuel z f (suc n) zero b le = refl
spare_fuel z f (suc n) (suc a) b le =
    ap (λ (high : ℕ). high * 2 + f (suc a % 2) (b % 2))
      (spare_fuel z f n (suc a / 2) (b / 2) (omega arith))

-- Any amount down to the first argument does.
less_fuel :
    (z : ℕ → ℕ) (f : ℕ → ℕ → ℕ) (m n a b : ℕ) → n ≤ m → a ≤ n → digits z f m a b ≡ digits z f n a b
less_fuel z f zero n a b le fits =
    let none_left : 0 ≡ n = omega arith in ap (λ (k : ℕ). digits z f k a b) none_left
less_fuel z f (suc m) n a b le fits = elim (ℕ_discrete (suc m) n) [
  | yes same ↦ ap (λ (k : ℕ). digits z f k a b) same
  | no apart ↦ spare_fuel z f m a b (omega arith) ∙ less_fuel z f m n a b (omega arith) fits
]

-- Such a recursion is digitwise where its value at 0 is.
bitwise-IsDigitwise :
    (z : ℕ → ℕ) (f : ℕ → ℕ → ℕ)
    → ((b : ℕ) → z b ≡ z (b / 2) * 2 + f 0 (b % 2))
    → IsDigitwise (bitwise z f) f
bitwise-IsDigitwise z f at_zero zero b = at_zero b
bitwise-IsDigitwise z f at_zero (suc a) b =
    ap (λ (high : ℕ). high * 2 + f (suc a % 2) (b % 2))
      (less_fuel z f a (suc a / 2) (suc a / 2) (b / 2) (omega arith) (omega arith))

pub bit_or-IsDigitwise : IsDigitwise bit_or max
bit_or-IsDigitwise a b =
    simp bit_or-bitwise (bitwise-IsDigitwise (λ y. y) max (λ y. omega arith) a b)

pub bit_and-IsDigitwise : IsDigitwise bit_and min
bit_and-IsDigitwise a b =
    simp bit_and-bitwise (bitwise-IsDigitwise (λ y. 0) min (λ y. omega arith) a b)

pub bit_xor-IsDigitwise : IsDigitwise bit_xor differ
bit_xor-IsDigitwise a b =
    simp bit_xor-bitwise (bitwise-IsDigitwise (λ y. y) differ (λ y. omega arith) a b)

-- Two digits that differ give a digit.
pub differ-le-one : (a b : ℕ) → a ≤ 1 → b ≤ 1 → differ a b ≤ 1
differ-le-one zero b p q = q
differ-le-one (suc a) zero p q = p
differ-le-one (suc a) (suc b) p q = differ-le-one a b (omega arith) (omega arith)
