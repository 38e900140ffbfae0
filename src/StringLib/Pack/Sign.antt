-- ===== src/StringLib/Pack/Sign.antt =====
-- The sign of an integer in fewer than 8 bytes.
use native.Mathlib.Nat.{pow-suc, pow-le-pow_right, add-mul, mul_right_comm}
use tsuki.Base.{ℕ, zero, suc, ◌+◌, ◌-◌, ◌*◌, ◌^◌, ◌≤◌, ◌<◌, ◌≡◌, refl, ap, ◌∙◌, arith}
use tsuki.Base.Bits.{bit_xor-set, bit_xor-clear}
use tsuki.Base.Int.{ℤ, pos, negsuc}
use tsuki.Base.Int64.{to_u64, IsI64}
use tsuki.StringLib.Pack.{sign_extend}
use tsuki.StringLib.Pack.Bytes.{scale_256}

byte_power : (p : ℕ) → 2 ^ suc (suc (suc (suc (suc (suc (suc (suc p))))))) ≡ 2 ^ p * 256
byte_power p = simp (pow-suc) (omega arith)

half_power : (t : ℕ) → 2 ^ (t * 8 + 7) ≡ 256 ^ t * 128
half_power zero = refl
half_power (suc t) =
    let p = t * 8 + 7 in
    let more : suc t * 8 + 7 ≡ suc (suc (suc (suc (suc (suc (suc (suc p))))))) = omega arith in
    ap (λ (k : ℕ). 2 ^ k) more ∙ omega (arith, byte_power p, half_power t, pow-suc 256 t)

-- The top bit of `size` bytes, its double, and the bytes above.
top_bit : (size : ℕ) → 1 ≤ size → 256 ^ size ≡ 2 ^ (size * 8 - 1) + 2 ^ (size * 8 - 1)
top_bit zero h = omega arith
top_bit (suc t) h =
    let top : suc t * 8 - 1 ≡ t * 8 + 7 = omega arith in
    rw (top) (omega (arith, half_power t, pow-suc 256 t))

pub power_256 : (size : ℕ) → 2 ^ (size * 8) ≡ 256 ^ size
power_256 zero = refl
power_256 (suc t) =
    let p = t * 8 in
    let more : suc t * 8 ≡ suc (suc (suc (suc (suc (suc (suc (suc p))))))) = omega arith in
    ap (λ (k : ℕ). 2 ^ k) more ∙ omega (arith, byte_power p, power_256 t, pow-suc 256 t)

rest_bytes : (d size : ℕ) → size + d ≡ 8 → (a : ℕ) × (2 ^ 64 ≡ 256 ^ size + a * 256 ^ size)
rest_bytes zero size h = let whole : size ≡ 8 = omega arith in (0, rw (whole) refl)
rest_bytes (suc d) size h =
    let (a, e) = rest_bytes d (suc size) (omega arith) in
    (
      a * 256 + 255,
      omega (
        arith,
        e,
        scale_256 a size,
        pow-suc 256 size,
        add-mul (a * 256) 255 (256 ^ size),
        mul_right_comm a 256 (256 ^ size),
      ),
    )

abbrev pub FitsIn : ℕ → ℤ → Type 0
FitsIn size (pos m) = m < 2 ^ (size * 8 - 1)
FitsIn size (negsuc m) = m < 2 ^ (size * 8 - 1)

abbrev pub Extends : ℕ → ℤ → Type 0
Extends size v =
    (r : ℕ) × (a : ℕ) × (to_u64 v ≡ r + a * 256 ^ size)
    × (r < 256 ^ size)
    × (sign_extend size r ≡ to_u64 v)

pub extends : (size : ℕ) (v : ℤ) → 1 ≤ size → size < 8 → IsI64 v → FitsIn size v → Extends size v
extends size (pos m) h1 h7 i64 fits =
    let flipped = bit_xor-set (size * 8 - 1) m fits in
    let high : 2 ^ (size * 8 - 1) ≤ 2 ^ 63 =
      pow-le-pow_right {n = 2} (omega arith) {i = size * 8 - 1} {j = 63} (omega arith) in
    (
      m,
      0,
      omega (arith, i64),
      omega (arith, top_bit size h1, fits),
      omega (arith, flipped, high, fits, i64),
    )
extends size (negsuc m) h1 h7 i64 fits =
    let top = 2 ^ (size * 8 - 1) in
    let cleared = bit_xor-clear (size * 8 - 1) (top - 1 - m) (omega (arith, fits)) in
    let high : top ≤ 2 ^ 63 =
      pow-le-pow_right {n = 2} (omega arith) {i = size * 8 - 1} {j = 63} (omega arith) in
    let (a, e) = rest_bytes (8 - size) size (omega arith) in
    (
      top + (top - 1 - m),
      a,
      omega (arith, i64, e, fits, top_bit size h1),
      omega (arith, top_bit size h1, fits),
      omega (arith, cleared, high, fits, i64),
    )
