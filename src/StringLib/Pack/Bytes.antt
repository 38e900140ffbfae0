-- ===== src/StringLib/Pack/Bytes.antt =====
-- The bytes of a number, and the number that a list of bytes stands for.
use native.Mathlib.Nat.{pow-suc, mul_assoc, pow-le-pow_right, add-mul, mul_right_comm}
use tsuki.Base.{
  ℕ, zero, suc, ◌+◌, ◌*◌, ◌/◌, ◌%◌, ◌^◌, ◌≤◌, ◌<◌, bit_and, ◌≡◌, refl, ap, ◌∙◌, arith, true, List,
  [], ◌∷◌, length, get_or, ◌==◌,
}
use tsuki.Base.Bits.{bit_and_mask, bit_or_fields}
use tsuki.StringLib.Pack.{push_loop, read_loop, check_loop}

-- The `k` low bytes of `n`, the lowest first.
abbrev pub low_bytes : ℕ → ℕ → List ℕ
low_bytes zero n = []
low_bytes (suc k) n = n % 256 ∷ low_bytes k (n / 256)

pub length-low_bytes : (k n : ℕ) → length (low_bytes k n) ≡ k
length-low_bytes zero n = refl
length-low_bytes (suc k) n = ap suc (length-low_bytes k (n / 256))

pub push_loop-low_bytes : (k n : ℕ) → bit_and n 255 ∷ push_loop k n ≡ low_bytes (suc k) n
push_loop-low_bytes zero n = ap (λ b. b ∷ []) (bit_and_mask 8 n)
push_loop-low_bytes (suc k) n =
    rw (bit_and_mask 8 n) (ap (λ r. n % 256 ∷ r) (push_loop-low_bytes k (n / 256)))

pub scale_256 : (x k : ℕ) → x * 256 ^ suc k ≡ x * 256 ^ k * 256
scale_256 x k = ap (λ (p : ℕ). x * p) (pow-suc 256 k) ∙ omega (arith, mul_assoc x (256 ^ k) 256)

-- Higher bytes do not count.
pub low_bytes_high : (k n a : ℕ) → low_bytes k (n + a * 256 ^ k) ≡ low_bytes k n
low_bytes_high zero n a = refl
low_bytes_high (suc k) n a =
    let low : (n + a * 256 ^ suc k) % 256 ≡ n % 256 = omega (arith, scale_256 a k) in
    let high : (n + a * 256 ^ suc k) / 256 ≡ n / 256 + a * 256 ^ k = omega (arith, scale_256 a k) in
    rw (low, high, low_bytes_high k (n / 256) a) refl

-- The number of the first `i` bytes.
abbrev pub value : (ℕ → ℕ) → ℕ → ℕ
value byte zero = 0
value byte (suc i) = value byte i + byte i * 256 ^ i

pub value_same : (f g : ℕ → ℕ) (i : ℕ) → ((j : ℕ) → j < i → f j ≡ g j) → value f i ≡ value g i
value_same f g zero h = refl
value_same f g (suc i) h = rw (value_same f g i (λ j lt. h j (omega arith)), h i (omega arith)) refl

value-cons :
    (x : ℕ) (xs : List ℕ) (i : ℕ)
    → value (λ j. get_or (x ∷ xs) j 0) (suc i) ≡ x + 256 * value (λ j. get_or xs j 0) i
value-cons x xs zero = omega arith
value-cons x xs (suc i) = omega (arith, value-cons x xs i, scale_256 (get_or xs i 0) i)

pub value-low_bytes :
    (i k n : ℕ) → i ≤ k → n < 256 ^ i → value (λ j. get_or (low_bytes k n) j 0) i ≡ n
value-low_bytes zero k n h lt = omega arith
value-low_bytes (suc i) zero n h lt = omega arith
value-low_bytes (suc i) (suc k) n h lt = omega (
  arith,
  value-cons (n % 256) (low_bytes k (n / 256)) i,
  value-low_bytes i k (n / 256) (omega arith) (omega (arith, pow-suc 256 i)),
)

pub low_bytes_zero : (k j n : ℕ) → n < 256 ^ j → get_or (low_bytes k n) j 0 ≡ 0
low_bytes_zero zero j n lt = refl
low_bytes_zero (suc k) zero n lt = omega arith
low_bytes_zero (suc k) (suc j) n lt = low_bytes_zero k j (n / 256) (omega (arith, pow-suc 256 j))

pub low_bytes-lt : (k j n : ℕ) → get_or (low_bytes k n) j 0 < 256
low_bytes-lt zero j n = omega arith
low_bytes-lt (suc k) zero n = omega arith
low_bytes-lt (suc k) (suc j) n = low_bytes-lt k j (n / 256)

-- Reading the bytes gives their number, as long as it fits in 64 bits.
pub read_loop_lem :
    (byte : ℕ → ℕ) (i k res : ℕ)
    → ((j : ℕ) → j < i → byte j < 256)
    → i + k ≤ 8
    → res < 256 ^ k
    → read_loop byte i res ≡ res * 256 ^ i + value byte i
read_loop_lem byte zero k res small h lt = omega arith
read_loop_lem byte (suc i) k res small h lt =
    let room : res * 256 + byte i < 256 ^ suc k =
      omega (arith, pow-suc 256 k, small i (omega arith)) in
    let top : 256 ^ suc k ≤ 256 ^ 8 =
      pow-le-pow_right {n = 256} (omega arith) {i = suc k} {j = 8} (omega arith) in
    let kept : res * 2 ^ 8 % 2 ^ 64 ≡ res * 2 ^ 8 = omega (arith, room, top) in
    let scale : (res * 256 + byte i) * 256 ^ i ≡ res * 256 ^ suc i + byte i * 256 ^ i = omega (
      arith,
      scale_256 res i,
      mul_right_comm res 256 (256 ^ i),
      add-mul (res * 256) (byte i) (256 ^ i),
    ) in
    rw (kept, bit_or_fields 8 res (byte i) (small i (omega arith)))
      (read_loop_lem byte i (suc k) (res * 256 + byte i) (λ j lt. small j (omega arith))
          (omega arith) room
        ∙ omega (arith, scale))

pub check_loop_lem :
    (byte : ℕ → ℕ) (mask i n : ℕ)
    → ((j : ℕ) → i ≤ j → j < i + n → byte j ≡ mask)
    → check_loop byte mask i n ≡ true
check_loop_lem byte mask i zero h = refl
check_loop_lem byte mask i (suc n) h =
    let here : (byte i == mask) ≡ true = ground (arith, h i (omega arith) (omega arith)) in
    rw (here) (check_loop_lem byte mask (i + 1) n (λ j from to. h j (omega arith) (omega arith)))
