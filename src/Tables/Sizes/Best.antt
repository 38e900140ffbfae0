-- ===== src/Tables/Sizes/Best.antt =====
-- `computesizes` finds the best size (src/table/legacy.rs).
use mathlib.Core.Path.{ap₂}
use native.Mathlib.Nat.{pow-suc, pow-le-pow_right}
use tsuki.Base.{
  ℕ, zero, suc, ◌+◌, ◌-◌, ◌/◌, ◌%◌, ◌^◌, ◌≤◌, ◌<◌, ◌≡◌, refl, sym, ap, ◌∙◌, arith, Bool, ◌&&◌, true,
  false, some, List, [], ◌∷◌, get_or, take, ltb, ◌==◌, if◌then◌else◌, Bool-cases, inl, inr,
}
use tsuki.Tables.Sizes.{Sizing, size_step, size_loop, result, computesizes}

-- The sum of counts.
abbrev pub sum : List ℕ → ℕ
sum [] = 0
sum (x ∷ xs) = x + sum xs

-- The keys up to 2 ^ (k - 1): the sum of the first `k` counts.
abbrev pub keys_below : ℕ → List ℕ → ℕ
keys_below k nums = sum (take k nums)

-- The greatest of the powers of two below 2 ^ k of which more than half would be used, with the
-- number of its keys.
abbrev pub best_size : ℕ → List ℕ → ℕ × ℕ
best_size zero nums = (0, 0)
best_size (suc k) nums =
    if ltb (2 ^ k / 2) (keys_below (suc k) nums)
    then (2 ^ k, keys_below (suc k) nums)
    else best_size k nums

keys_below-suc :
    (k : ℕ) (nums : List ℕ) → keys_below (suc k) nums ≡ keys_below k nums + get_or nums k 0
keys_below-suc zero [] = refl
keys_below-suc (suc k) [] = refl
keys_below-suc zero (x ∷ xs) = omega arith
keys_below-suc (suc k) (x ∷ xs) = omega (arith, keys_below-suc k xs)

pub keys_below-le : (k : ℕ) (nums : List ℕ) → keys_below k nums ≤ sum nums
keys_below-le zero nums = omega arith
keys_below-le (suc k) [] = omega arith
keys_below-le (suc k) (x ∷ xs) = omega (arith, keys_below-le k xs)

pub pow_le : (j k : ℕ) → 2 ^ k ≤ 2 ^ (k + j)
pow_le j k = pow-le-pow_right {n = 2} (omega arith) {i = k} {j = k + j} (omega arith)

-- A power of two is at most a higher one.
pub power_le : (j k : ℕ) → j ≤ k → 2 ^ j ≤ 2 ^ k
power_le j k le =
    let split : j + (k - j) ≡ k = omega arith in
    omega (arith, pow_le (k - j) j, ap (λ (n : ℕ). 2 ^ n) split)

if_false : {A : Type 0} (b : Bool) (x y : A) → b ≡ false → (if b then x else y) ≡ y
if_false b x y e = rw (e) refl

-- Beyond a power of two that is not half used by all keys nothing is better.
best_size-stays :
    (j k : ℕ) (nums : List ℕ) → sum nums ≤ 2 ^ k / 2 → best_size (k + j) nums ≡ best_size k nums
best_size-stays zero k nums h =
    let same : k + 0 ≡ k = omega arith in ap (λ n. best_size n nums) same
best_size-stays (suc j) k nums h =
    let same : k + suc j ≡ suc (k + j) = omega arith in
    let few : keys_below (suc (k + j)) nums ≤ 2 ^ (k + j) / 2 =
      omega (arith, keys_below-le (suc (k + j)) nums, pow_le j k, h) in
    ap (λ n. best_size n nums) same
    ∙ if_false (ltb (2 ^ (k + j) / 2) (keys_below (suc (k + j)) nums))
        (2 ^ (k + j), keys_below (suc (k + j)) nums) (best_size (k + j) nums) (ground arith)
    ∙ best_size-stays j k nums h

-- The state after `k` rounds.
record IsAt (nums : List ℕ) (k : ℕ) (s : Sizing) : Type 0 where
  at : s.i ≡ k
  power : s.twotoi ≡ 2 ^ k % 2 ^ 32
  keys : s.a ≡ keys_below k nums
  best : (s.optimal, s.na) ≡ best_size k nums

pub small_power : (k : ℕ) → k < 32 → 2 ^ k % 2 ^ 32 ≡ 2 ^ k
small_power k lt =
    let le = pow-le-pow_right {n = 2} (omega arith) {i = k} {j = 31} (omega arith) in
    omega (arith, le)

module _ (nums : List ℕ) (fits : sum nums < 2 ^ 32) where
  step-IsAt : (k : ℕ) (s : Sizing) → k < 32 → IsAt nums k s → IsAt nums (suc k) (size_step nums s)
  unfolding size_step
  step-IsAt k s lt h =
      let power = h.power ∙ small_power k lt in
      let cell = ap (λ i. get_or nums i 0) h.at in
      let a : (s.a + get_or nums s.i 0) % 2 ^ 32 ≡ keys_below (suc k) nums =
        omega (arith, cell, h.keys, keys_below-suc k nums, keys_below-le (suc k) nums, fits) in
      let test = ap₂ (λ (u x : ℕ). ltb (u / 2) x) power a in
      record {
        at = omega (arith, h.at);
        power = omega (arith, power, pow-suc 2 k);
        keys = a;
        best = ground (arith, test, a, power, h.best);
      }

  loop_case :
      (n k : ℕ) (s : Sizing) (q : Bool)
      → (ltb 0 s.twotoi && ltb (s.twotoi / 2) (sum nums)) ≡ q
      → k ≤ 32
      → IsAt nums k s
      → (k < 32
          → result (size_loop n nums (sum nums) (size_step nums s)) ≡ some (best_size 32 nums))
      → result (elim q [ true ↦ size_loop n nums (sum nums) (size_step nums s) | false ↦ some s ])
        ≡ some (best_size 32 nums)
  loop_case n k s true e le h rec = elim (Bool-cases (k == 32)) [
    | inl f ↦
        let last : k ≡ 32 = ground arith in
        let none_left : s.twotoi ≡ 0 = h.power ∙ ap (λ (j : ℕ). 2 ^ j % 2 ^ 32) last in
        absurd (ground (arith, none_left, e))
    | inr f ↦ rec (ground arith)
  ]
  loop_case n k s false e le h rec = elim (Bool-cases (k == 32)) [
    | inl f ↦ let last : k ≡ 32 = ground arith in ap some (h.best ∙ ap (λ j. best_size j nums) last)
    | inr f ↦
        let before : k < 32 = ground arith in
        let power = h.power ∙ small_power k before in
        let positive = pow_le k 0 in
        let few : sum nums ≤ 2 ^ k / 2 = ground (arith, power, positive, e) in
        let rest : k + (32 - k) ≡ 32 = omega arith in
        ap some
          (h.best ∙ sym (best_size-stays (32 - k) k nums few) ∙ ap (λ j. best_size j nums) rest)
  ]

  loop_lem :
      (n k : ℕ) (s : Sizing)
      → n + k ≡ 33
      → k ≤ 32
      → IsAt nums k s
      → result (size_loop n nums (sum nums) s) ≡ some (best_size 32 nums)
  unfolding size_loop
  loop_lem zero k s e le h = absurd (omega (arith, e, le))
  loop_lem (suc n) k s e le h =
      loop_case n k s (ltb 0 s.twotoi && ltb (s.twotoi / 2) (sum nums)) refl le h
        (λ lt. loop_lem n (suc k) (size_step nums s) (omega (arith, e)) lt (step-IsAt k s lt h))

-- For counts of fewer than 2 ^ 32 keys, with their sum as `pna`, `computesizes` ends within its
-- rounds, and returns the greatest power of two below 2 ^ 32 of which more than half would be used,
-- or 0 if there is none, with the number of keys up to it.
pub computesizes-best_size :
    (nums : List ℕ) → sum nums < 2 ^ 32 → computesizes nums (sum nums) ≡ some (best_size 32 nums)
unfolding computesizes
computesizes-best_size nums fits =
    loop_lem nums fits 33 0 (record { i = 0; twotoi = 1; a = 0; na = 0; optimal = 0 }) refl
      (omega arith) (record { at = refl; power = refl; keys = refl; best = refl })
