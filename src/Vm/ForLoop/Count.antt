-- ===== src/Vm/ForLoop/Count.antt =====
-- The integer `for` loop of src/vm/mod.rs visits exactly the values of its range.
use native.Mathlib.Nat.{le-div_iff_mul-le, div-le_self}
use tsuki.Base.{
  ℕ, zero, suc, ◌+◌, ◌-◌, ◌*◌, ◌/◌, ◌%◌, ◌^◌, ◌≤◌, ◌<◌, ◌≡◌, ◌↔◌, refl, true, false, if◌then◌else◌,
  arith,
}
use tsuki.Base.Int.{ℤ, pos, negsuc, ◌+ℤ◌, ◌-ℤ◌, ◌≤ℤ◌, ltb_ℤ, pos_part, neg_part, +ℤ_parts}
use tsuki.Base.Int64.{to_u64, of_u64, IsI64}
use tsuki.Vm.Arith.{is_zero}
use tsuki.Vm.ForLoop.{iterations}

-- The `k`-th value of the progression, and the list of its first `k`.
abbrev pub nth : ℤ → ℤ → ℕ → ℤ
nth a step zero = a
nth a step (suc k) = nth (a +ℤ step) step k

abbrev pub Within : ℤ → ℤ → ℤ → Type 0
Within limit (pos s) a = a ≤ℤ limit
Within limit (negsuc s) a = limit ≤ℤ a

pub add_wrapped :
    (a b : ℤ)
    → IsI64 a
    → IsI64 b
    → IsI64 (a +ℤ b)
    → of_u64 ((to_u64 a + to_u64 b) % 2 ^ 64) ≡ a +ℤ b
unfolding ◌+ℤ◌
add_wrapped (pos a) (pos b) ha hb h = ground arith
add_wrapped (pos a) (negsuc b) ha hb h = ground arith
add_wrapped (negsuc a) (pos b) ha hb h = ground arith
add_wrapped (negsuc a) (negsuc b) ha hb h = ground arith

pub nth_up :
    (a : ℤ) (s k : ℕ)
    → pos_part (nth a (pos s) k) + neg_part a ≡ neg_part (nth a (pos s) k) + pos_part a + k * s
nth_up a s zero = omega arith
nth_up a s (suc k) = omega (arith, nth_up (a +ℤ pos s) s k, +ℤ_parts a (pos s))

pub nth_down :
    (a : ℤ) (s k : ℕ)
    → neg_part (nth a (negsuc s) k) + pos_part a
      ≡ pos_part (nth a (negsuc s) k) + neg_part a + k * suc s
nth_down a s zero = omega arith
nth_down a s (suc k) = omega (arith, nth_down (a +ℤ negsuc s) s k, +ℤ_parts a (negsuc s))

-- `a - b` where it is no less than 0.
abbrev gap : ℤ → ℤ → ℕ
gap a b = pos_part a + neg_part b - (pos_part b + neg_part a)

sub_gap : (a b : ℤ) → IsI64 a → IsI64 b → b ≤ℤ a → (to_u64 a + 2 ^ 64 - to_u64 b) % 2 ^ 64 ≡ gap a b
sub_gap (pos a) (pos b) ha hb h = omega arith
sub_gap (pos a) (negsuc b) ha hb h = omega arith
sub_gap (negsuc a) (pos b) ha hb h = omega arith
sub_gap (negsuc a) (negsuc b) ha hb h = omega arith

one_or_div : (s d : ℕ) → (if is_zero (pos (suc s) -ℤ pos 1) then d else d / suc s) ≡ d / suc s
unfolding ◌-ℤ◌
one_or_div zero d = omega arith
one_or_div (suc s) d = ground arith

down_step :
    (s : ℕ) → IsI64 (negsuc s) → (to_u64 (pos 0 -ℤ (negsuc s +ℤ pos 1)) + 1) % 2 ^ 64 ≡ suc s
unfolding ◌-ℤ◌ ◌+ℤ◌
down_step zero h = refl
down_step (suc s) h = ground arith

iterations_up :
    (init limit : ℤ) (s : ℕ)
    → IsI64 init
    → IsI64 limit
    → IsI64 (pos (suc s))
    → init ≤ℤ limit
    → iterations init limit (pos (suc s)) ≡ gap limit init / suc s
unfolding iterations
iterations_up init limit s hi hl hs h =
    let whole : to_u64 (pos (suc s)) ≡ suc s = omega arith in
    let up : ltb_ℤ (pos 0) (pos (suc s)) ≡ true = ground arith in
    rw (sub_gap limit init hl hi h, whole, up) (one_or_div s (gap limit init))

iterations_down :
    (init limit : ℤ) (s : ℕ)
    → IsI64 init
    → IsI64 limit
    → IsI64 (negsuc s)
    → limit ≤ℤ init
    → iterations init limit (negsuc s) ≡ gap init limit / suc s
unfolding iterations
iterations_down init limit s hi hl hs h =
    let whole : (to_u64 (pos 0 -ℤ (negsuc s +ℤ pos 1)) + 1) % 2 ^ 64 ≡ suc s = down_step s hs in
    let down : ltb_ℤ (pos 0) (negsuc s) ≡ false = ground arith in
    rw (sub_gap init limit hi hl h, whole, down) refl

-- The iterations count the later values that are within the limit.
count_up :
    (init limit : ℤ) (s k : ℕ)
    → init ≤ℤ limit
    → (k ≤ gap limit init / suc s) ↔ (nth init (pos (suc s)) k ≤ℤ limit)
count_up init limit s k h =
    let e = le-div_iff_mul-le {k = suc s} {x = k} {y = gap limit init} (omega arith) in
    (
      λ p. omega (arith, e.0 p, nth_up init (suc s) k),
      λ p. e.1 (omega (arith, nth_up init (suc s) k)),
    )

count_down :
    (init limit : ℤ) (s k : ℕ)
    → limit ≤ℤ init
    → (k ≤ gap init limit / suc s) ↔ (limit ≤ℤ nth init (negsuc s) k)
count_down init limit s k h =
    let e = le-div_iff_mul-le {k = suc s} {x = k} {y = gap init limit} (omega arith) in
    (λ p. omega (arith, e.0 p, nth_down init s k), λ p. e.1 (omega (arith, nth_down init s k)))

module _ (init limit : ℤ) (hi : IsI64 init) (hl : IsI64 limit) where
  pub iterations_count :
      (step : ℤ) (k : ℕ)
      → IsI64 step
      → is_zero step ≡ false
      → Within limit step init
      → (k ≤ iterations init limit step) ↔ Within limit step (nth init step k)
  iterations_count (pos zero) k hs nz h = cc
  iterations_count (pos (suc s)) k hs nz h =
      rw (iterations_up init limit s hi hl hs h) (count_up init limit s k h)
  iterations_count (negsuc s) k hs nz h =
      rw (iterations_down init limit s hi hl hs h) (count_down init limit s k h)

  pub iterations-lt :
      (step : ℤ)
      → IsI64 step
      → is_zero step ≡ false
      → Within limit step init
      → iterations init limit step < 2 ^ 64
  iterations-lt (pos zero) hs nz h = cc
  iterations-lt (pos (suc s)) hs nz h =
      rw (iterations_up init limit s hi hl hs h)
        (omega (arith, div-le_self (gap limit init) (suc s)))
  iterations-lt (negsuc s) hs nz h =
      rw (iterations_down init limit s hi hl hs h)
        (omega (arith, div-le_self (gap init limit) (suc s)))
