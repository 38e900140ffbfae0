-- ===== src/Vm/Arith/Floor.antt =====
-- Division and remainder of src/vm/mod.rs are the ones that round towards minus infinity.
use native.Mathlib.Nat.{div-add-mod, mod-lt, mod-le}
use tsuki.Base.{
  ℕ, zero, suc, ◌+◌, ◌-◌, ◌*◌, ◌/◌, ◌%◌, ◌^◌, ◌≡◌, ◌≢◌, ◌↔◌, ap, refl, Bool, true, false, ◌&&◌, not,
  none, some, ◌==◌, if◌then◌else◌, arith,
}
use tsuki.Base.Int.{ℤ, pos, negsuc, ◌+ℤ◌, ◌-ℤ◌, ◌*ℤ◌, ◌≤ℤ◌, pos_part, neg_part}
use tsuki.Base.Int64.{tdiv, trem, is_neg-xor64, IsI64, i64_min, neg_ℕ, is_neg}
use tsuki.Vm.Arith.{idiv, imod, is_zero}

-- `q` and `r` are the floored quotient and remainder: `r` lies between 0 and `n`, `n` excluded.
pub record IsFloor (m n q r : ℤ) : Type 0 where
  pub whole : q *ℤ n +ℤ r ≡ m
  pub below : is_neg n ≡ false → (pos 0 ≤ℤ r) × (r +ℤ pos 1 ≤ℤ n)
  pub above : is_neg n ≡ true → (r ≤ℤ pos 0) × (n +ℤ pos 1 ≤ℤ r)

abbrev differs : ℤ → ℤ → Bool
differs m n = if is_neg m then (if is_neg n then false else true) else is_neg n

-- The truncated results moved by one where the signs differ and the division is not exact.
abbrev adjusted : ℤ → ℤ → Bool
adjusted m n = differs m n && not (is_zero (trem m n))

abbrev floor_quot : ℤ → ℤ → ℤ
floor_quot m n = if adjusted m n then tdiv m n -ℤ pos 1 else tdiv m n

abbrev floor_rem : ℤ → ℤ → ℤ
floor_rem m n = if adjusted m n then trem m n +ℤ n else trem m n

mul_neg_neg : (a b : ℕ) → negsuc a *ℤ negsuc b ≡ pos (suc a * suc b)
unfolding ◌*ℤ◌
mul_neg_neg a b = ground arith

mul_neg_pos : (a b : ℕ) → negsuc a *ℤ pos (suc b) ≡ negsuc (suc a * suc b - 1)
unfolding ◌*ℤ◌
mul_neg_pos a b = grind arith

is_zero-neg_ℕ : (y : ℕ) → is_zero (neg_ℕ y) ≡ (y == 0)
is_zero-neg_ℕ zero = refl
is_zero-neg_ℕ (suc y) = ground arith

neg_ℕ_parts : (y : ℕ) → (pos_part (neg_ℕ y) ≡ 0) × (neg_part (neg_ℕ y) ≡ y)
neg_ℕ_parts zero = (refl, refl)
neg_ℕ_parts (suc y) = (refl, refl)

neg_ℕ_sign : (y : ℕ) → is_zero (neg_ℕ y) ≡ false → is_neg (neg_ℕ y) ≡ true
neg_ℕ_sign zero h = cc
neg_ℕ_sign (suc y) h = refl

-- The unlike signs, over any quotient `x` and remainder `y` of the magnitudes.
mixed_quot : ℕ → ℕ → ℤ
mixed_quot x y = if not (y == 0) then neg_ℕ x -ℤ pos 1 else neg_ℕ x

mixed_quot_exact : (x : ℕ) → mixed_quot x 0 ≡ neg_ℕ x
unfolding mixed_quot
mixed_quot_exact x = refl

mixed_quot-suc : (x y : ℕ) → mixed_quot x (suc y) ≡ negsuc x
unfolding mixed_quot ◌-ℤ◌
mixed_quot-suc zero y = ground arith
mixed_quot-suc (suc x) y = ground arith

mixed_pos :
    (a b x y : ℕ)
    → suc b * x + y ≡ a
    → mixed_quot x y *ℤ negsuc b +ℤ (if not (y == 0) then pos y +ℤ negsuc b else pos y) ≡ pos a
unfolding ◌+ℤ◌
mixed_pos a b zero zero e = unfold ◌*ℤ◌ mixed_quot in ground arith
mixed_pos a b (suc x) zero e = rw (mixed_quot_exact, mul_neg_neg) (ground arith)
mixed_pos a b x (suc y) e = rw (mixed_quot-suc, mul_neg_neg) (ground arith)

mixed_neg :
    (a b x y : ℕ)
    → suc b * x + y ≡ suc a
    → mixed_quot x y *ℤ pos (suc b) +ℤ (if not (y == 0) then neg_ℕ y +ℤ pos (suc b) else neg_ℕ y)
      ≡ negsuc a
unfolding ◌+ℤ◌
mixed_neg a b zero zero e = absurd (omega arith)
mixed_neg a b (suc x) zero e = rw (mixed_quot_exact, mul_neg_pos) (ground arith)
mixed_neg a b x (suc y) e = rw (mixed_quot-suc, mul_neg_pos) (ground arith)

same_neg : (a b x y : ℕ) → suc b * x + y ≡ suc a → pos x *ℤ negsuc b +ℤ neg_ℕ y ≡ negsuc a
unfolding ◌*ℤ◌ ◌+ℤ◌
same_neg a b x zero e = ground arith
same_neg a b x (suc y) e = ground arith

floor_whole : (m n : ℤ) → is_zero n ≡ false → floor_quot m n *ℤ n +ℤ floor_rem m n ≡ m
unfolding mixed_quot
floor_whole (pos a) (pos b) nz = unfold ◌*ℤ◌ ◌+ℤ◌ in ground (arith, div-add-mod a b)
floor_whole (pos a) (negsuc b) nz = mixed_pos a b (a / suc b) (a % suc b) (div-add-mod a (suc b))
floor_whole (negsuc a) (pos zero) nz = ground arith
floor_whole (negsuc a) (pos (suc b)) nz =
    rw is_zero-neg_ℕ (mixed_neg a b (suc a / suc b) (suc a % suc b) (div-add-mod (suc a) (suc b)))
floor_whole (negsuc a) (negsuc b) nz =
    same_neg a b (suc a / suc b) (suc a % suc b) (div-add-mod (suc a) (suc b))

trem-IsI64 : (m n : ℤ) → IsI64 m → IsI64 n → is_zero n ≡ false → IsI64 (trem m n)
trem-IsI64 (pos a) (pos b) hm hn nz = ground (arith, mod-le a b)
trem-IsI64 (pos a) (negsuc b) hm hn nz = ground (arith, mod-le a (suc b))
trem-IsI64 (negsuc a) (pos b) hm hn nz = ground (arith, mod-le (suc a) b, neg_ℕ_parts (suc a % b))
trem-IsI64 (negsuc a) (negsuc b) hm hn nz =
    ground (arith, mod-le (suc a) (suc b), neg_ℕ_parts (suc a % suc b))

-- The remainder lies between 0 and the divisor, which is excluded.
floor_rem_bounds :
    (m n : ℤ)
    → is_zero n ≡ false
    → (is_neg n ≡ false → (pos 0 ≤ℤ floor_rem m n) × (floor_rem m n +ℤ pos 1 ≤ℤ n))
      × (is_neg n ≡ true → (floor_rem m n ≤ℤ pos 0) × (n +ℤ pos 1 ≤ℤ floor_rem m n))
unfolding ◌+ℤ◌
floor_rem_bounds (pos a) (pos b) nz = ground (arith, mod-lt a {m = b})
floor_rem_bounds (pos a) (negsuc b) nz = ground (arith, mod-lt a {m = suc b})
floor_rem_bounds (negsuc a) (pos b) nz =
    ground (arith, mod-lt (suc a) {m = b}, neg_ℕ_parts (suc a % b), is_zero-neg_ℕ (suc a % b))
floor_rem_bounds (negsuc a) (negsuc b) nz =
    ground (arith, mod-lt (suc a) {m = suc b}, neg_ℕ_parts (suc a % suc b))

idiv_lem :
    (m n : ℤ)
    → IsI64 m
    → IsI64 n
    → is_zero n ≡ false
    → ¬ ((m ≡ i64_min) × (n ≡ negsuc 0))
    → idiv m n ≡ some (floor_quot m n)
unfolding idiv
idiv_lem m (pos zero) hm hn nz ne = cc
idiv_lem m (pos (suc n)) hm hn nz ne = ground (arith, is_neg-xor64 m (pos (suc n)) hm hn)
idiv_lem (pos zero) (negsuc zero) hm hn nz ne = refl
idiv_lem (pos (suc m)) (negsuc zero) hm hn nz ne = ground (arith, neg_ℕ_parts (suc m / 1))
idiv_lem (negsuc m) (negsuc zero) hm hn nz ne =
    let inside : m ≢ 2 ^ 63 - 1 = λ e. ne (ap negsuc e, refl) in ground arith
idiv_lem m (negsuc (suc n)) hm hn nz ne = ground (arith, is_neg-xor64 m (negsuc (suc n)) hm hn)

trem_sign :
    (m n : ℤ) → is_zero n ≡ false → is_zero (trem m n) ≡ false → is_neg (trem m n) ≡ is_neg m
trem_sign (pos a) (pos b) nz nr = refl
trem_sign (pos a) (negsuc b) nz nr = refl
trem_sign (negsuc a) (pos b) nz nr = neg_ℕ_sign (suc a % b) nr
trem_sign (negsuc a) (negsuc b) nz nr = neg_ℕ_sign (suc a % suc b) nr

trem-one : (m : ℤ) → trem m (negsuc 0) ≡ pos 0
trem-one (pos m) = ground arith
trem-one (negsuc m) = let e : suc m % 1 ≡ 0 = omega arith in rw e refl

imod_lem : (m n : ℤ) → IsI64 m → IsI64 n → is_zero n ≡ false → imod m n ≡ some (floor_rem m n)
unfolding imod
imod_lem m (pos zero) hm hn nz = cc
imod_lem m (negsuc zero) hm hn nz = rw trem-one (ground arith)
imod_lem m (pos (suc n)) hm hn nz = ground (
  arith,
  trem_sign m (pos (suc n)) nz,
  is_neg-xor64 (trem m (pos (suc n))) (pos (suc n)) (trem-IsI64 m (pos (suc n)) hm hn nz) hn,
)
imod_lem m (negsuc (suc n)) hm hn nz = ground (
  arith,
  trem_sign m (negsuc (suc n)) nz,
  is_neg-xor64 (trem m (negsuc (suc n))) (negsuc (suc n)) (trem-IsI64 m (negsuc (suc n)) hm hn nz)
      hn,
)

-- Away from 0 and from the one quotient that overflows, `luaV_idiv` and `luaV_mod` return a
-- quotient and a remainder of floored division: they make up the dividend, and the remainder lies
-- between 0 and the divisor on the divisor's side.
pub idiv-imod-IsFloor :
    (m n : ℤ)
    → IsI64 m
    → IsI64 n
    → is_zero n ≡ false
    → ¬ ((m ≡ i64_min) × (n ≡ negsuc 0))
    → (q : ℤ) × (r : ℤ) × (idiv m n ≡ some q) × (imod m n ≡ some r) × IsFloor m n q r
idiv-imod-IsFloor m n hm hn nz ne = (
  floor_quot m n,
  floor_rem m n,
  idiv_lem m n hm hn nz ne,
  imod_lem m n hm hn nz,
  record {
    whole = floor_whole m n nz;
    below = (floor_rem_bounds m n nz).0;
    above = (floor_rem_bounds m n nz).1;
  },
)

-- Both fail exactly on a divisor of 0, and the quotient that overflows wraps to its dividend.
pub idiv-imod_errors :
    (m n : ℤ)
    → IsI64 m
    → IsI64 n
    → ((idiv m n ≡ none) ↔ (n ≡ pos 0))
      × ((imod m n ≡ none) ↔ (n ≡ pos 0))
      × (idiv i64_min (negsuc 0) ≡ some i64_min)
      × (imod i64_min (negsuc 0) ≡ some (pos 0))
unfolding idiv imod
idiv-imod_errors m (pos zero) hm hn = (ground arith, ground arith, refl, refl)
idiv-imod_errors m (pos (suc n)) hm hn = (ground arith, ground arith, refl, refl)
idiv-imod_errors m (negsuc zero) hm hn = (ground arith, ground arith, refl, refl)
idiv-imod_errors m (negsuc (suc n)) hm hn = (ground arith, ground arith, refl, refl)
