-- ===== src/Gc/Trace/Bytes.antt =====
-- Whiteness of a mark byte under the marking's three operations, at every number, and the count of
-- the white bytes.
use mathlib.Core.Path.{ap₂}
use tsuki.Base.Table.{all_from, all_below, all_below_lem}
use tsuki.Base.Bits.{bit_or_split, bit_and_split, bit_and-zero, bit_or-lt}
use tsuki.Base.{
  ℕ, zero, suc, ◌+◌, ◌*◌, ◌/◌, ◌%◌, ◌^◌, ◌≤◌, ◌<◌, ◌≡◌, refl, sym, ap, ◌∙◌, arith, Bool, true,
  false, not, ◌&&◌, List, [], ◌∷◌, ◌==◌, bit_and, bit_or, set, get_or, get_or-set_self,
  get_or-set_ne, length, if◌then◌else◌,
}
use tsuki.Base.Table.{agree, agree_lem}
use tsuki.Gc.Mark.{is_white, set_gray, blacken, whites, black_bit, not8}

passes : ℕ → Bool
passes r =
    not (is_white (set_gray r))
    && not (is_white (blacken r))
    && agree (is_white (bit_or r black_bit)) (is_white r)

passes_table : all_below 256 passes ≡ true
unfolding all_from passes is_white set_gray blacken
passes_table = refl

-- A number as its high part and its low byte.
high_low : (m : ℕ) → m ≡ m / 2 ^ 8 * 2 ^ 8 + m % 2 ^ 8
high_low m = omega arith

only_low : (c : ℕ) → c ≡ 0 * 2 ^ 8 + c
only_low c = omega arith

pub low_lt : (m : ℕ) → m % 2 ^ 8 < 2 ^ 8
low_lt m = omega arith

-- What a mask of eight bits leaves, and what setting one of them changes.
pub low_byte : (m c : ℕ) → c < 2 ^ 8 → bit_and m c ≡ bit_and (m % 2 ^ 8) c
low_byte m c lt =
    ap₂ bit_and (high_low m) (only_low c)
    ∙ bit_and_split 8 (m / 2 ^ 8) (m % 2 ^ 8) 0 c (low_lt m) lt
    ∙ ap (λ (q : ℕ). q * 2 ^ 8 + bit_and (m % 2 ^ 8) c) (bit_and-zero (m / 2 ^ 8))
    ∙ sym (only_low (bit_and (m % 2 ^ 8) c))

low_of : (q r : ℕ) → r < 2 ^ 8 → (q * 2 ^ 8 + r) % 2 ^ 8 ≡ r
low_of q r lt = omega arith

low_byte_or : (m c : ℕ) → c < 2 ^ 8 → bit_or m c % 2 ^ 8 ≡ bit_or (m % 2 ^ 8) c
low_byte_or m c lt =
    ap (λ (x : ℕ). x % 2 ^ 8)
      (ap₂ bit_or (high_low m) (only_low c)
        ∙ bit_or_split 8 (m / 2 ^ 8) (m % 2 ^ 8) 0 c (low_lt m) lt)
    ∙ low_of (bit_or (m / 2 ^ 8) 0) (bit_or (m % 2 ^ 8) c) (bit_or-lt 8 (m % 2 ^ 8) c (low_lt m) lt)

pub is_white-low : (m : ℕ) → is_white m ≡ is_white (m % 2 ^ 8)
unfolding is_white
is_white-low m = ap (λ (x : ℕ). not (x == 0)) (low_byte m whites (omega arith))

module _ (m : ℕ) where
  low_passes : passes (m % 2 ^ 8) ≡ true
  low_passes = all_below_lem passes passes_table (low_lt m)

  pub is_white-set_gray : is_white (set_gray m) ≡ false
  unfolding passes set_gray
  is_white-set_gray =
      ap is_white (low_byte m (not8 (bit_or black_bit whites)) (omega arith))
      ∙ ground (arith, low_passes)

  pub is_white-blacken : is_white (blacken m) ≡ false
  unfolding passes blacken
  is_white-blacken =
      ap (λ x. is_white (bit_or x black_bit)) (low_byte m (not8 whites) (omega arith))
      ∙ ground (arith, low_passes)

  pub is_white-black_bit : is_white (bit_or m black_bit) ≡ is_white m
  unfolding passes
  is_white-black_bit =
      is_white-low (bit_or m black_bit)
      ∙ ap is_white (low_byte_or m black_bit (omega arith))
      ∙ ground (
        arith,
        low_passes,
        agree_lem (is_white (bit_or (m % 2 ^ 8) black_bit)) (is_white (m % 2 ^ 8)),
      )
      ∙ sym (is_white-low m)

-- How many of the bytes are white.
abbrev pub whites_in : List ℕ → ℕ
whites_in [] = 0
whites_in (m ∷ ms) = elim (is_white m) [ true ↦ suc (whites_in ms) | false ↦ whites_in ms ]

pub whites_in-set :
    (ms : List ℕ) (a v : ℕ)
    → is_white (get_or ms a 0) ≡ true
    → is_white v ≡ false
    → suc (whites_in (set ms a v)) ≡ whites_in ms
unfolding is_white
whites_in-set [] a v h e = cc
whites_in-set (m ∷ ms) zero v h e = ground arith
whites_in-set (m ∷ ms) (suc a) v h e = ground (arith, whites_in-set ms a v h e)

pub whites_in-set_same :
    (ms : List ℕ) (a v : ℕ)
    → is_white v ≡ is_white (get_or ms a 0)
    → whites_in (set ms a v) ≡ whites_in ms
whites_in-set_same [] a v e = refl
whites_in-set_same (m ∷ ms) zero v e = ground arith
whites_in-set_same (m ∷ ms) (suc a) v e = ground (arith, whites_in-set_same ms a v e)

-- Only objects of the heap are white.
pub white_in_range : (ms : List ℕ) (a : ℕ) → is_white (get_or ms a 0) ≡ true → a < length ms
unfolding is_white
white_in_range [] a h = cc
white_in_range (m ∷ ms) zero h = omega arith
white_in_range (m ∷ ms) (suc a) h = omega (arith, white_in_range ms a h)

-- Reading the bytes after one was replaced.
pub whiteness-set :
    (ms : List ℕ) (a v x : ℕ)
    → a < length ms
    → is_white (get_or (set ms a v) x 0) ≡ (if x == a then is_white v else is_white (get_or ms x 0))
whiteness-set ms a v x h = ground (arith, get_or-set_self ms a v 0, get_or-set_ne ms a x v 0)

pub whiteness-set_same :
    (ms : List ℕ) (a v x : ℕ)
    → is_white v ≡ is_white (get_or ms a 0)
    → is_white (get_or (set ms a v) x 0) ≡ is_white (get_or ms x 0)
whiteness-set_same [] a v x e = refl
whiteness-set_same (m ∷ ms) zero v zero e = e
whiteness-set_same (m ∷ ms) zero v (suc x) e = refl
whiteness-set_same (m ∷ ms) (suc a) v zero e = refl
whiteness-set_same (m ∷ ms) (suc a) v (suc x) e = whiteness-set_same ms a v x e

pub whites_in-le : (ms : List ℕ) → whites_in ms ≤ length ms
whites_in-le [] = omega arith
whites_in-le (m ∷ ms) = ground (arith, whites_in-le ms)
