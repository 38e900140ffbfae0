-- ===== src/Tests/Numbers.antt =====
-- Numerals, arithmetic and loops at concrete inputs.
use tsuki.Base.{ℕ, ◌^◌, ◌<◌, ◌≤◌, ◌≡◌, ◌↔◌, refl, true, none, some, [], ◌∷◌, arith, ◌==◌}
use tsuki.Base.Int.{ℤ, pos, negsuc, ltb_ℤ, ◌+ℤ◌, ◌-ℤ◌, pos_part}
use tsuki.Base.Int64.{IsI64, i64_min}
use tsuki.Number.{
  str2int, skip_space, signed, after_sign, finish, hex_loop, dec_loop, is_space, is_digit,
}
use tsuki.Number.Decimal.{ctype_classes, str2int_decimal, minus, blank, digit}
use tsuki.Log2.{ceillog2}
use tsuki.Log2.Ceil.{ceillog2_lem}
use tsuki.Value.{Floats, int}
use tsuki.Vm.Arith.{idiv, imod}
use tsuki.Vm.Arith.Floor.{idiv-imod-IsFloor, idiv-imod_errors, IsFloor}
use tsuki.Vm.ForLoop
use tsuki.Vm.Arith.Operate.{op_add, op_sub, op_neg, op_mod, ok, err, mod_zero, intarith}
use tsuki.Vm.Arith.Operate.Exact.{intarith_exact}
use tsuki.Vm.Arith.Operate.Errors.{intarith_errors, zero_error}
use tsuki.Vm.ForLoop.Count.{nth, Within}
use tsuki.Vm.ForLoop.Visits.{for_loop_visits, run_loop, start, terms}

ctype_classes_example : (is_space 11 ≡ blank 11) × (is_digit 11 ≡ digit 11)
ctype_classes_example = ctype_classes 11 (omega arith)

-- " -42 "
str2int_decimal_example : str2int (32 ∷ b'-' ∷ b'4' ∷ b'2' ∷ 32 ∷ []) ≡ some (negsuc 41)
str2int_decimal_example =
    str2int_decimal (32 ∷ []) minus b'4' (b'2' ∷ []) (32 ∷ []) (refl, tt) (refl, (refl, tt))
      (refl, tt)

-- " 0x10" is hexadecimal, "1e" is not an integer.
hexadecimal_test : str2int (32 ∷ b'0' ∷ b'x' ∷ b'1' ∷ b'0' ∷ []) ≡ some (pos 16)
unfolding str2int skip_space signed after_sign finish hex_loop
hexadecimal_test = refl

not_integer_test : str2int (b'1' ∷ b'e' ∷ []) ≡ none
unfolding str2int skip_space signed after_sign dec_loop finish
not_integer_test = refl

idiv-imod-IsFloor_example :
    (q : ℤ) × (r : ℤ) × (idiv (negsuc 6) (pos 2) ≡ some q)
    × (imod (negsuc 6) (pos 2) ≡ some r)
    × IsFloor (negsuc 6) (pos 2) q r
idiv-imod-IsFloor_example =
    idiv-imod-IsFloor (negsuc 6) (pos 2) (omega arith, omega arith) (omega arith, omega arith) refl
      (λ h. ground (arith, h.1))

idiv-imod_errors_example :
    ((idiv (pos 7) (pos 0) ≡ none) ↔ (pos 0 ≡ pos 0))
    × ((imod (pos 7) (pos 0) ≡ none) ↔ (pos 0 ≡ pos 0))
    × (idiv i64_min (negsuc 0) ≡ some i64_min)
    × (imod i64_min (negsuc 0) ≡ some (pos 0))
idiv-imod_errors_example =
    idiv-imod_errors (pos 7) (pos 0) (omega arith, omega arith) (omega arith, omega arith)

-- Floats that are integers.
abbrev integers : Floats
integers = record {
  Float = ℤ;
  eqf = λ a b. pos_part a == pos_part b;
  ltf = ltb_ℤ;
  lef = λ a b. ltb_ℤ a (b +ℤ pos 1);
  add = λ a b. a +ℤ b;
  floor = λ a. a;
  negate = λ a. a;
  of_int = λ a. a;
  to_int = λ a. a;
  parse = λ _. none;
  is_finite = λ _. true;
}

-- for i = 10, 1, -4
for_loop_visits_example :
    (c : ℕ) × ((k : ℕ) → (k < c) ↔ Within (pos 1) (negsuc 3) (nth (pos 10) (negsuc 3) k))
    × ((n : ℕ)
        → c ≤ n
        → run_loop integers n (start integers (pos 10) (pos 1) (negsuc 3) (int (pos 0)))
          ≡ ForLoop.ok (some (terms integers (pos 10) (negsuc 3) c)))
    × ((k : ℕ) → k < c → IsI64 (nth (pos 10) (negsuc 3) k))
for_loop_visits_example =
    for_loop_visits integers (pos 10) (pos 1) (negsuc 3) (int (pos 0)) (omega arith, omega arith)
      (omega arith, omega arith) (omega arith, omega arith) refl

ceillog2_lem_example : (1000 ≤ 2 ^ ceillog2 1000) × ((k : ℕ) → 1000 ≤ 2 ^ k → ceillog2 1000 ≤ k)
ceillog2_lem_example = ceillog2_lem 1000 (omega arith) (omega arith)

intarith_exact_example :
    (IsI64 (pos 3 +ℤ negsuc 4) → intarith op_add (pos 3) (negsuc 4) ≡ ok (pos 3 +ℤ negsuc 4))
    × (IsI64 (pos 3 -ℤ negsuc 4) → intarith op_sub (pos 3) (negsuc 4) ≡ ok (pos 3 -ℤ negsuc 4))
    × (IsI64 (pos 0 -ℤ pos 3) → intarith op_neg (pos 3) (negsuc 4) ≡ ok (pos 0 -ℤ pos 3))
intarith_exact_example =
    intarith_exact (pos 3) (negsuc 4) (omega arith, omega arith) (omega arith, omega arith)

intarith_errors_example :
    (intarith op_mod (pos 7) (pos 0) ≡ err mod_zero)
    ↔ ((pos 0 ≡ pos 0) × (zero_error op_mod ≡ some mod_zero))
intarith_errors_example =
    intarith_errors op_mod (pos 7) (pos 0) mod_zero (omega arith, omega arith)
      (omega arith, omega arith)
