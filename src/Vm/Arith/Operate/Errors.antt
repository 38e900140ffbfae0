-- ===== src/Vm/Arith/Operate/Errors.antt =====
-- The errors of `intarith` (src/lobject.rs).
use tsuki.Base.{◌≡◌, ◌↔◌, refl, ap, ◌∙◌, Option, none, some, arith}
use tsuki.Base.Int.{ℤ, pos}
use tsuki.Base.Int64.{IsI64}
use tsuki.Vm.Arith.{idiv, imod}
use tsuki.Vm.Arith.Floor.{idiv-imod_errors}
use tsuki.Vm.Arith.Operate.{
  Ops, op_add, op_sub, op_mul, op_mod, op_pow, op_num_div, op_int_div, op_and, op_or, op_xor,
  op_shl, op_shr, op_neg, op_not, ArithError, mod_zero, div_zero, err, ok_or, intarith,
}

-- The error of an operator whose second operand is 0.
abbrev pub zero_error : Ops → Option ArithError
zero_error op_mod = some mod_zero
zero_error op_int_div = some div_zero
zero_error _ = none

ok_or-err : (r : Option ℤ) (d e : ArithError) → ok_or r d ≡ err e → (r ≡ none) × (d ≡ e)
ok_or-err none d e h = (refl, cc)
ok_or-err (some r) d e h = cc

-- `intarith` fails exactly where the second operand is 0 and the operator is the remainder or the
-- integer division, each with its own error.
pub intarith_errors :
    (op : Ops) (a b : ℤ) (e : ArithError)
    → IsI64 a
    → IsI64 b
    → (intarith op a b ≡ err e) ↔ ((b ≡ pos 0) × (zero_error op ≡ some e))
unfolding intarith
intarith_errors op_mod a b e ha hb =
    let zero_iff = (idiv-imod_errors a b ha hb).1 in
    (
      λ h. let (r, d) = ok_or-err (imod a b) mod_zero e h in (zero_iff.0 r, ap some d),
      λ h.
          ap (λ (r : Option ℤ). ok_or r mod_zero) (zero_iff.1 h.0)
          ∙ (let d : mod_zero ≡ e = cc in ap err d),
    )
intarith_errors op_int_div a b e ha hb =
    let zero_iff = (idiv-imod_errors a b ha hb).0 in
    (
      λ h. let (r, d) = ok_or-err (idiv a b) div_zero e h in (zero_iff.0 r, ap some d),
      λ h.
          ap (λ (r : Option ℤ). ok_or r div_zero) (zero_iff.1 h.0)
          ∙ (let d : div_zero ≡ e = cc in ap err d),
    )
intarith_errors op_add a b e ha hb = ground arith
intarith_errors op_sub a b e ha hb = ground arith
intarith_errors op_mul a b e ha hb = ground arith
intarith_errors op_pow a b e ha hb = ground arith
intarith_errors op_num_div a b e ha hb = ground arith
intarith_errors op_and a b e ha hb = ground arith
intarith_errors op_or a b e ha hb = ground arith
intarith_errors op_xor a b e ha hb = ground arith
intarith_errors op_shl a b e ha hb = ground arith
intarith_errors op_shr a b e ha hb = ground arith
intarith_errors op_neg a b e ha hb = ground arith
intarith_errors op_not a b e ha hb = ground arith
