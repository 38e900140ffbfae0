-- ===== src/Vm/Arith/Operate.antt =====
-- Arithmetic on two integers by operator: `Ops` of src/lib.rs and `intarith` of src/lobject.rs.
pub mod Exact
pub mod Errors
use tsuki.Base.{ℕ, ◌+◌, ◌-◌, ◌*◌, ◌%◌, ◌^◌, bit_and, bit_or, bit_xor, Option, none, some}
use tsuki.Base.Int.{ℤ, pos}
use tsuki.Base.Int64.{to_u64, of_u64}
use tsuki.Vm.Arith.{idiv, imod, shiftl}

pub data Ops : Type 0 where
  op_add op_sub op_mul op_mod op_pow op_num_div op_int_div : Ops
  op_and op_or op_xor op_shl op_shr op_neg op_not : Ops

pub data ArithError : Type 0 where
  mod_zero div_zero : ArithError

pub data ArithResult : Type 0 where
  ok : ℤ → ArithResult
  err : ArithError → ArithResult

-- `ok_or`
abbrev pub ok_or : Option ℤ → ArithError → ArithResult
ok_or none e = err e
ok_or (some r) e = ok r

-- `0u64.wrapping_sub(v) as i64`
abbrev pub negated : ℤ → ℤ
negated v = of_u64 ((2 ^ 64 - to_u64 v) % 2 ^ 64)

unfoldable pub intarith : Ops → ℤ → ℤ → ArithResult
intarith op_add v1 v2 = ok (of_u64 ((to_u64 v1 + to_u64 v2) % 2 ^ 64))
intarith op_sub v1 v2 = ok (of_u64 ((to_u64 v1 + (2 ^ 64 - to_u64 v2)) % 2 ^ 64))
intarith op_mul v1 v2 = ok (of_u64 (to_u64 v1 * to_u64 v2 % 2 ^ 64))
intarith op_mod v1 v2 = ok_or (imod v1 v2) mod_zero
intarith op_int_div v1 v2 = ok_or (idiv v1 v2) div_zero
intarith op_and v1 v2 = ok (of_u64 (bit_and (to_u64 v1) (to_u64 v2)))
intarith op_or v1 v2 = ok (of_u64 (bit_or (to_u64 v1) (to_u64 v2)))
intarith op_xor v1 v2 = ok (of_u64 (bit_xor (to_u64 v1) (to_u64 v2)))
intarith op_shl v1 v2 = ok (shiftl v1 v2)
intarith op_shr v1 v2 = ok (shiftl v1 (negated v2))
intarith op_neg v1 v2 = ok (negated v1)
intarith op_not v1 v2 = ok (of_u64 (bit_xor (2 ^ 64 - 1) (to_u64 v1)))
intarith _ v1 v2 = ok (pos 0)
