-- ===== src/Vm/Arith.antt =====
-- Integer division, remainder and shift of src/vm/mod.rs. An `i64` is an integer; the casts that
-- the source writes are `to_u64` and `of_u64`.
pub mod Floor
pub mod Operate
use tsuki.Base.{
  ℕ, suc, ◌+◌, ◌-◌, ◌*◌, ◌/◌, ◌%◌, ◌^◌, ◌≤◌, ◌<◌, Bool, true, false, ◌&&◌, not, Option, none, some,
  ltb, leb, ◌==◌, if◌then◌else◌,
}
use tsuki.Base.Int.{ℤ, pos, negsuc, ◌+ℤ◌, ◌-ℤ◌, ltb_ℤ, pos_part, neg_part, sub_ℕ}
use tsuki.Base.Int64.{to_u64, of_u64, tdiv, trem, xor64}

-- `a == 0` on `i64`
abbrev pub is_zero : ℤ → Bool
is_zero (pos n) = n == 0
is_zero (negsuc n) = false

-- `(n as u64).wrapping_add(1) <= 1`: `n` is 0 or -1
special : ℤ → Bool
special n = leb ((to_u64 n + 1) % 2 ^ 64) 1

unfoldable pub idiv : ℤ → ℤ → Option ℤ
unfolding special ◌-ℤ◌
idiv m n =
    if special n
    then (if is_zero n then none else some (of_u64 ((2 ^ 64 - to_u64 m) % 2 ^ 64)))
    else (let q = tdiv m n in
        if ltb_ℤ (xor64 m n) (pos 0) && not (is_zero (trem m n)) then some (q -ℤ pos 1) else some q)

unfoldable pub imod : ℤ → ℤ → Option ℤ
unfolding special ◌+ℤ◌
imod m n =
    if special n
    then (if is_zero n then none else some (pos 0))
    else (let r = trem m n in
        if not (is_zero r) && ltb_ℤ (xor64 r n) (pos 0) then some (r +ℤ n) else some r)

unfoldable pub shiftl : ℤ → ℤ → ℤ
shiftl x y =
    if ltb_ℤ y (pos 0)
    then (if leb 64 (neg_part y) then pos 0 else of_u64 (to_u64 x / 2 ^ neg_part y))
    else (if leb 64 (pos_part y) then pos 0 else of_u64 (to_u64 x * 2 ^ pos_part y % 2 ^ 64))
