-- ===== src/Vm/Arith/Operate/Exact.antt =====
-- Where `intarith` of src/lobject.rs does not wrap, and where it fails.
use tsuki.Base.{◌+◌, ◌-◌, ◌%◌, ◌^◌, ◌≡◌, ap, arith}
use tsuki.Base.Int.{ℤ, pos, negsuc, ◌+ℤ◌, ◌-ℤ◌}
use tsuki.Base.Int64.{IsI64, to_u64, of_u64}
use tsuki.Vm.Arith.Operate.{op_add, op_sub, op_neg, intarith, ok, negated}

add_exact :
    (a b : ℤ)
    → IsI64 a
    → IsI64 b
    → IsI64 (a +ℤ b)
    → of_u64 ((to_u64 a + to_u64 b) % 2 ^ 64) ≡ a +ℤ b
unfolding ◌+ℤ◌
add_exact (pos a) (pos b) ha hb h = ground arith
add_exact (pos a) (negsuc b) ha hb h = ground arith
add_exact (negsuc a) (pos b) ha hb h = ground arith
add_exact (negsuc a) (negsuc b) ha hb h = ground arith

sub_exact :
    (a b : ℤ)
    → IsI64 a
    → IsI64 b
    → IsI64 (a -ℤ b)
    → of_u64 ((to_u64 a + (2 ^ 64 - to_u64 b)) % 2 ^ 64) ≡ a -ℤ b
unfolding ◌-ℤ◌
sub_exact (pos a) (pos b) ha hb h = ground arith
sub_exact (pos a) (negsuc b) ha hb h = ground arith
sub_exact (negsuc a) (pos b) ha hb h = ground arith
sub_exact (negsuc a) (negsuc b) ha hb h = ground arith

neg_exact : (a : ℤ) → IsI64 a → IsI64 (pos 0 -ℤ a) → negated a ≡ pos 0 -ℤ a
unfolding ◌-ℤ◌
neg_exact (pos a) ha h = ground arith
neg_exact (negsuc a) ha h = ground arith

-- A sum, a difference or a negation that is an `i64` is what `intarith` returns.
pub intarith_exact :
    (a b : ℤ)
    → IsI64 a
    → IsI64 b
    → (IsI64 (a +ℤ b) → intarith op_add a b ≡ ok (a +ℤ b))
      × (IsI64 (a -ℤ b) → intarith op_sub a b ≡ ok (a -ℤ b))
      × (IsI64 (pos 0 -ℤ a) → intarith op_neg a b ≡ ok (pos 0 -ℤ a))
unfolding intarith
intarith_exact a b ha hb = (
  λ h. ap ok (add_exact a b ha hb h),
  λ h. ap ok (sub_exact a b ha hb h),
  λ h. ap ok (neg_exact a ha h),
)
