-- ===== src/Code/Word/Fields.antt =====
-- Reading back what was packed, and overwriting one field of a word.
use tsuki.Base.Bits.{
  bit_and_split, bit_or_split, bit_and_ones, bit_and-zero, bit_or-zero, bit_or_fields,
  bit_or_fields_rev, bit_and_mask,
}
use native.Mathlib.Nat.{one-le-pow, add-zero}
use tsuki.Base.{ℕ, ◌+◌, ◌-◌, ◌*◌, ◌/◌, ◌%◌, ◌^◌, ◌<◌, ◌≡◌, refl, ap, ◌∙◌, bit_and, bit_or, arith}
use tsuki.Code.Word.{shl32, mask1, get_field, set_field, abck, abx, sj, extra}

pub get_field_lem : (p n i : ℕ) → get_field p n i ≡ i / 2 ^ p % 2 ^ n
unfolding get_field
get_field_lem p n i = bit_and_mask n (i / 2 ^ p)

-- A word is its high part `q`, the field `m` of `n` bits at bit `p`, and its low part `r`.
module _ (p n h q m r v : ℕ) (hq : q < 2 ^ h) (hm : m < 2 ^ n) (hr : r < 2 ^ p)
    (hv : v < 2 ^ n) where
  clear_field :
      bit_and ((q * 2 ^ n + m) * 2 ^ p + r) (((2 ^ h - 1) * 2 ^ n + 0) * 2 ^ p + (2 ^ p - 1))
      ≡ (q * 2 ^ n + 0) * 2 ^ p + r
  clear_field =
      simp
        (
          bit_and_split p (q * 2 ^ n + m) r ((2 ^ h - 1) * 2 ^ n + 0) (2 ^ p - 1) hr
              (omega (arith, one-le-pow p 2)),
          bit_and_split n q m (2 ^ h - 1) 0 hm (one-le-pow n 2 (omega arith)),
          bit_and_ones h q hq,
          bit_and_ones p r hr,
          bit_and-zero m,
        )
        refl

  keep_field : bit_and (v * 2 ^ p + 0) ((2 ^ n - 1) * 2 ^ p + 0) ≡ v * 2 ^ p + 0
  keep_field =
      simp
        (
          bit_and_split p v 0 (2 ^ n - 1) 0 (one-le-pow p 2 (omega arith))
              (one-le-pow p 2 (omega arith)),
          bit_and_ones n v hv,
        )
        refl

  put_field : bit_or ((q * 2 ^ n + 0) * 2 ^ p + r) (v * 2 ^ p + 0) ≡ (q * 2 ^ n + v) * 2 ^ p + r
  put_field =
      simp
        (
          bit_or_split p (q * 2 ^ n + 0) r v 0 hr (one-le-pow p 2 (omega arith)),
          ap (λ (t : ℕ). bit_or t v) (add-zero (q * 2 ^ n)) ∙ bit_or_fields n q v hv,
          bit_or-zero,
        )
        refl

  -- Overwriting: the masks are those of the source where the numerals agree.
  overwrite :
      (i : ℕ)
      → i ≡ (q * 2 ^ n + m) * 2 ^ p + r
      → v * 2 ^ p < 2 ^ 32
      → 2 ^ 32 - 1 - mask1 n p ≡ ((2 ^ h - 1) * 2 ^ n + 0) * 2 ^ p + (2 ^ p - 1)
      → mask1 n p ≡ (2 ^ n - 1) * 2 ^ p + 0
      → set_field p n i v ≡ (q * 2 ^ n + v) * 2 ^ p + r
  unfolding set_field
  overwrite i e small outer inner =
      let whole : shl32 v p ≡ v * 2 ^ p + 0 = omega arith in
      rw (outer, inner, whole, e, clear_field, keep_field, put_field) refl

-- Overwriting each field of the formats.
module _ (i v : ℕ) (hi : i < 2 ^ 32) where
  pub set_op_lem : v < 2 ^ 7 → set_field 0 7 i v ≡ i / 2 ^ 7 * 2 ^ 7 + v
  set_op_lem hv =
      overwrite 0 7 25 (i / 2 ^ 7) (i % 2 ^ 7) 0 v (omega arith) (omega arith) (omega arith) hv i
        (omega arith) (omega arith) refl refl
      ∙ omega arith

  pub set_a_lem : v < 2 ^ 8 → set_field 7 8 i v ≡ (i / 2 ^ 15 * 2 ^ 8 + v) * 2 ^ 7 + i % 2 ^ 7
  set_a_lem hv =
      overwrite 7 8 17 (i / 2 ^ 15) (i / 2 ^ 7 % 2 ^ 8) (i % 2 ^ 7) v (omega arith) (omega arith)
        (omega arith) hv i (omega arith) (omega arith) refl refl

  pub set_k_lem : v < 2 → set_field 15 1 i v ≡ (i / 2 ^ 16 * 2 + v) * 2 ^ 15 + i % 2 ^ 15
  set_k_lem hv =
      overwrite 15 1 16 (i / 2 ^ 16) (i / 2 ^ 15 % 2) (i % 2 ^ 15) v (omega arith) (omega arith)
        (omega arith) hv i (omega arith) (omega arith) refl refl

  pub set_b_lem : v < 2 ^ 8 → set_field 16 8 i v ≡ (i / 2 ^ 24 * 2 ^ 8 + v) * 2 ^ 16 + i % 2 ^ 16
  set_b_lem hv =
      overwrite 16 8 8 (i / 2 ^ 24) (i / 2 ^ 16 % 2 ^ 8) (i % 2 ^ 16) v (omega arith) (omega arith)
        (omega arith) hv i (omega arith) (omega arith) refl refl

  pub set_c_lem : v < 2 ^ 8 → set_field 24 8 i v ≡ v * 2 ^ 24 + i % 2 ^ 24
  set_c_lem hv =
      overwrite 24 8 0 0 (i / 2 ^ 24) (i % 2 ^ 24) v (omega arith) (omega arith) (omega arith) hv i
        (omega arith) (omega arith) refl refl
      ∙ omega arith

  pub set_sj_lem : v < 2 ^ 25 → set_field 7 25 i v ≡ v * 2 ^ 7 + i % 2 ^ 7
  set_sj_lem hv =
      overwrite 7 25 0 0 (i / 2 ^ 7) (i % 2 ^ 7) v (omega arith) (omega arith) (omega arith) hv i
        (omega arith) (omega arith) refl refl
      ∙ omega arith

-- The packed words as sums.
pub abck_lem :
    (o a b c k : ℕ)
    → o < 2 ^ 7
    → a < 2 ^ 8
    → b < 2 ^ 8
    → c < 2 ^ 8
    → k < 2
    → abck o a b c k ≡ o + a * 2 ^ 7 + k * 2 ^ 15 + b * 2 ^ 16 + c * 2 ^ 24
unfolding abck
abck_lem o a b c k ho ha hb hc hk = ground (
  arith,
  bit_or_fields_rev 7 a o,
  bit_or_fields_rev 16 b (a * 2 ^ 7 + o),
  bit_or_fields_rev 24 c (b * 2 ^ 16 + (a * 2 ^ 7 + o)),
  bit_or_split 16 (c * 2 ^ 8 + b) (a * 2 ^ 7 + o) 0 (k * 2 ^ 15),
  bit_or-zero (c * 2 ^ 8 + b),
  bit_or_fields_rev 15 k (a * 2 ^ 7 + o),
)

pub sj_lem : (o j : ℕ) → o < 2 ^ 7 → j < 2 ^ 25 → sj o j 0 ≡ o + j * 2 ^ 7
unfolding sj
sj_lem o j ho hj = ground (arith, bit_or_fields_rev 7 j o, bit_or-zero (j * 2 ^ 7 + o))

pub extra_lem : (o a : ℕ) → o < 2 ^ 7 → a < 2 ^ 25 → extra o a ≡ o + a * 2 ^ 7
unfolding extra
extra_lem o a ho ha = ground (arith, bit_or_fields_rev 7 a o)

pub abx_lem :
    (o a bc : ℕ) → o < 2 ^ 7 → a < 2 ^ 8 → bc < 2 ^ 17 → abx o a bc ≡ o + a * 2 ^ 7 + bc * 2 ^ 15
unfolding abx
abx_lem o a bc ho ha hb =
    ground (arith, bit_or_fields_rev 7 a o, bit_or_fields_rev 15 bc (a * 2 ^ 7 + o))
