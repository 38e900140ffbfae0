-- ===== src/Code/Word/RoundTrip.antt =====
-- What the decoders read of an emitted word (src/lcode.rs, src/lopcodes.rs).
use tsuki.Base.{ℕ, ◌/◌, ◌%◌, ◌^◌, ◌<◌, ◌≡◌, ap, ◌∙◌, arith}
use tsuki.Code.Word.{
  get_field, get_opcode, get_a, get_k, get_b, get_c, get_bx, get_sj, abck, abx, sj,
}
use tsuki.Code.Word.Fields.{get_field_lem, abck_lem, abx_lem, sj_lem}

-- A field of a word that is given as a number.
read : (p n : ℕ) {i : ℕ} (v : ℕ) {w : ℕ} → i ≡ w → w / 2 ^ p % 2 ^ n ≡ v → get_field p n i ≡ v
read p n v e h = get_field_lem p n _ ∙ ap (λ (x : ℕ). x / 2 ^ p % 2 ^ n) e ∙ h

-- A word that `luaK_codeABCk` packs from operands that fit their fields is a `u32`, and each field
-- reads back the operand that went in.
pub abck_fields :
    (o a b c k : ℕ)
    → o < 2 ^ 7
    → a < 2 ^ 8
    → b < 2 ^ 8
    → c < 2 ^ 8
    → k < 2
    → (abck o a b c k < 2 ^ 32)
      × (get_opcode (abck o a b c k) ≡ o)
      × (get_a (abck o a b c k) ≡ a)
      × (get_b (abck o a b c k) ≡ b)
      × (get_c (abck o a b c k) ≡ c)
      × (get_k (abck o a b c k) ≡ k)
abck_fields o a b c k ho ha hb hc hk =
    let e = abck_lem o a b c k ho ha hb hc hk in
    (
      omega arith,
      read 0 7 o e (omega arith),
      read 7 8 a e (omega arith),
      read 16 8 b e (omega arith),
      read 24 8 c e (omega arith),
      read 15 1 k e (omega arith),
    )

-- A word that `luaK_codeABx` packs, or `codesJ` without `k`, is a `u32` and reads back its
-- operands.
pub abx-sj_fields :
    (o a bx j : ℕ)
    → o < 2 ^ 7
    → a < 2 ^ 8
    → bx < 2 ^ 17
    → j < 2 ^ 25
    → (abx o a bx < 2 ^ 32)
      × (get_opcode (abx o a bx) ≡ o)
      × (get_a (abx o a bx) ≡ a)
      × (get_bx (abx o a bx) ≡ bx)
      × (sj o j 0 < 2 ^ 32)
      × (get_opcode (sj o j 0) ≡ o)
      × (get_sj (sj o j 0) ≡ j)
abx-sj_fields o a bx j ho ha hb hj =
    let e = abx_lem o a bx ho ha hb in
    let e' = sj_lem o j ho hj in
    (
      omega arith,
      read 0 7 o e (omega arith),
      read 7 8 a e (omega arith),
      read 15 17 bx e (omega arith),
      omega arith,
      read 0 7 o e' (omega arith),
      read 7 25 j e' (omega arith),
    )
