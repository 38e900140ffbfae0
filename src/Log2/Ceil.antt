-- ===== src/Log2/Ceil.antt =====
-- The logarithm that the loop and the table of src/lobject.rs compute.
use native.Mathlib.Numerals.{unary_clauses}
use native.Mathlib.Nat.{pow-suc, pow-le-pow_right}
use mathlib.Core.Path.{subst}
use tsuki.Base.{
  ℕ, zero, suc, ◌+◌, ◌-◌, ◌*◌, ◌/◌, ◌%◌, ◌^◌, ◌≤◌, ◌<◌, ◌≡◌, refl, Bool, true, ◌&&◌, ◌||◌, ltb, leb,
  ◌==◌, get_or, arith, Bool-cases, inl, inr, ltb→lt, sym, ap, ◌⊎◌, ◌∙◌,
}
use tsuki.Base.Table.{all_from, all_below, all_below_lem}
use tsuki.Log2.{log_2, log_loop, ceillog2}

-- `l` bits hold `y`, and one less does not.
abbrev pub Bounds : ℕ → ℕ → Type 0
Bounds y l = (y < 2 ^ l) × ((l ≡ 0) ⊎ (2 ^ (l - 1) ≤ y))

abbrev entry : ℕ → ℕ
entry y = get_or log_2 y 0

fits_entry : ℕ → Bool
fits_entry y = ltb y (2 ^ entry y) && (entry y == 0 || leb (2 ^ (entry y - 1)) y)

log_table : all_below 256 fits_entry ≡ true
unfolding all_from fits_entry log_2
log_table = refl

entry_lem : (y : ℕ) → y < 256 → Bounds y (entry y)
entry_lem y h =
    let e : fits_entry y ≡ true = all_below_lem fits_entry log_table h in
    unfold fits_entry in ground arith

pow_8 : (l : ℕ) → 2 ^ (l + 8) ≡ 2 ^ l * 256
pow_8 l = simp unary_clauses (omega arith)

-- Eight more bits.
Bounds-more : (y l : ℕ) → 256 ≤ y → Bounds (y / 256) l → Bounds y (l + 8)
Bounds-more y l big (lt, inl e) =
    absurd (let z : 2 ^ l ≡ 1 = ap (λ (j : ℕ). 2 ^ j) e in omega arith)
Bounds-more y zero big (lt, inr le) = absurd (omega arith)
Bounds-more y (suc l) big (lt, inr le) =
    let after : suc l + 8 - 1 ≡ l + 8 = omega arith in
    let before : suc l - 1 ≡ l = omega arith in
    (
      omega (arith, pow_8 (suc l)),
      inr (rw after (omega (arith, pow_8 l, ap (λ (j : ℕ). 2 ^ j) before))),
    )

log_loop_lem : (n l y : ℕ) → y < 256 ^ n → (e : ℕ) × (log_loop n l y ≡ l + e) × Bounds y e
unfolding log_loop
log_loop_lem zero l y h = (0, omega arith, (omega arith, inl refl))
log_loop_lem (suc n) l y h = elim (Bool-cases (ltb y 256)) [
  | inl small ↦ (entry y, rw (small, log_loop) refl, entry_lem y (ltb→lt y 256 small))
  | inr big ↦
      let (e, loops, bounds) = log_loop_lem n (l + 8) (y / 256) (omega (arith, pow-suc 256 n)) in
      (e + 8, rw (big, loops, log_loop) (omega arith), Bounds-more y e (ground arith) bounds)
]

compare_le : (a b : ℕ) → (a ≤ b) ⊎ (b + 1 ≤ a)
compare_le a b = elim (Bool-cases (leb a b)) [
  | inl h ↦ inl (ground arith)
  | inr h ↦ inr (ground arith)
]

least : (x e : ℕ) → 0 < x → Bounds (x - 1) e → (x ≤ 2 ^ e) × ((k : ℕ) → x ≤ 2 ^ k → e ≤ k)
least x e nz (lt, inl none_left) = (omega arith, λ k fits. omega arith)
least x e nz (lt, inr above) = (
  omega arith,
  λ k fits. elim (compare_le e k) [
    | inl le ↦ le
    | inr gt ↦
        absurd
          (omega (arith, pow-le-pow_right {n = 2} (omega arith) {i = k} {j = e - 1} (omega arith)))
  ],
)

-- On a `u32` other than 0, `luaO_ceillog2` returns the least exponent whose power of 2 is at least
-- its argument.
pub ceillog2_lem :
    (x : ℕ) → 0 < x → x < 2 ^ 32 → (x ≤ 2 ^ ceillog2 x) × ((k : ℕ) → x ≤ 2 ^ k → ceillog2 x ≤ k)
unfolding ceillog2
ceillog2_lem x nz h =
    let less : (x + 2 ^ 32 - 1) % 2 ^ 32 ≡ x - 1 = omega arith in
    let (e, loops, bounds) = log_loop_lem 4 0 (x - 1) (omega arith) in
    let value : ceillog2 x ≡ e = ap (log_loop 4 0) less ∙ loops ∙ omega arith in
    subst (λ (l : ℕ). (x ≤ 2 ^ l) × ((k : ℕ) → x ≤ 2 ^ k → l ≤ k)) (sym value) (least x e nz bounds)
