-- ===== src/Tables/Counts/Key.antt =====
-- `countint` counts an integer key (src/table/legacy.rs).
use tsuki.Base.{
  ℕ, suc, ◌+◌, ◌-◌, ◌%◌, ◌^◌, ◌≤◌, ◌<◌, ◌≡◌, refl, ap, ◌∙◌, arith, Bool, true, false, ◌&&◌, ◌==◌,
  List, length, get_or, set, ltb, leb, if◌then◌else◌, Bool-cases, inl, inr,
}
use tsuki.Log2.{ceillog2}
use tsuki.Log2.Ceil.{ceillog2_lem}
use tsuki.Tables.Sizes.Best.{keys_below, keys_below-le, sum, power_le}
use tsuki.Tables.Counts.{arrayindex, countint}
use tsuki.Tables.Counts.Slices.{keys_below-set, get_or-le}

-- Whether a key has a place in an array part.
abbrev pub is_index : ℕ → Bool
is_index key = ltb 0 key && leb key (2 ^ 31)

arrayindex_lem : (key : ℕ) → key < 2 ^ 64 → arrayindex key ≡ (if is_index key then key else 0)
unfolding arrayindex
arrayindex_lem key fits = ground arith

-- `countint` on the index of its key.
abbrev count_index : ℕ → List ℕ → List ℕ × ℕ
count_index x nums =
    if x == 0
    then (nums, 0)
    else (set nums (ceillog2 x) ((get_or nums (ceillog2 x) 0 + 1) % 2 ^ 32), 1)

count_index-keys_below :
    (x : ℕ) (nums : List ℕ) (k : ℕ)
    → 0 < x
    → x ≤ 2 ^ 31
    → length nums ≡ 32
    → sum nums < 2 ^ 32 - 1
    → k < 32
    → keys_below (suc k) (set nums (ceillog2 x) ((get_or nums (ceillog2 x) 0 + 1) % 2 ^ 32))
      ≡ keys_below (suc k) nums + (if leb x (2 ^ k) then 1 else 0)
count_index-keys_below x nums k pos le wide few lt =
    let (reach, least) = ceillog2_lem x pos (omega (arith, le)) in
    let slot = least 31 le in
    let cell : (get_or nums (ceillog2 x) 0 + 1) % 2 ^ 32 ≡ get_or nums (ceillog2 x) 0 + 1 =
      omega (arith, get_or-le (ceillog2 x) nums, keys_below-le (suc (ceillog2 x)) nums, few) in
    ap (λ y. keys_below (suc k) (set nums (ceillog2 x) y)) cell
    ∙ keys_below-set (suc k) (ceillog2 x) 1 nums (omega (arith, slot, wide))
    ∙ elim (Bool-cases (leb x (2 ^ k))) [
      | inl e ↦ let low = least k (ground arith) in ground (arith, low, e)
      | inr e ↦ elim (Bool-cases (ltb (ceillog2 x) (suc k))) [
        | inl f ↦
            let low : ceillog2 x ≤ k = ground arith in
            absurd (ground (arith, power_le (ceillog2 x) k low, reach, e))
        | inr f ↦ ground (arith, e, f)
      ]
    ]

count_case :
    (key x : ℕ) (nums : List ℕ) (k : ℕ) (q : Bool)
    → is_index key ≡ q
    → x ≡ (if q then key else 0)
    → length nums ≡ 32
    → sum nums < 2 ^ 32 - 1
    → k < 32
    → ((count_index x nums).1 ≡ (if q then 1 else 0))
      × (keys_below (suc k) (count_index x nums).0
          ≡ keys_below (suc k) nums + (if q && leb key (2 ^ k) then 1 else 0))
count_case key x nums k false e f wide few lt = rw (f) (refl, omega arith)
count_case key x nums k true e f wide few lt =
    let pos : 0 < key = ground arith in
    let le : key ≤ 2 ^ 31 = ground arith in
    let some_index : (key == 0) ≡ false = ground arith in
    let sums = count_index-keys_below key nums k pos le wide few lt in
    rw (f, some_index) (refl, sums)

-- An integer key with a place in an array part is counted in the slice of its index, and no other
-- key is counted.
pub countint-keys_below :
    (key : ℕ) (nums : List ℕ) (k : ℕ)
    → key < 2 ^ 64
    → length nums ≡ 32
    → sum nums < 2 ^ 32 - 1
    → k < 32
    → ((countint key nums).1 ≡ (if is_index key then 1 else 0))
      × (keys_below (suc k) (countint key nums).0
          ≡ keys_below (suc k) nums + (if is_index key && leb key (2 ^ k) then 1 else 0))
unfolding countint
countint-keys_below key nums k fits wide few lt =
    count_case key (arrayindex key) nums k (is_index key) refl (arrayindex_lem key fits) wide few lt
