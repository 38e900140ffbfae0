-- ===== src/Tables/Counts.antt =====
-- `numusearray` of src/table/legacy.rs: how many slots of the array part are in use, counted in slices
-- that end at the powers of two. A slot is whether its value is not nil.
pub mod Key
pub mod Slices
pub mod Used
use tsuki.Log2.{ceillog2}
use tsuki.Base.{
  ℕ, zero, suc, ◌+◌, ◌*◌, ◌%◌, ◌^◌, ◌-◌, Bool, true, false, ◌&&◌, Option, none, some, List, [], ◌∷◌,
  length, get_or, set, ◌==◌, ltb, leb, if◌then◌else◌,
}

-- The inner loop, with the rounds left: the next index, and how many slots are in use.
unfoldable pub slice_loop : ℕ → List Bool → ℕ → ℕ → ℕ → ℕ × ℕ
slice_loop zero array lim i lc = (i, lc)
slice_loop (suc n) array lim i lc =
    let lc' = if get_or array (i - 1) false then (lc + 1) % 2 ^ 32 else lc in
    elim (leb i lim) [ true ↦ slice_loop n array lim ((i + 1) % 2 ^ 32) lc' | false ↦ (i, lc) ]

pub record Usage : Type 0 where
  pub lg : ℕ
  pub ttlg : ℕ
  pub i : ℕ
  pub ause : ℕ
  pub nums : List ℕ

-- A slice up to `lim`.
unfoldable pub count_slice : List Bool → ℕ → Usage → Usage
unfolding slice_loop
count_slice array lim s =
    let (i, lc) = slice_loop (lim + 1) array lim s.i 0 in
    record {
      lg = s.lg + 1;
      ttlg = s.ttlg * 2 % 2 ^ 32;
      i = i;
      ause = (s.ause + lc) % 2 ^ 32;
      nums = set s.nums s.lg ((get_or s.nums s.lg 0 + lc) % 2 ^ 32);
    }

-- The outer loop; `none` when the rounds run out.
unfoldable pub usage_loop : ℕ → List Bool → Usage → Option Usage
unfolding count_slice
usage_loop zero array s = none
usage_loop (suc n) array s =
    let asize = length array in
    elim (leb s.lg 31) [
      | false ↦ some s
      | true ↦ elim (ltb asize s.ttlg) [
        | true ↦ elim (ltb asize s.i) [
          | true ↦ some s
          | false ↦ usage_loop n array (count_slice array asize s)
        ]
        | false ↦ usage_loop n array (count_slice array s.ttlg s)
      ]
    ]

unfoldable pub numusearray : List Bool → List ℕ → Option Usage
unfolding usage_loop
numusearray array nums =
    usage_loop 33 array (record { lg = 0; ttlg = 1; i = 1; ause = 0; nums = nums })

-- The index in the array part of an integer key in two's complement, or 0.
unfoldable pub arrayindex : ℕ → ℕ
arrayindex k = if ltb ((k + 2 ^ 64 - 1) % 2 ^ 64) (2 ^ 31) then k % 2 ^ 32 else 0

-- The counts after a key, and whether it was counted.
unfoldable pub countint : ℕ → List ℕ → List ℕ × ℕ
unfolding arrayindex
countint key nums =
    let k = arrayindex key in
    let slot = ceillog2 k in
    if k == 0 then (nums, 0) else (set nums slot ((get_or nums slot 0 + 1) % 2 ^ 32), 1)
