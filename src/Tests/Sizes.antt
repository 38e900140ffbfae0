-- ===== src/Tests/Sizes.antt =====
-- The counts and the size of the array part for small tables.
use mathlib.Core.Option
use tsuki.Base.{
  ℕ, suc, ◌+◌, ◌-◌, ◌&&◌, ◌^◌, ◌≡◌, refl, arith, if◌then◌else◌, leb, Bool, true, false, some,
  length, min, List, [], ◌∷◌,
}
use tsuki.Tables.Sizes.{computesizes}
use tsuki.Tables.Sizes.Best.{best_size, keys_below, computesizes-best_size}
use tsuki.Tables.Counts.{numusearray, countint}
use tsuki.Tables.Counts.Key.{is_index, countint-keys_below}
use tsuki.Tables.Counts.Slices.{used_below}
use tsuki.Tables.Counts.Used.{numusearray_used}

-- The keys 1, 2, 3, 5 and 100.
abbrev counts : List ℕ
counts = 1 ∷ 1 ∷ 1 ∷ 1 ∷ 0 ∷ 0 ∷ 0 ∷ 1 ∷ []

computesizes-best_size_example : computesizes counts 5 ≡ some (best_size 32 counts)
computesizes-best_size_example = computesizes-best_size counts (omega arith)

sizes_test : computesizes counts 5 ≡ some (4, 3)
unfolding computesizes
sizes_test = refl

-- Five slots, the fourth empty.
abbrev slots : List Bool
slots = true ∷ true ∷ true ∷ false ∷ true ∷ []

abbrev no_counts : List ℕ
no_counts =
    0 ∷ 0 ∷ 0 ∷ 0 ∷ 0 ∷ 0 ∷ 0 ∷ 0 ∷ 0 ∷ 0 ∷ 0 ∷ 0 ∷ 0 ∷ 0 ∷ 0 ∷ 0 ∷ 0 ∷ 0 ∷ 0 ∷ 0 ∷ 0 ∷ 0 ∷ 0 ∷ 0
    ∷ 0 ∷ 0 ∷ 0 ∷ 0 ∷ 0 ∷ 0 ∷ 0 ∷ 0 ∷ []

numusearray_used_example :
    (Option.map (λ s. s.ause) (numusearray slots no_counts)
      ≡ some (used_below (length slots) slots))
    × (Option.map (λ s. keys_below (suc 2) s.nums) (numusearray slots no_counts)
        ≡ some (keys_below (suc 2) no_counts + used_below (min (2 ^ 2) (length slots)) slots))
numusearray_used_example =
    numusearray_used slots no_counts 2 (omega arith) refl (omega arith) (omega arith)

counts_test : Option.map (λ s. s.ause) (numusearray slots no_counts) ≡ some 4
unfolding numusearray
counts_test = refl

countint-keys_below_example :
    ((countint 3 no_counts).1 ≡ (if is_index 3 then 1 else 0))
    × (keys_below (suc 2) (countint 3 no_counts).0
        ≡ keys_below (suc 2) no_counts + (if is_index 3 && leb 3 (2 ^ 2) then 1 else 0))
countint-keys_below_example =
    countint-keys_below 3 no_counts 2 (omega arith) refl (omega arith) (omega arith)

-- The key -1 is not counted, and 2 ^ 31 is the last that is.
countint_tests :
    (countint (2 ^ 64 - 1) no_counts ≡ (no_counts, 0)) × ((countint (2 ^ 31) no_counts).1 ≡ 1)
unfolding countint
countint_tests = (refl, refl)
