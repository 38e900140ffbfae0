-- ===== src/Tables/Counts/Slices.antt =====
-- Each count of `numusearray` is the number of used slots of its slice (src/table/legacy.rs).
use tsuki.Base.{
  ℕ, zero, suc, ◌+◌, ◌-◌, ◌%◌, ◌^◌, ◌≤◌, ◌<◌, ◌≡◌, refl, sym, ap, ◌∙◌, arith, Bool, true, false,
  List, [], ◌∷◌, length, get_or, set, min, ltb, leb, if◌then◌else◌, Bool-cases, length-set, inl,
  inr,
}
use tsuki.Tables.Sizes.Best.{keys_below, keys_below-le, sum}
use tsuki.Tables.Counts.{Usage, slice_loop, count_slice}

-- How many of the first `k` slots are in use.
abbrev pub used_below : ℕ → List Bool → ℕ
used_below zero array = 0
used_below (suc k) [] = 0
used_below (suc k) (b ∷ bs) = (if b then 1 else 0) + used_below k bs

used_below-suc :
    (k : ℕ) (array : List Bool)
    → used_below (suc k) array
      ≡ (if get_or array k false then used_below k array + 1 else used_below k array)
used_below-suc zero [] = refl
used_below-suc (suc k) [] = refl
used_below-suc zero (b ∷ bs) = ground arith
used_below-suc (suc k) (b ∷ bs) = ground (arith, used_below-suc k bs)

-- The slots from `j` to `lim` are counted.
abbrev Counted : List Bool → ℕ → ℕ → ℕ → ℕ × ℕ → Type 0
Counted array lim j lc r =
    (r.0 ≡ lim + 1) × (lc + used_below lim array ≡ r.1 + used_below (j - 1) array)

-- One round of the inner loop on the count and on the index.
abbrev next_count : List Bool → ℕ → ℕ → ℕ
next_count array j lc = if get_or array (j - 1) false then (lc + 1) % 2 ^ 32 else lc

slice_case :
    (n : ℕ) (array : List Bool) (lim j lc : ℕ) (q : Bool)
    → leb j lim ≡ q
    → 0 < j
    → j ≤ lim + 1
    → lim + 1 < 2 ^ 32
    → lc < j
    → (j ≤ lim
        → Counted array lim
            ((j + 1) % 2 ^ 32)
            (next_count array j lc)
            (slice_loop n array lim ((j + 1) % 2 ^ 32) (next_count array j lc)))
    → Counted array lim j lc (elim q [
      | true ↦ slice_loop n array lim ((j + 1) % 2 ^ 32) (next_count array j lc)
      | false ↦ (j, lc)
    ])
slice_case n array lim j lc false e pos le fits low rec =
    let last : j ≡ lim + 1 = ground arith in
    let same : j - 1 ≡ lim = omega (arith, last) in
    (last, ap (λ k. lc + used_below k array) (sym same))
slice_case n array lim j lc true e pos le fits low rec =
    let more : j ≤ lim = ground arith in
    let (ends, counts) = rec more in
    let one = used_below-suc (j - 1) array in
    let next : (j + 1) % 2 ^ 32 - 1 ≡ suc (j - 1) = omega (arith, pos, more, fits) in
    let count : (lc + 1) % 2 ^ 32 ≡ lc + 1 = omega (arith, low, more, fits) in
    let moved = ap (λ k. used_below k array) next in
    (ends, ground (arith, counts, one, moved, count))

slice_loop_lem :
    (n : ℕ) (array : List Bool) (lim j lc : ℕ)
    → 0 < j
    → j ≤ lim + 1
    → lim + 1 < 2 ^ 32
    → lc < j
    → lim + 1 < j + n
    → Counted array lim j lc (slice_loop n array lim j lc)
unfolding slice_loop
slice_loop_lem zero array lim j lc pos le fits low fuel = absurd (omega (arith, le, fuel))
slice_loop_lem (suc n) array lim j lc pos le fits low fuel =
    slice_case n array lim j lc (leb j lim) refl pos le fits low (λ more.
      let index : (j + 1) % 2 ^ 32 ≡ j + 1 = omega (arith, more, fits) in
      let count : (lc + 1) % 2 ^ 32 ≡ lc + 1 = omega (arith, low, more, fits) in
      slice_loop_lem n array lim ((j + 1) % 2 ^ 32) (next_count array j lc) (omega (arith, index))
        (omega (arith, index, more)) fits (ground (arith, index, count, low))
        (omega (arith, index, fuel)))

pub keys_below-set :
    (k i x : ℕ) (nums : List ℕ)
    → i < length nums
    → keys_below k (set nums i (get_or nums i 0 + x))
      ≡ (if ltb i k then keys_below k nums + x else keys_below k nums)
keys_below-set k i x [] lt = absurd (omega arith)
keys_below-set zero zero x (n ∷ ns) lt = refl
keys_below-set zero (suc i) x (n ∷ ns) lt = ground arith
keys_below-set (suc k) zero x (n ∷ ns) lt = ground arith
keys_below-set (suc k) (suc i) x (n ∷ ns) lt = ground (arith, keys_below-set k i x ns)

used_below-le : (k : ℕ) (array : List Bool) → used_below k array ≤ length array
used_below-le zero array = omega arith
used_below-le (suc k) [] = omega arith
used_below-le (suc k) (true ∷ bs) = omega (arith, used_below-le k bs)
used_below-le (suc k) (false ∷ bs) = omega (arith, used_below-le k bs)

pub get_or-le : (i : ℕ) (nums : List ℕ) → get_or nums i 0 ≤ keys_below (suc i) nums
get_or-le zero [] = omega arith
get_or-le (suc i) [] = omega arith
get_or-le zero (x ∷ xs) = omega arith
get_or-le (suc i) (x ∷ xs) = omega (arith, get_or-le i xs)

module _ (array : List Bool) (nums : List ℕ) (fits : sum nums + length array < 2 ^ 32 - 1) where
  -- Before the slice `s.lg`: the slots up to `done` are counted, each in its slice.
  pub record IsCounted (s : Usage) (done : ℕ) : Type 0 where
    pub index : s.i ≡ done + 1
    pub all : s.ause ≡ used_below done array
    pub each :
        (k : ℕ)
        → k < 32
        → keys_below (suc k) s.nums ≡ keys_below (suc k) nums + used_below (min (2 ^ k) done) array
    pub size : length s.nums ≡ length nums

  pub count_slice-IsCounted :
      (s : Usage) (done lim : ℕ)
      → done ≤ lim
      → lim ≤ length array
      → s.lg < 32
      → length nums ≡ 32
      → ((k : ℕ) → k < s.lg → 2 ^ k ≤ done)
      → ((k : ℕ) → s.lg ≤ k → lim ≤ 2 ^ k)
      → IsCounted s done
      → IsCounted (count_slice array lim s) lim
  unfolding count_slice
  count_slice-IsCounted s done lim le short room wide before after h =
      let (ends, counts) =
        slice_loop_lem (lim + 1) array lim s.i 0 (omega (arith, h.index))
          (omega (arith, h.index, le)) (omega (arith, short, fits)) (omega (arith, h.index))
          (omega (arith, h.index)) in
      let back : s.i - 1 ≡ done = omega (arith, h.index) in
      let from = ap (λ k. used_below k array) back in
      let lc = (slice_loop (lim + 1) array lim s.i 0).1 in
      let few = used_below-le lim array in
      let total : (s.ause + lc) % 2 ^ 32 ≡ s.ause + lc =
        omega (arith, h.all, counts, from, few, fits) in
      let here : min (2 ^ s.lg) done ≡ done = omega (arith, after s.lg (omega arith), le) in
      let own = h.each s.lg room ∙ ap (λ m. keys_below (suc s.lg) nums + used_below m array) here in
      let cell : (get_or s.nums s.lg 0 + lc) % 2 ^ 32 ≡ get_or s.nums s.lg 0 + lc = omega (
        arith,
        get_or-le s.lg s.nums,
        own,
        keys_below-le (suc s.lg) nums,
        counts,
        from,
        few,
        fits,
      ) in
      record {
        index = ends;
        all = total ∙ omega (arith, h.all, counts, from);
        each = λ k lt.
            let stored = ap (λ x. keys_below (suc k) (set s.nums s.lg x)) cell in
            let set_count =
              stored ∙ keys_below-set (suc k) s.lg lc s.nums (omega (arith, room, h.size, wide)) in
            elim (Bool-cases (ltb k s.lg)) [
              | inl e ↦
                  let low = before k (ground arith) in
                  let old : min (2 ^ k) done ≡ 2 ^ k = omega (arith, low) in
                  let new : min (2 ^ k) lim ≡ 2 ^ k = omega (arith, low, le) in
                  let same = ap (λ (m : ℕ). used_below m array) (old ∙ sym new) in
                  let each = h.each k lt in ground (arith, set_count, each, same, e)
              | inr e ↦
                  let high = after k (ground arith) in
                  let old : min (2 ^ k) done ≡ done = omega (arith, high, le) in
                  let new : min (2 ^ k) lim ≡ lim = omega (arith, high) in
                  let same = ap (λ (m : ℕ). used_below m array) old in
                  let same' = ap (λ (m : ℕ). used_below m array) new in
                  let each = h.each k lt in
                  ground (arith, set_count, each, same, same', e, counts, from)
            ];
        size = length-set s.nums s.lg ((get_or s.nums s.lg 0 + lc) % 2 ^ 32) ∙ h.size;
      }
